-- ===== src/Examples/Requests.antt =====
-- Requests to the document API.
use doc_mind_ai.Base.{false, ℕ, ◌≡◌, ◌≢◌, refl, some, [], ◌∷◌, find, insert}
use doc_mind_ai.Model.Enums.{DocumentStatus, extract, clean, queued}
use doc_mind_ai.Model.Errors.{ok}
use doc_mind_ai.Model.Rows.{get_job}
use doc_mind_ai.Repositories.Jobs.{new_job}
use doc_mind_ai.Repositories.Documents.{get_for_user}
use doc_mind_ai.Storage.Keys.{artifact_keys_from}
use doc_mind_ai.Storage.Backend.{Backend}
use doc_mind_ai.Worker.Stage.{World}
use doc_mind_ai.Storage.Backend.{StoredObject}
use doc_mind_ai.Service.Changes.{delete_stale, reprocess_request}
use doc_mind_ai.Service.Reprocess.{reprocess_request-two_jobs}
use doc_mind_ai.Examples.Samples.{next_id, next_id-IsFresh, document, world, over, accepting}
use doc_mind_ai.Examples.Sweeps.{settings, same_text}

abbrev report : StoredObject
report = record {
  key = "7/ab/report.pdf";
  content_hash = "abcd";
  mime_type = "application/pdf";
  size_bytes = 2048;
  deduplicated = false;
  filename = "report.pdf";
}

abbrev empty : World
empty = world (record { documents = []; jobs = []; chunks = [] })

abbrev indifferent : Backend
indifferent = record { delete = λ key o. (ok tt, o); delete_raw = λ key o. (ok tt, o) }

reprocess_request-two_jobs_example :
    let w =
      (reprocess_request same_text
        (settings "small")
        indifferent
        accepting
        300
        next_id
        7
        1
        clean
        over).1 in
    (w.queue ≡ ("process_extract", 7) ∷ [])
    × (get_job 6 w.db ≡ some (new_job 300 1 clean queued))
    × (get_job 7 w.db ≡ some (new_job 300 1 extract queued))
    × (◌≢◌ {A = ℕ} 6 7)
unfolding find get_for_user delete_stale artifact_keys_from insert
reprocess_request-two_jobs_example =
    reprocess_request-two_jobs 300 next_id 1 (document DocumentStatus.failed) clean over.db
      same_text (settings "small") indifferent 7 "abcd" [] [] [] refl refl refl next_id-IsFresh
      accepting refl
