-- ===== src/Service/Upload.antt =====
-- What an upload leaves in the rows and in the queue, and what a worker then finds.
use doc_mind_ai.Base.{ℕ, ◌≡◌, refl, none, some, String, [], ◌∷◌, ◌++◌, insert}
use doc_mind_ai.Model.Enums.{JobStage, extract, queued, failed, stage_task}
use doc_mind_ai.Model.Errors.{Result, ok, raise}
use doc_mind_ai.Model.Rows.{Document, Job, Db, get_job}
use doc_mind_ai.Repositories.Jobs.{new_job, latest_by_document}
use doc_mind_ai.Repositories.Documents.{find_by_content_hash}
use doc_mind_ai.Worker.Stage.{World, StageFn, Env, Reply, accepted, duplicate, fails, run_stage}
use doc_mind_ai.Worker.Outcomes.{run_stage-finished}
use doc_mind_ai.Storage.Backend.{StoredObject}
use doc_mind_ai.Service.Methods.{
  DocumentResponse, new_document, get_or_create, found_document, existing_document,
}
use doc_mind_ai.Service.Changes.{upload, enqueue_response}

module _ (redis : World → ℕ → Reply) (now new_document_id new_job_id user_id : ℕ)
    (stored : StoredObject) (w : World) where
  module _ (d : ℕ) (doc : Document) (j : ℕ) (job : Job)
      (known : find_by_content_hash user_id stored.content_hash w.db ≡ some (d, doc))
      (latest : latest_by_document d w.db ≡ some (j, job)) (accepts : redis w j ≡ accepted)
      (task : String) (named : stage_task job.stage ≡ some task) where
    -- A file that the user has uploaded before: no row changes, and the latest job of its document gets a
    -- task again.
    pub upload-known :
        upload redis now new_document_id new_job_id user_id stored w
        ≡ (ok tt, record w { queue = w.queue ++ (task, j) ∷ [] })
    unfolding upload get_or_create found_document existing_document enqueue_response
    upload-known =
        rw (known, found_document)
          (rw (latest, existing_document) (rw (named, enqueue_response) (rw accepts refl)))

    -- Where a user uploads a file whose document exists with a FAILED latest job and redis
    -- accepts, a run of the task that the upload enqueues returns at once and changes nothing: the
    -- upload does not retry the document.
    pub upload-failed_again :
        (env : Env) (stage : JobStage) (fn : StageFn)
        → get_job j w.db ≡ some job
        → job.status ≡ failed
        → let w' = (upload redis now new_document_id new_job_id user_id stored w).1 in
          run_stage env j stage fn w' ≡ (ok tt, w')
    upload-failed_again env stage fn there over =
        rw upload-known (run_stage-finished env j stage fn _ job there (rw over refl))

  module _ (unknown : find_by_content_hash user_id stored.content_hash w.db ≡ none) where
    created : Result DocumentResponse
    created = ok (record {
      document_id = new_document_id;
      job_id = new_job_id;
      mime_type = stored.mime_type;
      size_bytes = stored.size_bytes;
      current_stage = extract;
    })

    abbrev rows_after : Db
    rows_after = record w.db {
      documents = insert new_document_id (new_document now user_id stored) w.db.documents;
      jobs = insert new_job_id (new_job now new_document_id extract queued) w.db.jobs;
    }

    -- What the request comes to, by the answer of redis.
    abbrev pub new_upload : Reply → Result (Unit {0}) × World
    new_upload accepted = (
      ok tt,
      record w { db = rows_after; queue = w.queue ++ ("process_extract", new_job_id) ∷ [] },
    )
    new_upload duplicate = (ok tt, record w { db = rows_after })
    new_upload (fails e) = (raise e, w)
