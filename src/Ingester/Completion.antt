-- ===== src/Ingester/Completion.antt =====
-- What `Ingester.complete_stage` leaves in the rows.
use doc_mind_ai.Base.{
  ℕ, List, ◌++◌, ap, [], ◌∷◌, ◌≡◌, refl, ◌∙◌, Option, none, some, arith, find-update, find-insert,
  ==_refl,
}
use doc_mind_ai.Model.Enums.{
  JobStage, JobStatus, same_document_status, same_job_status, queued, running, done, processing,
  indexed,
}
use doc_mind_ai.Model.Errors.{job_not_found, uuid, Text, error, ok, raise}
use doc_mind_ai.Model.Details.{Attempt, history, get, num, Details, put, get_or, merge}
use doc_mind_ai.Model.Rows.{Document, Job, Db, get_job, get_document, set_job}
use doc_mind_ai.Repositories.Jobs
use doc_mind_ai.Repositories.Jobs.{new_job}
use doc_mind_ai.Ingester.Methods.{
  advance, complete_document, complete_status, complete_stage, pages_of, record_attempt,
}
use doc_mind_ai.Ingester.Effects.{find-set_job, find-set_document}

abbrev pub done_job : ℕ → Details → Job → Job
done_job now details job = record job {
  status = done;
  finished_at = some now;
  details = merge job.details details;
}

abbrev pub counted : JobStage → Details → Document → Document
counted stage details doc = record doc { page_count = pages_of stage details doc.page_count }

abbrev pub published : ℕ → JobStage → Details → Document → Document
published now stage details doc = record doc {
  page_count = pages_of stage details doc.page_count;
  status = indexed;
  indexed_at = some now;
  metadata = put "chunk_count" (get_or "inserted" (num 0) details) doc.metadata;
}

module _ (now n i : ℕ) (job : Job) (doc : Document) (details : Details) (db : Db)
    (there : get_job i db ≡ some job) (owner : get_document job.document_id db ≡ some doc)
    (is_running : job.status ≡ running) (is_processing : doc.status ≡ processing) where
  complete_status-running :
      (s : JobStatus) (next : Option JobStage)
      → s ≡ running
      → complete_status s now n i job details next db
        ≡ complete_document now n i job details next (get_document job.document_id db) db
  unfolding complete_status
  complete_status-running running next e = refl
  complete_status-running queued next e = cc
  complete_status-running done next e = cc
  complete_status-running JobStatus.failed next e = cc

  complete_stage-advance :
      (next : Option JobStage)
      → complete_stage now n i details next db
        ≡ advance now n job doc details next (set_job i (done_job now details job) db)
  unfolding complete_stage complete_document
  complete_stage-advance next =
      rw (there, complete_stage)
        (complete_status-running job.status next is_running
          ∙ rw (owner, complete_document)
              (rw (ap (λ s. same_document_status s processing) is_processing)))

  -- The last stage: the job is done and the document indexed.
  pub complete_stage-last :
      let (r, db') = complete_stage now n i details none db in
      (r ≡ ok none)
      × (get_job i db' ≡ some (done_job now details job))
      × (get_document job.document_id db' ≡ some (published now job.stage details doc))
  unfolding advance
  complete_stage-last = rw (complete_stage-advance none) (
    refl,
    find-set_job i _ job db there,
    find-set_document job.document_id _ doc (set_job i (done_job now details job) db) owner,
  )

  -- Any other stage: the job is done, and the next stage's job is there, queued.
  pub complete_stage-next :
      (next : JobStage)
      → get_job n db ≡ none
      → let (r, db') = complete_stage now n i details (some next) db in
        let job' = new_job now job.document_id next queued in
        (r ≡ ok (some (n, job')))
        × (get_job i db' ≡ some (done_job now details job))
        × (get_job n db' ≡ some job')
        × (get_document job.document_id db' ≡ some (counted job.stage details doc))
  unfolding advance Jobs.create_enqueue
  complete_stage-next next fresh =
      let finished : Db = set_job i (done_job now details job) db in
      let absent : get_job n finished ≡ none =
        rw (find-update i n (done_job now details job) db.jobs job there) (ground arith) in
      rw (complete_stage-advance (some next)) (
        refl,
        rw (find-insert n i (new_job now job.document_id next queued) finished.jobs absent)
            (ground (arith, find-set_job i (done_job now details job) job db there)),
        rw (find-insert n n (new_job now job.document_id next queued) finished.jobs absent)
            (rw ==_refl),
        find-set_document job.document_id _ doc finished owner,
      )

pub complete_stage-absent :
    (now n i : ℕ) (details : Details) (next : Option JobStage) (db : Db)
    → get_job i db ≡ none
    → complete_stage now n i details next db ≡ (raise (error job_not_found (uuid i ∷ [])), db)
unfolding complete_stage
complete_stage-absent now n i details next db e = rw (e, complete_stage)

-- The job after one more attempt.
abbrev pub attempted : ℕ → Text → List Attempt → Job → Job
attempted n reason past job =
    let entry : Attempt = record { attempt = n; error = reason } in
    record job { details = put "attempt" (history (past ++ entry ∷ [])) job.details }

pub record_attempt-running :
    (i : ℕ) (reason : Text) (n : ℕ) (past : List Attempt) (job : Job) (db : Db)
    → get_job i db ≡ some job
    → job.status ≡ running
    → Jobs.attempts_of (get "attempt" job.details) ≡ ok past
    → record_attempt i reason n db ≡ (ok tt, set_job i (attempted n reason past job) db)
unfolding record_attempt Jobs.record_attempt
record_attempt-running i reason n past job db there is_running attempts =
    rw (there, record_attempt)
      (rw (ap (λ s. same_job_status s running) is_running, Jobs.require_job-some i db job there)
        (rw attempts))
