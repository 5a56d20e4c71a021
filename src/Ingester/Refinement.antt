-- ===== src/Ingester/Refinement.antt =====
-- The methods of `Ingester` as sequences of changes of the abstract state machine.
use doc_mind_ai.Base.{
  ℕ, ==_refl, ◌≡◌, refl, true, Option, none, some, Option-cases, Bool-cases, inl, inr, arith,
  find-update,
}
use doc_mind_ai.Model.Enums.{
  same_document_status, same_job_status, JobStage, JobStatus, queued, running, done, processing,
}
use doc_mind_ai.Model.Errors.{Text, Result-cases}
use doc_mind_ai.Model.Details.{Details, get}
use doc_mind_ai.Model.Rows.{Document, Job, Db, get_job, get_document}
use doc_mind_ai.Repositories.Jobs
use doc_mind_ai.Ingester.Methods.{
  start_stage, fail_stage, complete_status, complete_stage, record_attempt, advance,
  complete_document, pages_of,
}
use doc_mind_ai.Ingester.Machine.{
  note, finish, count, publish, job_step, document_step, enqueue, Steps, here, one, Steps-trans,
}
use doc_mind_ai.Ingester.Starts.{fail_stage-Steps, is-processing, start_stage-Steps}

advance-Steps :
    (now n : ℕ) (job : Job) (doc : Document) (details : Details) (next : Option JobStage) (db : Db)
    → get_document job.document_id db ≡ some doc
    → doc.status ≡ processing
    → get_job n db ≡ none
    → Steps db (advance now n job doc details next db).1
unfolding advance Jobs.create_enqueue
advance-Steps now n job doc details none db e p fresh =
    one (document_step job.document_id doc _ e (publish now _ _ p refl) refl)
advance-Steps now n job doc details (some next) db e p fresh =
    Steps.next (one (document_step job.document_id doc _ e (count _ p refl) refl)) (
      enqueue n _ (record doc { page_count = pages_of job.stage details doc.page_count }) fresh
        (rw (find-update job.document_id job.document_id _ db.documents doc e) (rw ==_refl)) refl
        refl refl refl)

complete_document-Steps :
    (now n i : ℕ) (job : Job) (details : Details) (next : Option JobStage) (db : Db)
    → get_job i db ≡ some job
    → job.status ≡ running
    → get_job n db ≡ none
    → (o : Option Document) → get_document job.document_id db ≡ o
    → Steps db (complete_document now n i job details next o db).1
unfolding complete_document
complete_document-Steps now n i job details next db there r fresh none e = here
complete_document-Steps now n i job details next db there r fresh (some doc) e =
    elim (Bool-cases (same_document_status doc.status processing)) [
      | inl p ↦ rw p (
          Steps-trans (one (job_step i job _ there (finish now _ r refl) refl)) (
            advance-Steps now n job doc details next _ e (is-processing _ p)
              (rw (find-update i n _ db.jobs job there) (ground arith))))
      | inr q ↦ rw q here
    ]

complete_status-Steps :
    (s : JobStatus) (now n i : ℕ) (job : Job) (details : Details) (next : Option JobStage) (db : Db)
    → get_job i db ≡ some job
    → job.status ≡ s
    → get_job n db ≡ none
    → Steps db (complete_status s now n i job details next db).1
unfolding complete_status
complete_status-Steps running now n i job details next db there e fresh =
    complete_document-Steps now n i job details next db there e fresh _ refl
complete_status-Steps queued now n i job details next db there e fresh = here
complete_status-Steps done now n i job details next db there e fresh = here
complete_status-Steps JobStatus.failed now n i job details next db there e fresh = here

-- What complete_stage does to the rows, whether it returns or raises, is a sequence of legal steps
-- of the abstract state machine, if the id of the next job is fresh.
pub complete_stage-Steps :
    (now n i : ℕ) (details : Details) (next : Option JobStage) (db : Db)
    → get_job n db ≡ none
    → Steps db (complete_stage now n i details next db).1
unfolding complete_stage
complete_stage-Steps now n i details next db fresh = elim (Option-cases (get_job i db)) [
  | inl absent ↦ rw (absent, complete_stage) here
  | inr (job, there) ↦
      rw (there, complete_stage)
        (complete_status-Steps job.status now n i job details next db there refl fresh)
]

is-running : (s : JobStatus) → same_job_status s running ≡ true → s ≡ running
is-running s h = ground arith

pub record_attempt-Steps :
    (i : ℕ) (reason : Text) (n : ℕ) (db : Db) → Steps db (record_attempt i reason n db).1
unfolding record_attempt Jobs.record_attempt
record_attempt-Steps i reason n db = elim (Option-cases (get_job i db)) [
  | inl absent ↦ rw (absent, record_attempt) here
  | inr (job, there) ↦
      rw (there, record_attempt)
        (elim (Bool-cases (same_job_status job.status running)) [
          | inl r ↦
              rw (r, Jobs.require_job-some i db job there)
                (elim (Result-cases (Jobs.attempts_of (get "attempt" job.details))) [
                  | inl (h, e) ↦
                      rw e (one (job_step i job _ there (note _ (is-running _ r) refl) refl))
                  | inr (x, e) ↦ rw e here
                ])
          | inr r ↦ rw r here
        ])
]

-- What start_stage, complete_stage, fail_stage and record_attempt do to the rows, whether they
-- return or raise, is a sequence of legal steps of the abstract state machine of jobs and
-- documents, if the id of the next job is fresh.
pub methods-Steps :
    (now n i : ℕ) (asked : Option JobStage) (details : Details) (next : Option JobStage)
    (reason : Text) (attempt : ℕ) (db : Db)
    → get_job n db ≡ none
    → Steps db (start_stage now i asked db).1
      × Steps db (complete_stage now n i details next db).1
      × Steps db (fail_stage now i reason db)
      × Steps db (record_attempt i reason attempt db).1
methods-Steps now n i asked details next reason attempt db fresh = (
  start_stage-Steps now i asked db,
  complete_stage-Steps now n i details next db fresh,
  fail_stage-Steps now i reason db,
  record_attempt-Steps i reason attempt db,
)
