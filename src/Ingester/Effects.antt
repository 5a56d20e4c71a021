-- ===== src/Ingester/Effects.antt =====
-- What the methods of `Ingester` leave in the rows, on the branches that change them.
use doc_mind_ai.Base.{
  ℕ, ◌≡◌, refl, ◌∙◌, true, false, Option, none, some, inl, inr, Bool-cases, arith, find-update,
  ==_refl, if◌then◌else◌,
}
use doc_mind_ai.Model.Enums.{
  DocumentStatus, JobStage, JobStatus, queued, running, done, pending, processing, same_stage,
  same_document_status,
}
use doc_mind_ai.Model.Errors.{Text, ok}
use doc_mind_ai.Model.Details.{text, put}
use doc_mind_ai.Model.Rows.{Document, Job, Db, get_job, get_document, set_job, set_document}
use doc_mind_ai.Repositories.Documents
use doc_mind_ai.Ingester.Methods.{
  start_rows, start_document, start_status, start_stage, restamp, fail_document, fail_stage,
  is_startable, is_finished,
}
use doc_mind_ai.Ingester.Machine.{IsActive}

same_stage_refl : (s : JobStage) → same_stage s s ≡ true
same_stage_refl s = ground arith

pub find-set_job :
    (i : ℕ) (job old : Job) (db : Db)
    → get_job i db ≡ some old
    → get_job i (set_job i job db) ≡ some job
find-set_job i job old db e = rw (find-update i i job db.jobs old e) (rw ==_refl)

pub find-set_document :
    (i : ℕ) (doc old : Document) (db : Db)
    → get_document i db ≡ some old
    → get_document i (set_document i doc db) ≡ some doc
find-set_document i doc old db e = rw (find-update i i doc db.documents old e) (rw ==_refl)

-- The rows after a successful start.
abbrev pub started : ℕ → Job → Job
started now job = record job {
  status = running;
  started_at = restamp now job.status job.started_at;
}

abbrev pub taken_up : Document → Document
taken_up doc =
    if same_document_status doc.status pending
    then record doc { status = processing; error_message = none }
    else doc

module _ (now i : ℕ) (job : Job) (doc : Document) (db : Db) (there : get_job i db ≡ some job)
    (owner : get_document job.document_id db ≡ some doc) where
  start_rows-eq : (start_rows now i job doc db).0 ≡ ok (started now job)
  unfolding start_rows Documents.set_status
  start_rows-eq = elim (Bool-cases (same_document_status doc.status pending)) [
    | inl fresh ↦ rw (
      fresh,
      Documents.require_document-some job.document_id (set_job i (started now job) db) doc owner,
    )
    | inr old ↦ rw old
  ]

  start_rows-job : get_job i (start_rows now i job doc db).1 ≡ some (started now job)
  unfolding start_rows Documents.set_status
  start_rows-job = elim (Bool-cases (same_document_status doc.status pending)) [
    | inl fresh ↦
        rw
          (
            fresh,
            Documents.require_document-some job.document_id (set_job i (started now job) db) doc
                owner,
          )
          (find-set_job i _ job db there)
    | inr old ↦ rw old (find-set_job i _ job db there)
  ]

  start_rows-document :
      get_document job.document_id (start_rows now i job doc db).1 ≡ some (taken_up doc)
  unfolding start_rows Documents.set_status
  start_rows-document = elim (Bool-cases (same_document_status doc.status pending)) [
    | inl fresh ↦
        rw
          (
            fresh,
            Documents.require_document-some job.document_id (set_job i (started now job) db) doc
                owner,
          )
          (find-set_document job.document_id _ doc db owner)
    | inr old ↦ rw old owner
  ]

start_status-active :
    (s : JobStatus) (now i : ℕ) (job : Job) (db : Db)
    → IsActive s
    → start_status s now i job db ≡ start_document now i job (get_document job.document_id db) db
unfolding start_status
start_status-active queued now i job db a = refl
start_status-active running now i job db a = refl
start_status-active done now i job db (inl e) = cc
start_status-active done now i job db (inr e) = cc
start_status-active JobStatus.failed now i job db (inl e) = cc
start_status-active JobStatus.failed now i job db (inr e) = cc

start_stage-rows :
    (now i : ℕ) (job : Job) (doc : Document) (db : Db)
    → get_job i db ≡ some job
    → get_document job.document_id db ≡ some doc
    → IsActive job.status
    → is_startable doc.status ≡ true
    → start_stage now i (some job.stage) db ≡ start_rows now i job doc db
unfolding start_stage
start_stage-rows now i job doc db there owner active startable =
    rw (there, start_stage)
      (rw (same_stage_refl job.stage) (
        start_status-active job.status now i job db active
        ∙ (unfold start_document in rw (owner, start_document) (rw startable))))

-- For a QUEUED or RUNNING job and a PENDING or PROCESSING document start_stage returns the job as
-- RUNNING with a start time that an earlier start keeps, stores it, and moves a PENDING document
-- to PROCESSING.
pub start_stage-starts :
    (now i : ℕ) (job : Job) (doc : Document) (db : Db)
    → get_job i db ≡ some job
    → get_document job.document_id db ≡ some doc
    → IsActive job.status
    → is_startable doc.status ≡ true
    → let (r, db') = start_stage now i (some job.stage) db in
      (r ≡ ok (started now job))
      × (get_job i db' ≡ some (started now job))
      × (get_document job.document_id db' ≡ some (taken_up doc))
start_stage-starts now i job doc db there owner active startable =
    rw (start_stage-rows now i job doc db there owner active startable) (
      start_rows-eq now i job doc db there owner,
      start_rows-job now i job doc db there owner,
      start_rows-document now i job doc db there owner,
    )

abbrev pub failed_job : ℕ → Text → Job → Job
failed_job now reason job = record job {
  status = JobStatus.failed;
  finished_at = some now;
  details = put "error" (text reason) job.details;
}

-- An open document fails with its job, any other stays as it is.
abbrev pub failed_document : Text → Document → Document
failed_document reason doc =
    if is_startable doc.status
    then record doc { status = DocumentStatus.failed; error_message = some reason }
    else doc

jobs-fail_document :
    (d : ℕ) (reason : Text) (o : Option Document) (i : ℕ) (db : Db)
    → get_job i (fail_document d reason o db) ≡ get_job i db
unfolding fail_document
jobs-fail_document d reason none i db = refl
jobs-fail_document d reason (some doc) i db = elim (Bool-cases (is_startable doc.status)) [
  | inl s ↦ rw s
  | inr s ↦ rw s
]

document-fail_document :
    (d : ℕ) (reason : Text) (doc : Document) (db : Db)
    → get_document d db ≡ some doc
    → get_document d (fail_document d reason (some doc) db) ≡ some (failed_document reason doc)
unfolding fail_document
document-fail_document d reason doc db e = elim (Bool-cases (is_startable doc.status)) [
  | inl s ↦ rw s (find-set_document d _ doc db e)
  | inr s ↦ rw s e
]

module _ (now i : ℕ) (reason : Text) (job : Job) (db : Db) (there : get_job i db ≡ some job)
    (active : is_finished job.status ≡ false) where
  pub fail_stage-job : get_job i (fail_stage now i reason db) ≡ some (failed_job now reason job)
  unfolding fail_stage
  fail_stage-job =
      rw (there, fail_stage)
        (rw active
          (jobs-fail_document job.document_id reason _ i _ ∙ find-set_job i _ job db there))

  pub fail_stage-document :
      (doc : Document)
      → get_document job.document_id db ≡ some doc
      → get_document job.document_id (fail_stage now i reason db)
        ≡ some (failed_document reason doc)
  unfolding fail_stage
  fail_stage-document doc owner =
      rw (there, fail_stage)
        (rw active (
          rw owner (
            document-fail_document job.document_id reason doc
              (set_job i (failed_job now reason job) db) owner)))

-- fail_stage changes nothing if the job is DONE or FAILED.
pub fail_stage-finished :
    (now i : ℕ) (reason : Text) (job : Job) (db : Db)
    → get_job i db ≡ some job
    → is_finished job.status ≡ true
    → fail_stage now i reason db ≡ db
unfolding fail_stage
fail_stage-finished now i reason job db there over = rw (there, fail_stage) (rw over)

pub fail_stage-absent :
    (now i : ℕ) (reason : Text) (db : Db) → get_job i db ≡ none → fail_stage now i reason db ≡ db
unfolding fail_stage
fail_stage-absent now i reason db e = rw (e, fail_stage)
