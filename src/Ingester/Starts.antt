-- ===== src/Ingester/Starts.antt =====
-- The starts and failures of `Ingester` as sequences of changes of the abstract state machine.
use doc_mind_ai.Base.{
  ℕ, ◌≡◌, refl, true, false, Option, none, some, Option-cases, Bool-cases, inl, inr, arith,
}
use doc_mind_ai.Model.Enums.{
  same_document_status, DocumentStatus, JobStage, JobStatus, queued, running, done, pending,
  processing, indexed,
}
use doc_mind_ai.Model.Errors.{Text}
use doc_mind_ai.Model.Rows.{Document, Job, Db, get_job, get_document, set_job}
use doc_mind_ai.Repositories.Documents
use doc_mind_ai.Ingester.Methods.{
  start_rows, start_document, start_status, start_stage, fail_document, fail_stage, is_startable,
  is_finished, restamp, is_other_stage,
}
use doc_mind_ai.Ingester.Machine.{
  IsActive, IsOpen, begin, give_up, process, reject, Step, job_step, document_step, Steps, here,
  one, Steps-trans,
}

pub IsOpen-is_startable : (s : DocumentStatus) → is_startable s ≡ true → IsOpen s
IsOpen-is_startable pending h = inl refl
IsOpen-is_startable processing h = inr refl
IsOpen-is_startable indexed h = cc
IsOpen-is_startable DocumentStatus.failed h = cc

pub IsActive-is_finished : (s : JobStatus) → is_finished s ≡ false → IsActive s
IsActive-is_finished queued h = inl refl
IsActive-is_finished running h = inr refl
IsActive-is_finished done h = cc
IsActive-is_finished JobStatus.failed h = cc

fail_document-Steps :
    (d : ℕ) (reason : Text) (o : Option Document) (db : Db)
    → get_document d db ≡ o
    → Steps db (fail_document d reason o db)
unfolding fail_document
fail_document-Steps d reason none db e = here
fail_document-Steps d reason (some doc) db e = elim (Bool-cases (is_startable doc.status)) [
  | inl open_ ↦
      rw open_
        (one (document_step d doc _ e (reject reason (IsOpen-is_startable _ open_) refl) refl))
  | inr shut ↦ rw shut here
]

-- What fail_stage does to the rows is a sequence of legal steps of the abstract state machine.
pub fail_stage-Steps : (now i : ℕ) (reason : Text) (db : Db) → Steps db (fail_stage now i reason db)
unfolding fail_stage
fail_stage-Steps now i reason db = elim (Option-cases (get_job i db)) [
  | inl absent ↦ rw (absent, fail_stage) here
  | inr (job, there) ↦
      rw (there, fail_stage)
        (elim (Bool-cases (is_finished job.status)) [
          | inl over ↦ rw over here
          | inr more ↦ rw more (
              Steps-trans
                (one
                  (job_step i job _ there (give_up now _ (IsActive-is_finished _ more) refl) refl))
                (fail_document-Steps job.document_id reason _ _ refl))
        ])
]

pub is-pending : (s : DocumentStatus) → same_document_status s pending ≡ true → s ≡ pending
is-pending s h = ground arith

pub is-processing : (s : DocumentStatus) → same_document_status s processing ≡ true → s ≡ processing
is-processing s h = ground arith

pub restamp-some :
    (now : ℕ) (s : JobStatus) (old : Option ℕ) → (t : ℕ) × (restamp now s old ≡ some t)
restamp-some now running (some t) = (t, refl)
restamp-some now running none = (now, refl)
restamp-some now queued old = (now, refl)
restamp-some now done old = (now, refl)
restamp-some now JobStatus.failed old = (now, refl)

module _ (now i : ℕ) (job : Job) (db : Db) (there : get_job i db ≡ some job)
    (active : IsActive job.status) where
  start_rows-Steps :
      (doc : Document)
      → get_document job.document_id db ≡ some doc
      → Steps db (start_rows now i job doc db).1
  unfolding start_rows Documents.set_status
  start_rows-Steps doc e =
      let (t, stamped) = restamp-some now job.status job.started_at in
      let job' : Job = record job {
        status = running;
        started_at = restamp now job.status job.started_at;
      } in
      let first : Step db (set_job i job' db) =
        job_step i job job' there (begin _ t active stamped refl) refl in
      elim (Bool-cases (same_document_status doc.status pending)) [
        | inl fresh ↦
            rw (fresh, Documents.require_document-some job.document_id (set_job i job' db) doc e)
              (Steps.next (one first)
                (document_step job.document_id doc _ e (process (is-pending _ fresh) refl) refl))
        | inr old ↦ rw old (one first)
      ]

  start_document-Steps :
      (o : Option Document)
      → get_document job.document_id db ≡ o
      → Steps db (start_document now i job o db).1
  unfolding start_document
  start_document-Steps none e = here
  start_document-Steps (some doc) e = elim (Bool-cases (is_startable doc.status)) [
    | inl open_ ↦ rw open_ (start_rows-Steps doc e)
    | inr shut ↦ rw shut here
  ]

start_status-Steps :
    (s : JobStatus) (now i : ℕ) (job : Job) (db : Db)
    → get_job i db ≡ some job
    → job.status ≡ s
    → Steps db (start_status s now i job db).1
unfolding start_status
start_status-Steps queued now i job db there e =
    start_document-Steps now i job db there (inl e) _ refl
start_status-Steps running now i job db there e =
    start_document-Steps now i job db there (inr e) _ refl
start_status-Steps done now i job db there e = here
start_status-Steps JobStatus.failed now i job db there e = here

-- What start_stage does to the rows, whether it returns or raises, is a sequence of legal steps of
-- the abstract state machine of jobs and documents.
pub start_stage-Steps :
    (now i : ℕ) (asked : Option JobStage) (db : Db) → Steps db (start_stage now i asked db).1
unfolding start_stage
start_stage-Steps now i asked db = elim (Option-cases (get_job i db)) [
  | inl absent ↦ rw (absent, start_stage) here
  | inr (job, there) ↦
      rw (there, start_stage)
        (elim (Bool-cases (is_other_stage asked job.stage)) [
          | inl other ↦ rw other here
          | inr same ↦ rw same (start_status-Steps job.status now i job db there refl)
        ])
]
