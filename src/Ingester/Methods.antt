-- ===== src/Ingester/Methods.antt =====
-- backend/app/rag/ingestion.py, class `Ingester`: the transitions of a job and of its document.
use doc_mind_ai.Base.{
  ℕ, String, Bool, true, false, Option, none, some, List, [], ◌∷◌, if◌then◌else◌, not,
}
use doc_mind_ai.Model.Enums.{
  DocumentStatus, JobStage, JobStatus, queued, running, done, same_job_status, same_stage,
  same_document_status,
}
use doc_mind_ai.Model.Errors.{
  job_not_found, document_not_found, job_already_done, job_already_failed, invalid_transition, str,
  uuid, stage, job_status, document_status, Text, Error, error, ok, raise, Result,
}
use doc_mind_ai.Model.Details.{Value, num, text, Details, get_or, put, merge}
use doc_mind_ai.Model.Rows.{
  Document, Job, PreparedChunk, Db, get_job, get_document, set_job, set_document,
}
use doc_mind_ai.Repositories.Session.{Session, ◌>>=◌, ◌>>◌, pure, throw, modify}
use doc_mind_ai.Repositories.Jobs
use doc_mind_ai.Repositories.Documents
use doc_mind_ai.Repositories.Chunks

-- `Ingester.get_document`, where the rest of the message names the stage.
unfoldable pub load_document : ℕ → String → Session Document
load_document document_id stage_name db = elim (get_document document_id db) [
  | none ↦ (
    raise (
        error document_not_found (
          str "document "
          ∷ uuid document_id
          ∷ str " not found in "
          ∷ str stage_name
          ∷ str " stage"
          ∷ [])),
    db,
  )
  | some doc ↦ (ok doc, db)
]

-- `Ingester.record_attempt`: nothing where the job is missing or not running.
unfoldable pub record_attempt : ℕ → Text → ℕ → Session (Unit {0})
record_attempt job_id reason attempt db = elim (get_job job_id db) [
  | none ↦ (ok tt, db)
  | some job ↦
      if same_job_status job.status running
      then Jobs.record_attempt job_id reason attempt db
      else (ok tt, db)
]

-- The new `started_at` in `start_stage`: kept where a running job has one.
abbrev pub restamp : ℕ → JobStatus → Option ℕ → Option ℕ
restamp now running (some t) = some t
restamp now _ old = some now

-- The end of `start_stage`, with both rows loaded and tested.
unfoldable pub start_rows : ℕ → ℕ → Job → Document → Session Job
unfolding Documents.set_status
start_rows now job_id job doc =
    let job' = record job {
      status = running;
      started_at = restamp now job.status job.started_at;
    } in
    do
      modify (set_job job_id job')
      if same_document_status doc.status DocumentStatus.pending
          then Documents.set_status now job.document_id DocumentStatus.processing none
          else pure tt
      pure job'

abbrev pub is_startable : DocumentStatus → Bool
is_startable DocumentStatus.pending = true
is_startable DocumentStatus.processing = true
is_startable _ = false

unfoldable pub start_document : ℕ → ℕ → Job → Option Document → Session Job
unfolding start_rows
start_document now job_id job none = throw (error document_not_found (uuid job.document_id ∷ []))
start_document now job_id job (some doc) =
    if is_startable doc.status
    then start_rows now job_id job doc
    else throw (
        error invalid_transition (
          str "document "
          ∷ uuid job.document_id
          ∷ str " cannot start from status "
          ∷ document_status doc.status
          ∷ []))

unfoldable pub start_status : JobStatus → ℕ → ℕ → Job → Session Job
unfolding start_document
start_status JobStatus.done now job_id job db =
    throw (error job_already_done (str "job " ∷ uuid job_id ∷ str " already done" ∷ [])) db
start_status JobStatus.failed now job_id job db =
    throw (error job_already_failed (str "job " ∷ uuid job_id ∷ str " already failed" ∷ [])) db
start_status _ now job_id job db =
    start_document now job_id job (get_document job.document_id db) db

-- `stage is not None and job.stage != stage`
abbrev pub is_other_stage : Option JobStage → JobStage → Bool
is_other_stage none s = false
is_other_stage (some t) s = not (same_stage s t)

abbrev pub stage_parts : Option JobStage → Text
stage_parts none = []
stage_parts (some t) = stage t ∷ []

abbrev pub wrong_stage : ℕ → JobStage → Option JobStage → Error
wrong_stage job_id is_for asked = error invalid_transition (
    str "job "
    ∷ uuid job_id
    ∷ str " is for stage "
    ∷ stage is_for
    ∷ str ", not "
    ∷ stage_parts asked)

unfoldable pub start_stage : ℕ → ℕ → Option JobStage → Session Job
unfolding start_status
start_stage now job_id asked db = elim (get_job job_id db) [
  | none ↦ (raise (error job_not_found (uuid job_id ∷ [])), db)
  | some job ↦
      if is_other_stage asked job.stage
      then (raise (wrong_stage job_id job.stage asked), db)
      else start_status job.status now job_id job db
]

abbrev pub is_finished : JobStatus → Bool
is_finished JobStatus.done = true
is_finished JobStatus.failed = true
is_finished _ = false

unfoldable pub fail_document : ℕ → Text → Option Document → Db → Db
fail_document document_id reason none db = db
fail_document document_id reason (some doc) db =
    if is_startable doc.status
    then set_document document_id
        (record doc { status = DocumentStatus.failed; error_message = some reason }) db
    else db

-- It raises nothing.
unfoldable pub fail_stage : ℕ → ℕ → Text → Db → Db
unfolding fail_document put
fail_stage now job_id reason db = elim (get_job job_id db) [
  | none ↦ db
  | some job ↦
      if is_finished job.status
      then db
      else (let db' =
            set_job job_id
              (record job {
                status = JobStatus.failed;
                finished_at = some now;
                details = put "error" (text reason) job.details;
              })
              db in
          fail_document job.document_id reason (get_document job.document_id db') db')
]

abbrev pub pages_of : JobStage → Details → Value → Value
unfolding get_or
pages_of JobStage.extract details old = get_or "pages" old details
pages_of _ details old = old

-- The last stage marks the document indexed; any other creates the next stage's job.
unfoldable pub advance :
    ℕ → ℕ → Job → Document → Details → Option JobStage → Session (Option (ℕ × Job))
unfolding Jobs.create_enqueue get_or put pages_of
advance now new_id job doc details none = do
  modify (
      set_document job.document_id (record doc {
        page_count = pages_of job.stage details doc.page_count;
        status = DocumentStatus.indexed;
        indexed_at = some now;
        metadata = put "chunk_count" (get_or "inserted" (num 0) details) doc.metadata;
      }))
  pure none
advance now new_id job doc details (some next) = do
  modify (
      set_document job.document_id
        (record doc { page_count = pages_of job.stage details doc.page_count }))
  created ← Jobs.create_enqueue now new_id job.document_id next queued
  pure (some created)

unfoldable pub complete_document :
    ℕ → ℕ → ℕ → Job → Details → Option JobStage → Option Document → Session (Option (ℕ × Job))
unfolding advance merge
complete_document now new_id job_id job details next none =
    throw (error document_not_found (uuid job.document_id ∷ []))
complete_document now new_id job_id job details next (some doc) =
    if same_document_status doc.status DocumentStatus.processing
    then (do
      modify (
          set_job job_id (record job {
            status = done;
            finished_at = some now;
            details = merge job.details details;
          }))
      advance now new_id job doc details next)
    else throw (
        error invalid_transition (
          str "document "
          ∷ uuid job.document_id
          ∷ str " cannot complete from status "
          ∷ document_status doc.status
          ∷ []))

unfoldable pub complete_status :
    JobStatus → ℕ → ℕ → ℕ → Job → Details → Option JobStage → Session (Option (ℕ × Job))
unfolding complete_document
complete_status JobStatus.done now new_id job_id job details next db =
    throw (error job_already_done (str "job " ∷ uuid job_id ∷ str " already done" ∷ [])) db
complete_status running now new_id job_id job details next db =
    complete_document now new_id job_id job details next (get_document job.document_id db) db
complete_status other now new_id job_id job details next db =
    throw
      (error invalid_transition
        (str "job " ∷ uuid job_id ∷ str " cannot complete from status " ∷ job_status other ∷ []))
      db

unfoldable pub complete_stage : ℕ → ℕ → ℕ → Details → Option JobStage → Session (Option (ℕ × Job))
unfolding complete_status
complete_stage now new_id job_id details next db = elim (get_job job_id db) [
  | none ↦ (raise (error job_not_found (uuid job_id ∷ [])), db)
  | some job ↦ complete_status job.status now new_id job_id job details next db
]

abbrev pub with_deleted : ℕ → Result ℕ × Db → Result (ℕ × ℕ) × Db
with_deleted deleted (ok inserted, db) = (ok (deleted, inserted), db)
with_deleted deleted (raise e, db) = (raise e, db)

-- `Ingester.bulk_insert`: the counts of deleted and of inserted chunks.
unfoldable pub bulk_insert : (ℕ → ℕ) → ℕ → List PreparedChunk → Session (ℕ × ℕ)
unfolding Chunks.delete_for_document Chunks.bulk_insert
bulk_insert fresh document_id rows db =
    let (deleted, db') = Chunks.delete_for_document document_id db in
    with_deleted deleted (Chunks.bulk_insert fresh document_id rows db')
