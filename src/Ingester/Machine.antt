-- ===== src/Ingester/Machine.antt =====
-- The state machine that backend/app/rag/ingestion.py is to implement: the changes of one row that
-- are legal, and the sequences of such changes. It names no method of the code.
use doc_mind_ai.Base.{ℕ, ◌⊎◌, ◌≡◌, Option, none, some, insert}
use doc_mind_ai.Model.Enums.{
  DocumentStatus, JobStatus, queued, running, done, pending, processing, indexed,
}
use doc_mind_ai.Model.Errors.{Text}
use doc_mind_ai.Model.Details.{Value, Details}
use doc_mind_ai.Model.Rows.{Document, Job, Db, get_job, get_document, set_job, set_document}

-- A job that a worker may still take up.
abbrev pub IsActive : JobStatus → Type 0
IsActive s = (s ≡ queued) ⊎ (s ≡ running)

-- A document that the pipeline is still to finish.
abbrev pub IsOpen : DocumentStatus → Type 0
IsOpen s = (s ≡ pending) ⊎ (s ≡ processing)

pub data JobStep (old new : Job) : Type 0 where
  begin :
      (t : Option ℕ) (s : ℕ)
      → IsActive old.status
      → t ≡ some s
      → new ≡ record old { status = running; started_at = t }
      → JobStep old new
  note : (d : Details) → old.status ≡ running → new ≡ record old { details = d } → JobStep old new
  finish :
      (t : ℕ) (d : Details)
      → old.status ≡ running
      → new ≡ record old { status = done; finished_at = some t; details = d }
      → JobStep old new
  give_up :
      (t : ℕ) (d : Details)
      → IsActive old.status
      → new ≡ record old { status = JobStatus.failed; finished_at = some t; details = d }
      → JobStep old new

pub data DocumentStep (old new : Document) : Type 0 where
  process :
      old.status ≡ pending
      → new ≡ record old { status = processing; error_message = none }
      → DocumentStep old new
  reject :
      (reason : Text)
      → IsOpen old.status
      → new ≡ record old { status = DocumentStatus.failed; error_message = some reason }
      → DocumentStep old new
  count :
      (pages : Value)
      → old.status ≡ processing
      → new ≡ record old { page_count = pages }
      → DocumentStep old new
  publish :
      (t : ℕ) (pages : Value) (m : Details)
      → old.status ≡ processing
      → new ≡ record old { page_count = pages; status = indexed; indexed_at = some t; metadata = m }
      → DocumentStep old new

pub data Step (a b : Db) : Type 0 where
  job_step :
      (i : ℕ) (old new : Job)
      → get_job i a ≡ some old
      → JobStep old new
      → b ≡ set_job i new a
      → Step a b
  document_step :
      (i : ℕ) (old new : Document)
      → get_document i a ≡ some old
      → DocumentStep old new
      → b ≡ set_document i new a
      → Step a b
  enqueue :
      (i : ℕ) (job : Job) (doc : Document)
      → get_job i a ≡ none
      → get_document job.document_id a ≡ some doc
      → job.status ≡ queued
      → job.started_at ≡ none
      → job.finished_at ≡ none
      → b ≡ record a { jobs = insert i job a.jobs }
      → Step a b

pub data Steps (a : Db) : Db → Type 0 where
  here : Steps a a
  next : {b c : Db} → Steps a b → Step b c → Steps a c

pub one : {a b : Db} → Step a b → Steps a b
one s = next here s

pub Steps-trans : {a b c : Db} → Steps a b → Steps b c → Steps a c
Steps-trans p here = p
Steps-trans p (next q s) = next (Steps-trans p q) s
