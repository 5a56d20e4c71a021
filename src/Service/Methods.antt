-- ===== src/Service/Methods.antt =====
-- backend/app/services/document_service.py, and the upload and reprocess handlers of
-- backend/app/api/v1/documents.py that enqueue what it returns.
use doc_mind_ai.Base.{
  ℕ, suc, ◌-◌, ◌*◌, ◌/◌, String, Bool, true, false, Option, none, some, List, [], ◌∷◌, insert,
  if◌then◌else◌, leb, length,
}
use doc_mind_ai.Model.Enums.{
  DocumentStatus, JobStage, extract, JobStatus, queued, running, done, stage_order, same_job_status,
  same_document_status,
}
use doc_mind_ai.Model.Errors.{value_error, runtime_error, str, Text, error, Result, ok, raise}
use doc_mind_ai.Model.Details.{Value, null, num, get_or}
use doc_mind_ai.Model.Rows.{Document, Job, Db}
use doc_mind_ai.Repositories.Session.{Session, and_then}
use doc_mind_ai.Storage.Backend.{StoredObject}
use doc_mind_ai.Repositories.Jobs.{create_enqueue, latest_by_document, latest_by_stage}
use doc_mind_ai.Repositories.Documents.{get_for_user, find_by_content_hash}

-- `StageStates`. A duration is `finished_at - started_at`, which may be negative.
pub data Duration : Type 0 where
  forward backward : ℕ → Duration

pub record StageState : Type 0 where
  pub stage : JobStage
  pub status : JobStatus
  pub started_at : Option ℕ
  pub finished_at : Option ℕ
  pub duration_ms : Option Duration

unfoldable pub first_with : (JobStatus → Bool) → List StageState → Option JobStage
first_with p [] = none
first_with p (s ∷ rest) = if p s.status then some s.stage else first_with p rest

abbrev pub is_running : JobStatus → Bool
is_running s = same_job_status s running

abbrev pub is_not_done : JobStatus → Bool
is_not_done done = false
is_not_done _ = true

abbrev pub or_first : Option JobStage → Option JobStage → Option JobStage
or_first none later = later
or_first (some s) later = some s

-- `status in (DocumentStatus.FAILED)` looks for the status' text in the text "failed"; of the
-- four statuses only that one is part of it.
unfoldable pub current_stage : DocumentStatus → List StageState → Option JobStage
unfolding first_with
current_stage status stages =
    if same_document_status status DocumentStatus.failed
    then none
    else or_first (first_with is_running stages) (first_with is_not_done stages)

pub record DocumentResponse : Type 0 where
  pub document_id : ℕ
  pub job_id : ℕ
  pub mime_type : String
  pub size_bytes : ℕ
  pub current_stage : JobStage

unfoldable pub new_document : ℕ → ℕ → StoredObject → Document
new_document now user_id stored = record {
  user_id = user_id;
  status = DocumentStatus.pending;
  filename = stored.filename;
  mime_type = stored.mime_type;
  doc_type = none;
  storage_key = some stored.key;
  content_hash = some stored.content_hash;
  size_bytes = stored.size_bytes;
  page_count = null;
  current_version = 1;
  parsed_key = none;
  error_message = none;
  metadata = [];
  indexed_at = none;
  created_at = now;
}

unfoldable pub existing_document : StoredObject → ℕ → Option (ℕ × Job) → Session DocumentResponse
existing_document stored document_id none db =
    (raise (error runtime_error (str "No active exception to reraise" ∷ [])), db)
existing_document stored document_id (some (job_id, job)) db = (
  ok (record {
    document_id = document_id;
    job_id = job_id;
    mime_type = stored.mime_type;
    size_bytes = stored.size_bytes;
    current_stage = job.stage;
  }),
  db,
)

abbrev respond : ℕ → String → ℕ → ℕ × Job → Session DocumentResponse
respond document_id mime_type size_bytes (job_id, job) db = (
  ok (record {
    document_id = document_id;
    job_id = job_id;
    mime_type = mime_type;
    size_bytes = size_bytes;
    current_stage = job.stage;
  }),
  db,
)

-- The ids of the new rows, of the document and of the job, are arguments.
unfoldable pub created_document : ℕ → ℕ → ℕ → ℕ → StoredObject → Session DocumentResponse
unfolding new_document create_enqueue
created_document now new_document_id new_job_id user_id stored db =
    let db' = record db {
      documents = insert new_document_id (new_document now user_id stored) db.documents;
    } in
    let (r, db'') = create_enqueue now new_job_id new_document_id extract queued db' in
    and_then r (respond new_document_id stored.mime_type stored.size_bytes) db''

unfoldable pub found_document :
    ℕ → ℕ → ℕ → ℕ → StoredObject → Option (ℕ × Document) → Session DocumentResponse
unfolding existing_document created_document
found_document now new_document_id new_job_id user_id stored none db =
    created_document now new_document_id new_job_id user_id stored db
found_document now new_document_id new_job_id user_id stored (some (document_id, doc)) db =
    existing_document stored document_id (latest_by_document document_id db) db

unfoldable pub get_or_create : ℕ → ℕ → ℕ → ℕ → StoredObject → Session DocumentResponse
unfolding found_document
get_or_create now new_document_id new_job_id user_id stored db =
    found_document now new_document_id new_job_id user_id stored
      (find_by_content_hash user_id stored.content_hash db) db

abbrev difference : Option ℕ → Option ℕ → Option Duration
difference (some s) (some f) =
    some (if leb s f then forward ((f - s) * 1000) else backward ((s - f) * 1000))
difference _ _ = none

abbrev pub stage_state : JobStage → Option (ℕ × Job) → StageState
stage_state stage none = record {
  stage = stage;
  status = queued;
  started_at = none;
  finished_at = none;
  duration_ms = none;
}
stage_state stage (some (i, job)) = record {
  stage = job.stage;
  status = job.status;
  started_at = job.started_at;
  finished_at = job.finished_at;
  duration_ms = difference job.started_at job.finished_at;
}

unfoldable pub stage_states : (JobStage → Option (ℕ × Job)) → List JobStage → List StageState
stage_states latest [] = []
stage_states latest (s ∷ rest) = stage_state s (latest s) ∷ stage_states latest rest

unfoldable pub count_done : List StageState → ℕ
count_done [] = 0
count_done (s ∷ rest) =
    let n = count_done rest in if same_job_status s.status done then suc n else n

-- `progress` in hundredths; `round(n / 5, 2)` is exact.
pub record StateResponse : Type 0 where
  pub document_id : ℕ
  pub status : DocumentStatus
  pub progress : ℕ
  pub stages : List StageState
  pub current_stage : Option JobStage
  pub error_message : Option Text
  pub chunk_count : Value
  pub page_count : Value
  pub indexed_at : Option ℕ
  pub created_at : ℕ

unfoldable pub state_response : ℕ → Document → Db → StateResponse
unfolding stage_states count_done get_or
state_response document_id doc db =
    let stages = stage_states (latest_by_stage document_id db) stage_order in
    record {
      document_id = document_id;
      status = doc.status;
      progress = count_done stages * 100 / length stage_order;
      stages = stages;
      current_stage = current_stage doc.status stages;
      error_message = doc.error_message;
      chunk_count = get_or "chunk_count" (num 0) doc.metadata;
      page_count = doc.page_count;
      indexed_at = doc.indexed_at;
      created_at = doc.created_at;
    }

unfoldable pub get_document_state : ℕ → ℕ → Db → Result StateResponse
unfolding state_response
get_document_state user_id document_id db = elim (get_for_user user_id document_id db) [
  | none ↦ raise (error value_error (str "document not found" ∷ []))
  | some doc ↦ ok (state_response document_id doc db)
]
