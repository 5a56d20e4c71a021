-- ===== src/Service/Changes.antt =====
-- backend/app/services/document_service.py: deleting and reprocessing a document, and the upload
-- and reprocess handlers of backend/app/api/v1/documents.py, which enqueue the returned job.
use package.text.Mathlib.Text.{◌==◌ as str_eq}
use doc_mind_ai.Base.{
  ℕ, String, Bool, true, false, Option, none, some, List, [], ◌∷◌, ◌++◌, delete_where, delete_key,
  if◌then◌else◌, ◌==◌, leb,
}
use doc_mind_ai.Model.Enums.{DocumentStatus, JobStage, extract, index, queued, stage_task}
use doc_mind_ai.Model.Errors.{
  ErrorClass, document_not_found, object_not_found, str, error, Result, ok, raise,
}
use doc_mind_ai.Model.Rows.{Document, Job, Db}
use doc_mind_ai.Repositories.Session.{Session, ◌>>=◌, ◌>>◌, pure, modify, and_then}
use doc_mind_ai.Repositories.Jobs.{create_enqueue}
use doc_mind_ai.Repositories.Documents.{get_for_user, set_status, set_index_results}
use doc_mind_ai.Repositories.Chunks.{delete_for_document}
use doc_mind_ai.Storage.Keys.{Config, Digest, order_index, artifact_keys_from, all_artifact_keys}
use doc_mind_ai.Storage.Backend.{Objects, Backend}
use doc_mind_ai.Worker.Stage.{World, is_cancelled, Reply, accepted, duplicate, fails}
use doc_mind_ai.Storage.Backend.{StoredObject}
use doc_mind_ai.Service.Methods.{DocumentResponse, get_or_create}

-- Deleting a row with what refers to it: the jobs by the ORM's cascade, the chunks by the
-- foreign key.
unfoldable pub delete_document : ℕ → Db → Db
unfolding delete_key delete_where
delete_document document_id db = record {
  documents = delete_key document_id db.documents;
  jobs = delete_where (λ job. job.document_id == document_id) db.jobs;
  chunks = delete_where (λ c. c.document_id == document_id) db.chunks;
}

-- Best effort: an exception of a delete is dropped, but not a cancellation.
unfoldable pub delete_all :
    (String → Objects → Result (Unit {0}) × Objects)
    → List String
    → Objects
    → Result (Unit {0}) × Objects
delete_all delete [] objects = (ok tt, objects)
delete_all delete (key ∷ rest) objects =
    let (r, objects') = delete key objects in
    let continued = delete_all delete rest objects' in
    elim r [
      | ok _ ↦ continued
      | raise e ↦ if is_cancelled e.class then (raise e, objects') else continued
    ]

-- `if value:` for a text that may be missing: the empty text counts as missing.
abbrev pub truthy : Option String → Option String
truthy none = none
truthy (some value) = if str_eq value "" then none else some value

abbrev pub key_list : Option String → List String
key_list none = []
key_list (some key) = key ∷ []

-- `with contextlib.suppress(ObjectNotFound): await storage.delete_raw(key)`, for each key.
abbrev is_object_not_found : ErrorClass → Bool
is_object_not_found object_not_found = true
is_object_not_found _ = false

unfoldable pub delete_stale :
    (String → Objects → Result (Unit {0}) × Objects)
    → List String
    → Objects
    → Result (Unit {0}) × Objects
delete_stale delete [] objects = (ok tt, objects)
delete_stale delete (key ∷ rest) objects =
    let (r, objects') = delete key objects in
    let continued = delete_stale delete rest objects' in
    elim r [
      | ok _ ↦ continued
      | raise e ↦ if is_object_not_found e.class then continued else (raise e, objects')
    ]

abbrev respond : ℕ → Document → ℕ × Job → Session DocumentResponse
respond document_id doc (job_id, job) = pure (record {
  document_id = document_id;
  job_id = job_id;
  mime_type = doc.mime_type;
  size_bytes = doc.size_bytes;
  current_stage = job.stage;
})

-- `stage_idx <= _STAGE_ORDER_VALUES.index("index")`
abbrev pub reaches_index : JobStage → Bool
reaches_index stage = leb (order_index stage) (order_index index)

unfoldable pub reset_document : ℕ → ℕ → Document → Session (Unit {0})
unfolding delete_for_document set_status set_index_results
reset_document now document_id doc = do
  modify (λ db. (delete_for_document document_id db).1)
  set_status now document_id DocumentStatus.pending none
  set_index_results document_id 0 none doc.page_count

abbrev create_fresh : ℕ → (Db → ℕ) → ℕ → JobStage → Session (ℕ × Job)
create_fresh now new_id document_id stage db =
    create_enqueue now (new_id db) document_id stage queued db

-- The rows of `reprocess` up to its last commit.
unfoldable pub restart : ℕ → (Db → ℕ) → ℕ → Document → JobStage → Session (ℕ × Job)
unfolding reset_document create_enqueue
restart now new_id document_id doc from_stage = do
  if reaches_index from_stage then reset_document now document_id doc else pure tt
  create_fresh now new_id document_id from_stage

-- What follows: one more row, which the request's session commits at the end of the request.
unfoldable pub restart_response : ℕ → (Db → ℕ) → ℕ → Document → Session DocumentResponse
unfolding create_enqueue
restart_response now new_id document_id doc = do
  job ← create_fresh now new_id document_id extract
  respond document_id doc job

abbrev pub queue_task : Reply → String → ℕ → World → Result (Unit {0}) × World
queue_task accepted task job_id w = (ok tt, record w { queue = w.queue ++ (task, job_id) ∷ [] })
queue_task duplicate task job_id w = (ok tt, w)
queue_task (fails e) task job_id w = (raise e, w)

-- `arg_pool.enqueue_job(function=task, …)` for the stage of the response.
unfoldable pub enqueue_response :
    (World → ℕ → Reply) → Result DocumentResponse → World → Result (Unit {0}) × World
enqueue_response redis (raise e) w = (raise e, w)
enqueue_response redis (ok res) w = elim (stage_task res.current_stage) [
  | none ↦ (ok tt, w)
  | some task ↦ queue_task (redis w res.job_id) task res.job_id w
]

-- `get_db`: the session's rows `view` are committed when the handler has returned, and rolled
-- back when it has raised. Until then others see the world without them.
abbrev pub end_request : Result (Unit {0}) → Db → World → Result (Unit {0}) × World
end_request (ok _) view w = (ok tt, record w { db = view })
end_request (raise e) view w = (raise e, w)

-- The upload handler, once the stream is stored: the task is enqueued before the commit.
unfoldable pub upload :
    (World → ℕ → Reply) → ℕ → ℕ → ℕ → ℕ → StoredObject → World → Result (Unit {0}) × World
unfolding enqueue_response
upload redis now new_document_id new_job_id user_id stored w =
    let (r, view) = get_or_create now new_document_id new_job_id user_id stored w.db in
    let (q, w') = enqueue_response redis r w in end_request q view w'

abbrev pub deleted_flag : Result (Unit {0}) → Result Bool
deleted_flag (ok _) = ok true
deleted_flag (raise e) = raise e

module _ (digest : Digest) (config : Config) (backend : Backend) where
  abbrev pub artifacts_of : Option String → List String
  artifacts_of none = []
  artifacts_of (some content_hash) = all_artifact_keys digest config content_hash

  abbrev pub artifacts_deleted :
      Option String → Result (Unit {0}) × Objects → Result (Unit {0}) × Objects
  unfolding delete_all
  artifacts_deleted content_hash (ok _, objects) =
      delete_all backend.delete_raw (artifacts_of (truthy content_hash)) objects
  artifacts_deleted content_hash (raise e, objects) = (raise e, objects)

  -- The source file, then the artifacts.
  unfoldable pub clean_up : Document → Objects → Result (Unit {0}) × Objects
  unfolding delete_all artifacts_deleted
  clean_up doc objects =
      artifacts_deleted doc.content_hash
        (delete_all backend.delete (key_list (truthy doc.storage_key)) objects)

  -- The rows are committed before the storage is touched.
  unfoldable pub delete_user_document : ℕ → ℕ → World → Result Bool × World
  unfolding delete_document clean_up
  delete_user_document user_id document_id w = elim (get_for_user user_id document_id w.db) [
    | none ↦ (ok false, w)
    | some doc ↦
        let (r, objects) = clean_up doc w.storage in
        (deleted_flag r, record w { db = delete_document document_id w.db; storage = objects })
  ]

  -- The result, the world after the last commit, and the session's rows.
  unfoldable pub reprocess_hashed :
      ℕ
      → (Db → ℕ)
      → ℕ
      → Document
      → JobStage
      → Option String
      → World
      → Result DocumentResponse × World × Db
  unfolding delete_stale restart restart_response
  reprocess_hashed now new_id document_id doc from_stage none w =
      (raise (error document_not_found (str "document not found" ∷ [])), w, w.db)
  reprocess_hashed now new_id document_id doc from_stage (some content_hash) w =
      let (r, objects) =
        delete_stale backend.delete_raw (artifact_keys_from digest config content_hash from_stage)
          w.storage in
      elim r [
        | raise e ↦ (raise e, record w { storage = objects }, w.db)
        | ok _ ↦
            let (first, db') = restart now new_id document_id doc from_stage w.db in
            let (response, view) =
              and_then first (λ _. restart_response now new_id document_id doc) db' in
            (response, record w { db = db'; storage = objects }, view)
      ]

  unfoldable pub reprocess :
      ℕ → (Db → ℕ) → ℕ → ℕ → JobStage → World → Result DocumentResponse × World × Db
  unfolding reprocess_hashed
  reprocess now new_id user_id document_id from_stage w =
      elim (get_for_user user_id document_id w.db) [
        | none ↦ (raise (error document_not_found (str "document not found" ∷ [])), w, w.db)
        | some doc ↦ reprocess_hashed now new_id document_id doc from_stage doc.content_hash w
      ]

  -- The reprocess handler.
  unfoldable pub reprocess_request :
      (World → ℕ → Reply) → ℕ → (Db → ℕ) → ℕ → ℕ → JobStage → World → Result (Unit {0}) × World
  unfolding enqueue_response
  reprocess_request redis now new_id user_id document_id from_stage w =
      let (r, w', view) = reprocess now new_id user_id document_id from_stage w in
      let (q, w'') = enqueue_response redis r w' in end_request q view w''
