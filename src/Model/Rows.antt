-- ===== src/Model/Rows.antt =====
-- backend/app/models: the tables `documents`, `processing_jobs` and `document_chunks`.
-- A UUID is a number, an instant a number of seconds, a float the number of its bit pattern. `updated_at`, which the database keeps
-- by itself, and the ORM relationships are left out.
use doc_mind_ai.Base.{ℕ, String, Option, List, Table, find, update}
use doc_mind_ai.Model.Enums.{DocumentStatus, JobStage, JobStatus}
use doc_mind_ai.Model.Errors.{Text}
use doc_mind_ai.Model.Details.{Value, Details}

pub record Document : Type 0 where
  pub user_id : ℕ
  pub status : DocumentStatus
  pub filename : String
  pub mime_type : String
  pub doc_type : Option String
  pub storage_key : Option String
  pub content_hash : Option String
  pub size_bytes : ℕ
  pub page_count : Value
  pub current_version : ℕ
  pub parsed_key : Option String
  pub error_message : Option Text
  pub metadata : Details
  pub indexed_at : Option ℕ
  pub created_at : ℕ

pub record Job : Type 0 where
  pub document_id : ℕ
  pub stage : JobStage
  pub status : JobStatus
  pub started_at : Option ℕ
  pub finished_at : Option ℕ
  pub details : Details
  pub version : ℕ
  pub created_at : ℕ

pub record Chunk : Type 0 where
  pub document_id : ℕ
  pub chunk_index : ℕ
  pub text : String
  pub page_number : Option ℕ
  pub section : Option String
  pub token_count : ℕ
  pub doc_item_labels : List String
  pub embedding : Option (List ℕ)

-- `PreparedChunk` of backend/app/rag/chunk/types.py
pub record PreparedChunk : Type 0 where
  pub chunk_index : ℕ
  pub text : String
  pub token_count : ℕ
  pub page_number : Option ℕ
  pub doc_item_labels : List String
  pub section : Option String
  pub embedding : Option (List ℕ)

pub record Db : Type 0 where
  pub documents : Table Document
  pub jobs : Table Job
  pub chunks : Table Chunk

-- `get_by_id`
abbrev pub get_job : ℕ → Db → Option Job
get_job i db = find i db.jobs

abbrev pub get_document : ℕ → Db → Option Document
get_document i db = find i db.documents

-- The effect of assigning to attributes of a loaded row.
abbrev pub set_job : ℕ → Job → Db → Db
set_job i job db = record db { jobs = update i job db.jobs }

abbrev pub set_document : ℕ → Document → Db → Db
set_document i doc db = record db { documents = update i doc db.documents }
