-- ===== src/Stages/Bodies.antt =====
-- backend/app/workers/tasks.py: the bodies of the five stages, and the tasks that run them.
use doc_mind_ai.Base.{
  ℕ, String, Bool, true, false, Option, none, some, List, [], ◌∷◌, if◌then◌else◌, ◌==◌, length,
}
use doc_mind_ai.Model.Enums.{JobStage, extract, clean, chunk, embed, index}
use doc_mind_ai.Model.Errors.{
  permanent_error, other, type_error, str, number, error, Result, ok, raise,
}
use doc_mind_ai.Model.Details.{num, flag, string, Details, merge}
use doc_mind_ai.Model.Rows.{PreparedChunk, Document}
use doc_mind_ai.Repositories.Documents
use doc_mind_ai.Ingester.Methods.{load_document, bulk_insert}
use doc_mind_ai.Storage.Keys.{Config, Digest, cache_key}
use doc_mind_ai.Storage.Backend.{Objects}
use doc_mind_ai.Worker.Stage.{World, StageFn, Env, run_stage}
use doc_mind_ai.Stages.Task.{Task, ◌>>=◌, ◌>>◌, pure, throw, call, session, read, write}
use doc_mind_ai.Stages.Artifacts.{Store, RowCodec, save_rows, load_rows}

-- What the stages call of docling, and of the code around it and around the embedder.
pub record Tools (Parsed : Type 0) : Type 0 where
  pub dump : Parsed → List ℕ  -- `gzip.compress(doc.model_dump_json().encode())`
  pub validate : List ℕ → Result Parsed  -- `model_validate_json(gzip.decompress(payload))`
  pub page_count : Parsed → ℕ
  pub text_count : Parsed → ℕ
  pub table_count : Parsed → ℕ
  pub extract_document : List ℕ → Result Parsed
  pub clean_document : Parsed → Result (Parsed × Details)
  pub chunk_document : Parsed → Result (List PreparedChunk)
  pub embed_rows : List PreparedChunk → Result (List PreparedChunk)
  pub codec : RowCodec

-- A hash that is missing is written `None` in a key.
abbrev pub hash_text : Option String → String
hash_text none = "None"
hash_text (some h) = h

abbrev pub lookup_source : Store → Option String → Objects → Result (List ℕ)
lookup_source store none o =
    raise (error type_error (str "expected string or bytes-like object" ∷ []))
lookup_source store (some key) o = store.materialize key o

-- `if not rows: raise PermanentError(...)`
abbrev pub require_rows : String → List PreparedChunk → Task (Unit {0})
require_rows message [] = throw (error permanent_error (str message ∷ []))
require_rows message (r ∷ rows) = pure tt

-- The dimension of the first row, and 0 where it has no vector.
abbrev pub vector_length : Option (List ℕ) → ℕ
vector_length none = 0
vector_length (some v) = length v

abbrev pub first_dimension : List PreparedChunk → Result ℕ
first_dimension [] = raise (error other (str "list index out of range" ∷ []))
first_dimension (r ∷ rows) = ok (vector_length r.embedding)

abbrev pub check_vector : ℕ → ℕ → Option (List ℕ) → Result (Unit {0}) → Result (Unit {0})
check_vector expected i none later = raise (
    error permanent_error
      (str "chunk " ∷ number i ∷ str " has no embedding — embed stage did not run" ∷ []))
check_vector expected i (some v) later =
    if length v == expected
    then later
    else raise (
        error permanent_error (
          str "chunk "
          ∷ number i
          ∷ str " has "
          ∷ number (length v)
          ∷ str " dims, expected "
          ∷ number expected
          ∷ []))

-- The loop of `do_index`.
unfoldable pub check_rows : ℕ → List PreparedChunk → Result (Unit {0})
check_rows expected [] = ok tt
check_rows expected (r ∷ rows) =
    check_vector expected r.chunk_index r.embedding (check_rows expected rows)

module _ {Parsed : Type 0} (digest : Digest) (config : Config) (store : Store)
    (tools : Tools Parsed) where
  unfoldable pub save_parsed_document : Parsed → String → Task (Unit {0})
  save_parsed_document doc key = write (store.put_bytes key (tools.dump doc))

  unfoldable pub load_parsed_document : String → Task Parsed
  load_parsed_document key = do payload ← read (store.get_bytes key); call (tools.validate payload)

  unfoldable pub docling_stats : Parsed → Details
  docling_stats doc =
      ("pages", num (tools.page_count doc))
      ∷ ("text_items", num (tools.text_count doc))
      ∷ ("tables", num (tools.table_count doc))
      ∷ []

  abbrev pub extracted : String → Bool → Parsed → Details
  extracted key cached doc =
      ("parsed_key", string key) ∷ ("cached", flag cached) ∷ docling_stats doc

  abbrev pub key_of : JobStage → Document → String
  key_of stage doc = cache_key digest config (hash_text doc.content_hash) stage

  abbrev pub extract_cached : ℕ → String → Task Details
  extract_cached document_id key = do
    session (Documents.set_parsed_key document_id key)
    dl_doc ← load_parsed_document key
    pure (extracted key true dl_doc)

  abbrev pub extract_new : ℕ → Option String → String → Task Details
  extract_new document_id storage_key key = do
    source ← read (lookup_source store storage_key)
    dl_doc ← call (tools.extract_document source)
    save_parsed_document dl_doc key
    session (Documents.set_parsed_key document_id key)
    pure (extracted key false dl_doc)

  unfoldable pub do_extract : StageFn
  unfolding save_parsed_document load_parsed_document docling_stats
  do_extract document_id = do
    document ← session (load_document document_id "extract")
    hit ← read (store.exists (key_of extract document))
    if hit
        then extract_cached document_id (key_of extract document)
        else extract_new document_id document.storage_key (key_of extract document)

  abbrev pub clean_new : Option String → String → Task Details
  clean_new none key =
      throw (error permanent_error (str "parsed_key missing; extract stage did not run" ∷ []))
  clean_new (some parsed_key) key = do
    dl_doc ← load_parsed_document parsed_key
    cleaned ← call (tools.clean_document dl_doc)
    save_parsed_document (cleaned.0) key
    pure (merge (("parsed_key", string key) ∷ ("cached", flag false) ∷ []) (cleaned.1))

  unfoldable pub do_clean : StageFn
  unfolding save_parsed_document load_parsed_document
  do_clean document_id = do
    document ← session (load_document document_id "clean")
    hit ← read (store.exists (key_of clean document))
    if hit
        then pure (("parsed_key", string (key_of clean document)) ∷ ("cached", flag true) ∷ [])
        else clean_new document.parsed_key (key_of clean document)

  unfoldable pub do_chunk : StageFn
  unfolding load_parsed_document save_rows
  do_chunk document_id = do
    document ← session (load_document document_id "chunk")
    dl_doc ← load_parsed_document (key_of clean document)
    chunk_list ← call (tools.chunk_document dl_doc)
    save_rows store tools.codec (key_of chunk document) chunk_list
    pure (
        ("chunk_count", num (length chunk_list))
        ∷ ("chunks_key", string (key_of chunk document))
        ∷ [])

  unfoldable pub do_embed : StageFn
  unfolding load_rows save_rows
  do_embed document_id = do
    document ← session (load_document document_id "embed")
    chunk_list ← load_rows store tools.codec (key_of chunk document)
    require_rows "no chunks to embed" chunk_list
    rows ← call (tools.embed_rows chunk_list)
    dimension ← call (first_dimension rows)
    save_rows store tools.codec (key_of embed document) rows
    pure (
        ("chunk_count", num (length rows))
        ∷ ("dimension", num dimension)
        ∷ ("embedded_chunks_key", string (key_of embed document))
        ∷ [])

  -- `fresh` gives the ids of the new rows.
  unfoldable pub do_index : (ℕ → ℕ) → ℕ → StageFn
  unfolding load_rows check_rows bulk_insert
  do_index fresh expected document_id = do
    document ← session (load_document document_id "index")
    rows ← load_rows store tools.codec (key_of embed document)
    require_rows "no chunks to index" rows
    call (check_rows expected rows)
    counts ← session (bulk_insert fresh document_id rows)
    pure (("inserted", num (counts.1)) ∷ ("replaced", num (counts.0)) ∷ [])

  -- The five tasks.
  unfoldable pub body_of : (ℕ → ℕ) → ℕ → JobStage → StageFn
  unfolding do_extract do_clean do_chunk do_embed do_index
  body_of fresh expected extract = do_extract
  body_of fresh expected clean = do_clean
  body_of fresh expected chunk = do_chunk
  body_of fresh expected embed = do_embed
  body_of fresh expected index = do_index fresh expected

  unfoldable pub process : (ℕ → ℕ) → ℕ → Env → JobStage → ℕ → World → Result (Unit {0}) × World
  unfolding body_of
  process fresh expected env stage job_id =
      run_stage env job_id stage (body_of fresh expected stage)
