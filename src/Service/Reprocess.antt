-- ===== src/Service/Reprocess.antt =====
-- What a reprocessing leaves in the rows and in the queue.
use doc_mind_ai.Base.{
  ℕ, ap, ◌≡◌, ◌≢◌, refl, sym, ◌∙◌, Option-cases, inl, inr, true, Option, none, some, String, List,
  [], ◌∷◌, ◌++◌, arith, find-insert, insert, delete_where,
}
use doc_mind_ai.Model.Enums.{pending, JobStage, extract, queued, stage_task}
use doc_mind_ai.Model.Errors.{ok}
use doc_mind_ai.Model.Details.{Value, num, put}
use doc_mind_ai.Model.Rows.{Document, Db, get_job, get_document, set_document}
use doc_mind_ai.Repositories.Jobs.{new_job, create_enqueue}
use doc_mind_ai.Repositories.Documents.{
  get_for_user, set_status, set_index_results, require_document-some, or_else,
}
use doc_mind_ai.Repositories.Chunks.{delete_for_document, is_chunk_of}
use doc_mind_ai.Ingester.Effects.{find-set_document}
use doc_mind_ai.Storage.Keys.{Config, Digest, artifact_keys_from}
use doc_mind_ai.Storage.Backend.{Objects, Backend}
use doc_mind_ai.Worker.Keeps.{IsFresh}
use doc_mind_ai.Worker.Stage.{World, Reply, accepted}
use doc_mind_ai.Service.Methods.{DocumentResponse}
use doc_mind_ai.Service.Changes.{
  reset_document, reaches_index, restart, restart_response, reprocess_hashed, reprocess,
  reprocess_request, enqueue_response, delete_stale,
}

-- The document after the reset.
abbrev pub reset_row : Document → Document
reset_row doc = record doc {
  status = pending;
  error_message = none;
  metadata = put "chunk_count" (num 0) doc.metadata;
  indexed_at = none;
  page_count = or_else doc.page_count doc.page_count;
}

abbrev pub status_row : Document → Document
status_row doc = record doc { status = pending; error_message = none }

-- The rows after the reset.
abbrev pub reset_rows : ℕ → Document → Db → Db
reset_rows d doc db = set_document d (reset_row doc) (
    set_document d (status_row doc) (record db { chunks = delete_where (is_chunk_of d) db.chunks }))

set_index_results-eq :
    (d n : ℕ) (t : Option ℕ) (pages : Value) (doc : Document) (db : Db)
    → get_document d db ≡ some doc
    → set_index_results d n t pages db ≡ (
      ok tt,
      set_document d
          (record doc {
            metadata = put "chunk_count" (num n) doc.metadata;
            indexed_at = t;
            page_count = or_else pages doc.page_count;
          })
          db,
    )
unfolding set_index_results
set_index_results-eq d n t pages doc db e = rw (e, set_index_results)

reset_document-eq :
    (now d : ℕ) (doc : Document) (db : Db)
    → get_document d db ≡ some doc
    → reset_document now d doc db ≡ (ok tt, reset_rows d doc db)
unfolding reset_document set_status delete_for_document
reset_document-eq now d doc db e =
    let chunkless : Db = record db { chunks = delete_where (is_chunk_of d) db.chunks } in
    let marked : Db = set_document d (status_row doc) chunkless in
    rw (require_document-some d chunkless doc e) (
      set_index_results-eq d 0 none doc.page_count (status_row doc) marked
        (find-set_document d (status_row doc) doc chunkless e))

reaches_index_all : (s : JobStage) → reaches_index s ≡ true
reaches_index_all s = ground arith

-- `get_for_user` finds the row of the document, and only for its owner.
pub get_for_user-some :
    (user_id d : ℕ) (db : Db) (doc : Document)
    → get_for_user user_id d db ≡ some doc
    → (get_document d db ≡ some doc) × (doc.user_id ≡ user_id)
unfolding get_for_user
get_for_user-some user_id d db doc e = elim (Option-cases (get_document d db)) [
  | inl absent ↦ absurd (ground (arith, absent))
  | inr (row, there) ↦ (ground (arith, there), ground (arith, there))
]

module _ (now : ℕ) (new_id : Db → ℕ) (d : ℕ) (doc : Document) (s : JobStage) (db : Db) where
  -- The id of the row for the stage that was asked for, and the rows committed with it.
  abbrev pub first_id : ℕ
  first_id = new_id (reset_rows d doc db)

  abbrev pub first_rows : Db
  first_rows =
      let rows = reset_rows d doc db in
      record rows { jobs = insert first_id (new_job now d s queued) rows.jobs }

  -- The id of the second row, and the rows with it.
  abbrev pub second_id : ℕ
  second_id = new_id first_rows

  abbrev pub second_rows : Db
  second_rows = record first_rows {
    jobs = insert second_id (new_job now d extract queued) first_rows.jobs;
  }

  restart-eq :
      get_document d db ≡ some doc
      → restart now new_id d doc s db ≡ (ok (first_id, new_job now d s queued), first_rows)
  unfolding restart create_enqueue
  restart-eq e = rw (reaches_index_all s) (rw (reset_document-eq now d doc db e))

  response : DocumentResponse
  response = record {
    document_id = d;
    job_id = second_id;
    mime_type = doc.mime_type;
    size_bytes = doc.size_bytes;
    current_stage = extract;
  }

  module _ (digest : Digest) (config : Config) (backend : Backend) (user_id : ℕ)
      (content_hash : String) (objects objects' : Objects) (queue : List (String × ℕ))
      (owned : get_for_user user_id d db ≡ some doc) (hashed : doc.content_hash ≡ some content_hash)
      (cleared : delete_stale backend.delete_raw
          (artifact_keys_from digest config content_hash s)
          objects
        ≡ (ok tt, objects')) where
    abbrev before : World
    before = record { db = db; storage = objects; queue = queue }

    reprocess_hashed-eq :
        reprocess_hashed digest config backend now new_id d doc s (some content_hash) before
        ≡ (ok response, record { db = first_rows; storage = objects'; queue = queue }, second_rows)
    unfolding reprocess_hashed restart_response create_enqueue response new_job
    reprocess_hashed-eq =
        let there = (get_for_user-some user_id d db doc owned).0 in
        rw (ap (λ t. t.0) cleared, reprocess_hashed)
          (rw (ap (λ t. t.1) cleared) (rw (restart-eq there, reprocess_hashed) refl))

    reprocess-eq :
        reprocess digest config backend now new_id user_id d s before
        ≡ (ok response, record { db = first_rows; storage = objects'; queue = queue }, second_rows)
    unfolding reprocess
    reprocess-eq =
        rw (owned, reprocess)
          (ap (λ h. reprocess_hashed digest config backend now new_id d doc s h before) hashed
            ∙ reprocess_hashed-eq)

    module _ (fresh : IsFresh new_id) (redis : World → ℕ → Reply)
        (accepts : redis (record { db = first_rows; storage = objects'; queue = queue }) second_id
          ≡ accepted) where
      reprocess_request-eq :
          reprocess_request digest config backend redis now new_id user_id d s before ≡ (
            ok tt,
            record {
              db = second_rows;
              storage = objects';
              queue = queue ++ ("process_extract", second_id) ∷ [];
            },
          )
      unfolding reprocess_request enqueue_response response stage_task
      reprocess_request-eq =
          rw (reprocess-eq, reprocess_request) (rw (accepts, enqueue_response) refl)

      first-there : get_job first_id first_rows ≡ some (new_job now d s queued)
      first-there = ground (
        arith,
        find-insert first_id first_id (new_job now d s queued) db.jobs
            (fresh (reset_rows d doc db)),
      )

      distinct : first_id ≢ second_id
      distinct same =
          let clash : some (new_job now d s queued) ≡ none =
            sym first-there ∙ ap (λ i. get_job i first_rows) same ∙ fresh first_rows in
          absurd (ground (arith, clash))

      -- A reprocess request by the owner of a document with a content hash, where the stale
      -- artifacts can be deleted, new ids are not in use and redis accepts, leaves two QUEUED jobs
      -- of the document, one for the requested stage and one for extract, and only the extract job
      -- has its task in the queue.
      pub reprocess_request-two_jobs :
          let w = (reprocess_request digest config backend redis now new_id user_id d s before).1 in
          (w.queue ≡ queue ++ ("process_extract", second_id) ∷ [])
          × (get_job first_id w.db ≡ some (new_job now d s queued))
          × (get_job second_id w.db ≡ some (new_job now d extract queued))
          × (first_id ≢ second_id)
      reprocess_request-two_jobs = rw reprocess_request-eq (
        refl,
        ground (
          arith,
          find-insert second_id first_id (new_job now d extract queued) first_rows.jobs
              (fresh first_rows),
          first-there,
          distinct,
        ),
        ground (
          arith,
          find-insert second_id second_id (new_job now d extract queued) first_rows.jobs
              (fresh first_rows),
        ),
        distinct,
      )
