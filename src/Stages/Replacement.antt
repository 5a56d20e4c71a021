-- ===== src/Stages/Replacement.antt =====
-- What `Ingester.bulk_insert` of backend/app/rag/ingestion.py does to the chunks.
use mathlib.Core.List.{append-nil}
use doc_mind_ai.Base.{
  ℕ, ◌≡◌, refl, ap, ◌∙◌, false, not, ◌||◌, Table, List, [], ◌∷◌, ◌++◌, length, any, ◌==◌, ==_refl,
  rows_where, rows_where-append, rows_where-delete_where, delete_where,
}
use doc_mind_ai.Model.Errors.{ok}
use doc_mind_ai.Model.Rows.{Chunk, PreparedChunk, Db}
use doc_mind_ai.Repositories.Chunks.{
  is_chunk_of, has_repeat, has_conflict, stored, payload, delete_for_document, count_for_document,
}
use doc_mind_ai.Repositories.Chunks
use doc_mind_ai.Ingester.Methods.{with_deleted, bulk_insert}

payload-all :
    (fresh : ℕ → ℕ) (d : ℕ) (rows : List PreparedChunk)
    → (rows_where (is_chunk_of d) (payload fresh d rows) ≡ payload fresh d rows)
      × (rows_where (λ c. not (is_chunk_of d c)) (payload fresh d rows) ≡ [])
unfolding payload
payload-all fresh d [] = (refl, refl)
payload-all fresh d (r ∷ rows) = rw ==_refl (
  ap (◌∷◌ (fresh r.chunk_index, stored d r)) (payload-all fresh d rows).0,
  (payload-all fresh d rows).1,
)

none_taken : (rows : List PreparedChunk) → any (λ r. false) rows ≡ false
none_taken [] = refl
none_taken (r ∷ rows) = none_taken rows

no_conflict :
    (d : ℕ) (t : Table Chunk) (rows : List PreparedChunk)
    → rows_where (is_chunk_of d) t ≡ []
    → has_repeat rows ≡ false
    → has_conflict d t rows ≡ false
no_conflict d t rows gone single =
    ap
      (λ (l : Table Chunk).
        has_repeat rows || any (λ r. any (λ row. row.1.chunk_index == r.chunk_index) l) rows)
      gone
    ∙ rw single (none_taken rows)

inserted-free :
    (fresh : ℕ → ℕ) (d : ℕ) (rows : List PreparedChunk) (db : Db)
    → has_conflict d db.chunks rows ≡ false
    → Chunks.bulk_insert fresh d rows db
      ≡ (ok (length rows), record db { chunks = db.chunks ++ payload fresh d rows })
unfolding Chunks.bulk_insert
inserted-free fresh d rows db free = rw free refl

bulk_insert-run :
    (fresh : ℕ → ℕ) (d : ℕ) (rows : List PreparedChunk) (db : Db)
    → has_repeat rows ≡ false
    → bulk_insert fresh d rows db ≡ (
      ok (count_for_document d db, length rows),
      record db { chunks = delete_where (is_chunk_of d) db.chunks ++ payload fresh d rows },
    )
unfolding bulk_insert delete_for_document count_for_document
bulk_insert-run fresh d rows db single =
    let left = delete_where (is_chunk_of d) db.chunks in
    let gone = (rows_where-delete_where (is_chunk_of d) db.chunks).0 in
    ap (with_deleted (count_for_document d db)) (
      inserted-free fresh d rows (record db { chunks = left })
        (no_conflict d left rows gone single))

-- The chunks after the replacement.
pub bulk_insert-rows :
    (fresh : ℕ → ℕ) (d : ℕ) (rows : List PreparedChunk) (db : Db)
    → has_repeat rows ≡ false
    → let (r, db') = bulk_insert fresh d rows db in
      (r ≡ ok (count_for_document d db, length rows))
      × (rows_where (is_chunk_of d) db'.chunks ≡ payload fresh d rows)
      × (rows_where (λ c. not (is_chunk_of d c)) db'.chunks
          ≡ rows_where (λ c. not (is_chunk_of d c)) db.chunks)
      × (db'.documents ≡ db.documents)
      × (db'.jobs ≡ db.jobs)
bulk_insert-rows fresh d rows db single =
    let (gone, others) = rows_where-delete_where (is_chunk_of d) db.chunks in
    let (mine, none_else) = payload-all fresh d rows in
    let left = delete_where (is_chunk_of d) db.chunks in
    rw (bulk_insert-run fresh d rows db single) (
      refl,
      rows_where-append (is_chunk_of d) left (payload fresh d rows) ∙ rw gone mine,
      rows_where-append (λ c. not (is_chunk_of d c)) left (payload fresh d rows)
          ∙ rw none_else (append-nil _ ∙ others),
      refl,
      refl,
    )
