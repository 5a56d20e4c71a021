-- ===== src/Repositories/Chunks.antt =====
-- backend/app/db/repositories/chunks.py. The UUIDs of the new rows are an argument.
use doc_mind_ai.Base.{
  ℕ, suc, Bool, false, ◌||◌, any, rows_where, List, [], ◌∷◌, ◌++◌, Table, delete_where, length,
  if◌then◌else◌, ◌==◌,
}
use doc_mind_ai.Model.Errors.{error, integrity_error, ok, raise}
use doc_mind_ai.Repositories.Session.{Session}
use doc_mind_ai.Model.Rows.{Chunk, PreparedChunk, Db}

unfoldable pub count_where : (Chunk → Bool) → Table Chunk → ℕ
count_where p [] = 0
count_where p ((i, c) ∷ t) = let rest = count_where p t in if p c then suc rest else rest

abbrev pub is_chunk_of : ℕ → Chunk → Bool
is_chunk_of document_id c = c.document_id == document_id

unfoldable pub delete_for_document : ℕ → Db → ℕ × Db
unfolding count_where delete_where
delete_for_document document_id db = (
  count_where (is_chunk_of document_id) db.chunks,
  record db { chunks = delete_where (is_chunk_of document_id) db.chunks },
)

unfoldable pub count_for_document : ℕ → Db → ℕ
unfolding count_where
count_for_document document_id db = count_where (is_chunk_of document_id) db.chunks

abbrev pub stored : ℕ → PreparedChunk → Chunk
stored document_id r = record {
  document_id = document_id;
  chunk_index = r.chunk_index;
  text = r.text;
  page_number = r.page_number;
  section = r.section;
  token_count = r.token_count;
  doc_item_labels = r.doc_item_labels;
  embedding = r.embedding;
}

unfoldable pub payload : (ℕ → ℕ) → ℕ → List PreparedChunk → Table Chunk
payload fresh document_id [] = []
payload fresh document_id (r ∷ rs) =
    (fresh r.chunk_index, stored document_id r) ∷ payload fresh document_id rs

-- The rows of the statement break the unique index on the document and the index of a chunk.
abbrev has_index : ℕ → PreparedChunk → Bool
has_index n r = r.chunk_index == n

unfoldable pub has_repeat : List PreparedChunk → Bool
has_repeat [] = false
has_repeat (r ∷ rows) = any (has_index r.chunk_index) rows || has_repeat rows

abbrev pub is_taken : ℕ → Table Chunk → PreparedChunk → Bool
is_taken document_id chunks r =
    any (λ row. row.1.chunk_index == r.chunk_index) (rows_where (is_chunk_of document_id) chunks)

abbrev pub has_conflict : ℕ → Table Chunk → List PreparedChunk → Bool
has_conflict document_id chunks rows = has_repeat rows || any (is_taken document_id chunks) rows

-- The statement inserts all rows or none; the text of its error is the database's, and left out.
unfoldable pub bulk_insert : (ℕ → ℕ) → ℕ → List PreparedChunk → Session ℕ
unfolding payload has_repeat
bulk_insert fresh document_id rows db =
    if has_conflict document_id db.chunks rows
    then (raise (error integrity_error []), db)
    else (ok (length rows), record db { chunks = db.chunks ++ payload fresh document_id rows })
