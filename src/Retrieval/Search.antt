-- ===== src/Retrieval/Search.antt =====
-- backend/app/rag/retrieval/retrieval.py: the searches of candidates. Postgres is a parameter: in which order it finds
-- the rows of a statement, and which of them match a text.
use doc_mind_ai.Base.{
  ℕ, zero, suc, ◌+◌, String, Bool, true, false, not, ◌&&◌, Option, none, some, List, [], ◌∷◌, map,
  Table, if◌then◌else◌, ◌==◌, leb, any, rows_where,
}
use doc_mind_ai.Model.Enums.{indexed, same_document_status}
use doc_mind_ai.Model.Errors.{
  error, not_found_error, document_not_ready, str, uuid, document_status, Result, ok, raise,
}
use doc_mind_ai.Model.Rows.{Document, Chunk, Db, get_document}
use doc_mind_ai.Repositories.Documents.{get_for_user}
use doc_mind_ai.Retrieval.Types.{Candidate}
use doc_mind_ai.Retrieval.Ranking.{Arithmetic}

-- Rows of a statement over the given rows, with what it computes for each: the nearest to a vector, and those that match
-- a query, best first. A statement without `ORDER BY` gives its rows in the order of the table.
pub record Engine (Score : Type 0) : Type 0 where
  pub nearest : List ℕ → ℕ → Table Chunk → List (ℕ × Chunk × Score)
  pub matching : String → ℕ → Table Chunk → List (ℕ × Chunk × Score)
  pub has_word : String → Bool  -- `_WORD_RE.search(query)`

abbrev pub in_scope : List ℕ → ℕ → Bool
in_scope [] d = true
in_scope (e ∷ rest) d = any (λ i. i == d) (e ∷ rest)

abbrev pub is_readable : ℕ → Option Document → Bool
is_readable user_id none = false
is_readable user_id (some doc) = doc.user_id == user_id && same_document_status doc.status indexed

-- `_scope`: the rows that the statement selects. An empty list is no restriction, as is `None`.
unfoldable pub scope : ℕ → List ℕ → Db → Table Chunk
scope user_id document_ids db =
    rows_where
      (λ c.
        is_readable user_id (get_document c.document_id db) && in_scope document_ids c.document_id)
      db.chunks

-- The loop over `set(document_ids)`, in the order of the list.
unfoldable pub validate_scope : ℕ → List ℕ → Db → Result (Unit {0})
validate_scope user_id [] db = ok tt
validate_scope user_id (d ∷ rest) db =
    let later = validate_scope user_id rest db in
    elim (get_for_user user_id d db) [
      | none ↦ raise (error not_found_error (str "document not found" ∷ []))
      | some doc ↦
          if same_document_status doc.status indexed
          then later
          else raise (
              error document_not_ready
                (str "document " ∷ uuid d ∷ str " is " ∷ document_status doc.status ∷ []))
    ]

module _ {Score : Type 0} (a : Arithmetic Score) (engine : Engine Score) where
  unfoldable pub to_candidate : ℕ → Chunk → Candidate Score
  to_candidate id row = record {
    chunk_id = id;
    document_id = row.document_id;
    chunk_index = row.chunk_index;
    text = row.text;
    page_number = row.page_number;
    section = row.section;
    token_count = some row.token_count;
    embedding = row.embedding;
    vector_rank = none;
    keyword_rank = none;
    vector_score = none;
    keyword_score = none;
    fused_score = a.nil;
    rerank_score = none;
  }

  abbrev pub Found : Type 0
  Found = ℕ × Chunk × Score

  abbrev pub place_found : Found → List Found → List Found
  place_found f [] = f ∷ []
  place_found f (g ∷ rest) = if a.higher f.2 g.2 then g ∷ place_found f rest else f ∷ g ∷ rest

  -- `sorted(rows, key=lambda r: r.distance)`
  unfoldable pub by_distance : List Found → List Found
  by_distance [] = []
  by_distance (f ∷ rest) = place_found f (by_distance rest)

  unfoldable pub rank_vector : ℕ → List Found → List (Candidate Score)
  unfolding to_candidate
  rank_vector rank [] = []
  rank_vector rank ((id, row, distance) ∷ rest) =
      record (to_candidate id row) {
        vector_rank = some rank;
        vector_score = some (a.minus a.one distance);
      }
      ∷ rank_vector (suc rank) rest

  -- The two settings of pgvector are the engine's.
  unfoldable pub vector_search : ℕ → List ℕ → List ℕ → ℕ → Db → List (Candidate Score)
  unfolding scope by_distance rank_vector
  vector_search user_id embedding document_ids limit db =
      rank_vector 1 (by_distance (engine.nearest embedding limit (scope user_id document_ids db)))

  unfoldable pub rank_keyword : ℕ → List Found → List (Candidate Score)
  unfolding to_candidate
  rank_keyword rank [] = []
  rank_keyword rank ((id, row, score) ∷ rest) =
      record (to_candidate id row) { keyword_rank = some rank; keyword_score = some score }
      ∷ rank_keyword (suc rank) rest

  -- `to_tsquery` gives nothing for a query without a word character.
  unfoldable pub keyword_search : ℕ → String → List ℕ → ℕ → Db → List (Candidate Score)
  unfolding scope rank_keyword
  keyword_search user_id query document_ids limit db =
      if engine.has_word query
      then rank_keyword 1 (engine.matching query limit (scope user_id document_ids db))
      else []

  abbrev pub is_near : ℕ → Chunk → Candidate Score → Bool
  is_near window row c =
      c.document_id == row.document_id
      && leb c.chunk_index (row.chunk_index + window)
      && leb row.chunk_index (c.chunk_index + window)

  abbrev pub is_at : Chunk → Candidate Score → Bool
  is_at row c = c.document_id == row.document_id && c.chunk_index == row.chunk_index

  -- The row stands at a position of `wanted`: around a selected chunk, and none itself.
  abbrev pub is_wanted : ℕ → List (Candidate Score) → Chunk → Bool
  is_wanted window selected row =
      any (is_near window row) selected && not (any (is_at row) selected)

  unfoldable pub neighbors : List (Candidate Score) → ℕ → Db → List (Candidate Score)
  unfolding to_candidate
  neighbors selected zero db = []
  neighbors selected (suc window) db =
      map (λ r. to_candidate r.0 r.1) (rows_where (is_wanted (suc window) selected) db.chunks)
