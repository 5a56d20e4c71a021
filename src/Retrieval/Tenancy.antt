-- ===== src/Retrieval/Tenancy.antt =====
-- A retrieval reads no document but the indexed ones of its user, and of those only the ones that were asked for.
use doc_mind_ai.Base.{
  ℕ, zero, suc, ◌≡◌, refl, sym, String, Bool, true, ◌&&◌, some, List, [], ◌∷◌, map, Table, ◌==◌,
  ==_refl, any, rows_where, All, All-weaken, any-All, Bool-cases, Option-cases, inl, inr, arith,
}
use doc_mind_ai.Model.Enums.{indexed}
use doc_mind_ai.Model.Rows.{Document, Chunk, Db, get_document}
use doc_mind_ai.Retrieval.Types.{Candidate}
use doc_mind_ai.Retrieval.Ranking.{Arithmetic}
use doc_mind_ai.Retrieval.Search.{
  Engine, in_scope, is_readable, scope, Found, place_found, by_distance, rank_vector, rank_keyword,
  vector_search, keyword_search, is_near, is_wanted, neighbors, to_candidate,
}

-- The user may read the document, and it is in the scope of the request.
abbrev pub CanRead : ℕ → List ℕ → Db → ℕ → Type 0
CanRead user_id document_ids db d =
    (doc : Document) × (get_document d db ≡ some doc)
    × (doc.user_id ≡ user_id)
    × (doc.status ≡ indexed)
    × (in_scope document_ids d ≡ true)

abbrev pub is_chunk : ℕ → ℕ → Table Chunk → Bool
is_chunk id d t = any (λ r. r.0 == id && r.1.document_id == d) t

-- A chunk of a document that the user may read.
abbrev pub Readable : ℕ → List ℕ → Db → ℕ → ℕ → Type 0
Readable user_id document_ids db id d =
    (is_chunk id d db.chunks ≡ true) × CanRead user_id document_ids db d

-- The database answers with rows that it was asked for, whatever these have in common.
pub record IsSelective {Score : Type 0} (engine : Engine Score) : Type 1 where
  pub nearest_rows :
      (v : List ℕ) (n : ℕ) (t : Table Chunk) (Q : ℕ → Chunk → Type 0)
      → All (λ r. Q r.0 r.1) t
      → All (λ f. Q f.0 f.1) (engine.nearest v n t)
  pub matching_rows :
      (query : String) (n : ℕ) (t : Table Chunk) (Q : ℕ → Chunk → Type 0)
      → All (λ r. Q r.0 r.1) t
      → All (λ f. Q f.0 f.1) (engine.matching query n t)

rows_where-All :
    (P : ℕ × Chunk → Type 0) (p : Chunk → Bool) (t : Table Chunk)
    → All P t
    → All (λ r. P r × (p r.1 ≡ true)) (rows_where p t)
rows_where-All P p [] all = tt
rows_where-All P p ((i, c) ∷ rest) all = elim (Bool-cases (p c)) [
  | inl e ↦ rw e ((all.0, e), rows_where-All P p rest all.1)
  | inr e ↦ rw e (rows_where-All P p rest all.1)
]

All-is_chunk : (t : Table Chunk) → All (λ r. is_chunk r.0 r.1.document_id t ≡ true) t
All-is_chunk [] = tt
All-is_chunk ((i, c) ∷ rest) =
    (rw ==_refl (rw ==_refl refl), All-weaken (λ r h. ground (arith, h)) rest (All-is_chunk rest))

can_read :
    (user_id : ℕ) (document_ids : List ℕ) (db : Db) (d : ℕ)
    → (is_readable user_id (get_document d db) && in_scope document_ids d) ≡ true
    → CanRead user_id document_ids db d
can_read user_id document_ids db d = elim (Option-cases (get_document d db)) [
  | inl e ↦ rw e (λ h. absurd (ground (arith, h)))
  | inr (doc, e) ↦ rw e (λ h. (doc, refl, ground (arith, h), ground (arith, h), ground (arith, h)))
]

module _ {Score : Type 0} (a : Arithmetic Score) (engine : Engine Score)
    (selective : IsSelective engine) (user_id : ℕ) (document_ids : List ℕ) (db : Db) where
  abbrev ReadableRow : ℕ → Chunk → Type 0
  ReadableRow id row = Readable user_id document_ids db id row.document_id

  abbrev Fits : Candidate Score → Type 0
  Fits c = Readable user_id document_ids db c.chunk_id c.document_id

  scope-Readable : All (λ r. ReadableRow r.0 r.1) (scope user_id document_ids db)
  unfolding scope
  scope-Readable =
      All-weaken (λ r h. (h.0, can_read user_id document_ids db r.1.document_id h.1)) _
        (rows_where-All (λ r. is_chunk r.0 r.1.document_id db.chunks ≡ true) _ db.chunks
          (All-is_chunk db.chunks))

  place_found-All :
      (f : Found a engine) (l : List (Found a engine))
      → ReadableRow f.0 f.1
      → All (λ g. ReadableRow g.0 g.1) l
      → All (λ g. ReadableRow g.0 g.1) (place_found a engine f l)
  place_found-All f [] h all = (h, tt)
  place_found-All f (g ∷ rest) h all = elim (Bool-cases (a.higher f.2 g.2)) [
    | inl e ↦ rw e (all.0, place_found-All f rest h all.1)
    | inr e ↦ rw e (h, all)
  ]

  by_distance-All :
      (l : List (Found a engine))
      → All (λ g. ReadableRow g.0 g.1) l
      → All (λ g. ReadableRow g.0 g.1) (by_distance a engine l)
  unfolding by_distance
  by_distance-All [] all = tt
  by_distance-All (f ∷ rest) all = place_found-All f _ all.0 (by_distance-All rest all.1)

  rank_vector-Fits :
      (n : ℕ) (l : List (Found a engine))
      → All (λ g. ReadableRow g.0 g.1) l
      → All Fits (rank_vector a engine n l)
  unfolding rank_vector to_candidate
  rank_vector-Fits n [] all = tt
  rank_vector-Fits n (f ∷ rest) all = (all.0, rank_vector-Fits (suc n) rest all.1)

  rank_keyword-Fits :
      (n : ℕ) (l : List (Found a engine))
      → All (λ g. ReadableRow g.0 g.1) l
      → All Fits (rank_keyword a engine n l)
  unfolding rank_keyword to_candidate
  rank_keyword-Fits n [] all = tt
  rank_keyword-Fits n (f ∷ rest) all = (all.0, rank_keyword-Fits (suc n) rest all.1)

  pub vector_search-Fits :
      (embedding : List ℕ) (limit : ℕ)
      → All Fits (vector_search a engine user_id embedding document_ids limit db)
  unfolding vector_search
  vector_search-Fits embedding limit =
      rank_vector-Fits 1 _
        (by_distance-All _ (selective.nearest_rows embedding limit _ ReadableRow scope-Readable))

  pub keyword_search-Fits :
      (query : String) (limit : ℕ)
      → All Fits (keyword_search a engine user_id query document_ids limit db)
  unfolding keyword_search
  keyword_search-Fits query limit = elim (Bool-cases (engine.has_word query)) [
    | inl e ↦
        rw e
          (rank_keyword-Fits 1 _ (selective.matching_rows query limit _ ReadableRow scope-Readable))
    | inr e ↦ rw e tt
  ]

  near-CanRead :
      (window : ℕ) (selected : List (Candidate Score)) (row : Chunk)
      → All Fits selected
      → is_wanted a engine window selected row ≡ true
      → CanRead user_id document_ids db row.document_id
  near-CanRead window selected row all e =
      let (c, near, fits) =
        any-All Fits (is_near a engine window row) selected (ground (arith, e)) all in
      let same : c.document_id ≡ row.document_id = ground (arith, near) in rw (sym same) fits.1

  candidates-Fits :
      (l : Table Chunk)
      → All (λ r. ReadableRow r.0 r.1) l
      → All Fits (map (λ r. to_candidate a engine r.0 r.1) l)
  unfolding to_candidate
  candidates-Fits [] all = tt
  candidates-Fits (r ∷ l) all = (all.0, candidates-Fits l all.1)

  pub neighbors-Fits :
      (selected : List (Candidate Score)) (window : ℕ)
      → All Fits selected
      → All Fits (neighbors a engine selected window db)
  unfolding neighbors
  neighbors-Fits selected zero all = tt
  neighbors-Fits selected (suc window) all = candidates-Fits _ (
      All-weaken (λ r h. (h.0, near-CanRead (suc window) selected r.1 all h.1)) _
        (rows_where-All (λ r. is_chunk r.0 r.1.document_id db.chunks ≡ true) _ db.chunks
          (All-is_chunk db.chunks)))
