-- ===== src/Stages/Index.antt =====
-- What the index stage does to the chunks of its document and to those of others.
use doc_mind_ai.Base.{
  ℕ, ◌≡◌, refl, ◌∙◌, Bool, true, false, not, Option, none, some, String, List, [], ◌∷◌, all, length,
  ◌==◌, Bool-cases, inl, inr, arith, rows_where,
}
use doc_mind_ai.Model.Errors.{permanent_error, str, number, error, Error, Result, ok, raise}
use doc_mind_ai.Model.Details.{num, Details}
use doc_mind_ai.Model.Enums.{embed}
use doc_mind_ai.Model.Rows.{PreparedChunk, Document, Db, get_document}
use doc_mind_ai.Repositories.Chunks.{is_chunk_of, has_repeat, payload, count_for_document}
use doc_mind_ai.Ingester.Methods.{load_document, bulk_insert}
use doc_mind_ai.Storage.Keys.{Config, Digest}
use doc_mind_ai.Worker.Stage.{World}
use doc_mind_ai.Stages.Artifacts.{Store}
use doc_mind_ai.Stages.Task.{Task, ◌>>=◌, ◌>>◌, pure, call, session}
use doc_mind_ai.Stages.Bodies.{Tools, check_vector, check_rows, require_rows, key_of, do_index}
use doc_mind_ai.Stages.RoundTrip.{HasRows, load_rows-HasRows, load_rows-HasRows}
use doc_mind_ai.Stages.Replacement.{bulk_insert-rows}

abbrev pub has_dimension : ℕ → Option (List ℕ) → Bool
has_dimension expected none = false
has_dimension expected (some v) = length v == expected

abbrev all_vectors : ℕ → List PreparedChunk → Bool
all_vectors expected rows = all (λ r. has_dimension expected r.embedding) rows

-- There is a row, and every row has a vector of the expected dimension.
abbrev pub is_indexable : ℕ → List PreparedChunk → Bool
is_indexable expected [] = false
is_indexable expected (r ∷ rows) = all_vectors expected (r ∷ rows)

check_vector-ok :
    (expected i : ℕ) (v : Option (List ℕ)) (later : Result (Unit {0}))
    → has_dimension expected v ≡ true
    → check_vector expected i v later ≡ later
check_vector-ok expected i none later h = absurd (ground (arith, h))
check_vector-ok expected i (some v) later h = rw h refl

check_vector-raise :
    (expected i : ℕ) (v : Option (List ℕ)) (later : Result (Unit {0}))
    → has_dimension expected v ≡ false
    → (e : Error) × (check_vector expected i v later ≡ raise e) × (e.class ≡ permanent_error)
check_vector-raise expected i none later h = (_, refl, refl)
check_vector-raise expected i (some v) later h = (
  error permanent_error (
      str "chunk "
      ∷ number i
      ∷ str " has "
      ∷ number (length v)
      ∷ str " dims, expected "
      ∷ number expected
      ∷ []),
  rw h refl,
  refl,
)

check_rows-ok :
    (expected : ℕ) (rows : List PreparedChunk)
    → all_vectors expected rows ≡ true
    → check_rows expected rows ≡ ok tt
unfolding check_rows
check_rows-ok expected [] h = refl
check_rows-ok expected (r ∷ rows) h = elim (Bool-cases (has_dimension expected r.embedding)) [
  | inl e ↦
      check_vector-ok expected r.chunk_index r.embedding _ e
      ∙ check_rows-ok expected rows (ground (arith, e, h))
  | inr e ↦ absurd (ground (arith, e, h))
]

check_rows-raise :
    (expected : ℕ) (rows : List PreparedChunk)
    → all_vectors expected rows ≡ false
    → (e : Error) × (check_rows expected rows ≡ raise e) × (e.class ≡ permanent_error)
unfolding check_rows
check_rows-raise expected [] h = absurd (ground (arith, h))
check_rows-raise expected (r ∷ rows) h = elim (Bool-cases (has_dimension expected r.embedding)) [
  | inl e ↦
      let (x, raised, class) = check_rows-raise expected rows (ground (arith, e, h)) in
      (x, check_vector-ok expected r.chunk_index r.embedding _ e ∙ raised, class)
  | inr e ↦ check_vector-raise expected r.chunk_index r.embedding _ e
]

indexable-ok :
    (expected : ℕ) (message : String) (rows : List PreparedChunk)
    → is_indexable expected rows ≡ true
    → (require_rows message rows ≡ pure tt) × (check_rows expected rows ≡ ok tt)
indexable-ok expected message [] h = absurd (ground (arith, h))
indexable-ok expected message (r ∷ rows) h = (refl, check_rows-ok expected (r ∷ rows) h)

pub load_document-there :
    (d : ℕ) (name : String) (db : Db) (doc : Document)
    → get_document d db ≡ some doc
    → load_document d name db ≡ (ok doc, db)
unfolding load_document
load_document-there d name db doc e = rw (e, load_document) refl

-- What the stage comes to once its rows have been loaded.
abbrev index_rows :
    {Parsed : Type 0}
    → Digest
    → Config
    → Store
    → Tools Parsed
    → (ℕ → ℕ)
    → ℕ
    → ℕ
    → List PreparedChunk
    → Task Details
index_rows digest config store tools fresh expected d rows = do
  require_rows "no chunks to index" rows
  call (check_rows expected rows)
  counts ← session (bulk_insert fresh d rows)
  pure (("inserted", num (counts.1)) ∷ ("replaced", num (counts.0)) ∷ [])

module _ {Parsed : Type 0} (digest : Digest) (config : Config) (store : Store)
    (tools : Tools Parsed) (fresh : ℕ → ℕ) (expected d : ℕ) (rows : List PreparedChunk) (w : World)
    (doc : Document) (there : get_document d w.db ≡ some doc)
    (saved : HasRows store tools.codec
      (key_of digest config store tools embed doc)
      rows
      w.storage) where
  do_index-loaded :
      do_index digest config store tools fresh expected d w
      ≡ index_rows digest config store tools fresh expected d rows w
  unfolding do_index
  do_index-loaded =
      rw (load_document-there d "index" w.db doc there)
        (rw (load_rows-HasRows store tools.codec _ rows w saved) refl)

  -- Where the document is there and the embed stage has left rows, at least one, each with a
  -- vector of the expected dimension and no two with the same index, do_index returns the number
  -- of the rows and that of the chunks before; the chunks of the document are then the rows, in
  -- their order, and the chunks of other documents, the documents, the jobs, the storage and the
  -- queue are as before.
  pub do_index-replaces :
      is_indexable expected rows ≡ true
      → has_repeat rows ≡ false
      → let (r, w') = do_index digest config store tools fresh expected d w in
        (r
          ≡ ok (
              ("inserted", num (length rows)) ∷ ("replaced", num (count_for_document d w.db)) ∷ []))
        × (rows_where (is_chunk_of d) w'.db.chunks ≡ payload fresh d rows)
        × (rows_where (λ c. not (is_chunk_of d c)) w'.db.chunks
            ≡ rows_where (λ c. not (is_chunk_of d c)) w.db.chunks)
        × (w'.db.documents ≡ w.db.documents)
        × (w'.db.jobs ≡ w.db.jobs)
        × (w'.storage ≡ w.storage)
        × (w'.queue ≡ w.queue)
  do_index-replaces h single =
      let (enough, checked) = indexable-ok expected "no chunks to index" rows h in
      let (counts, mine, others, documents, jobs) = bulk_insert-rows fresh d rows w.db single in
      rw do_index-loaded
        (rw enough (rw checked (rw counts (refl, mine, others, documents, jobs, refl, refl))))

-- Whatever stands in the rows that cannot be indexed, nothing is written.
refused :
    {Parsed : Type 0} (digest : Digest) (config : Config) (store : Store) (tools : Tools Parsed)
    (fresh : ℕ → ℕ) (expected d : ℕ) (rows : List PreparedChunk) (w : World)
    → is_indexable expected rows ≡ false
    → let (r, w') = index_rows digest config store tools fresh expected d rows w in
      ((e : Error) × (r ≡ raise e) × (e.class ≡ permanent_error)) × (w' ≡ w)
refused digest config store tools fresh expected d [] w h = ((_, refl, refl), refl)
refused digest config store tools fresh expected d (r ∷ rows) w h =
    let (e, raised, class) = check_rows-raise expected (r ∷ rows) h in
    rw raised ((e, refl, class), refl)

module _ {Parsed : Type 0} (digest : Digest) (config : Config) (store : Store)
    (tools : Tools Parsed) (fresh : ℕ → ℕ) (expected d : ℕ) (rows : List PreparedChunk) (w : World)
    (doc : Document) (there : get_document d w.db ≡ some doc)
    (saved : HasRows store tools.codec
      (key_of digest config store tools embed doc)
      rows
      w.storage) where
  -- Where the document is there and the embed stage has left no row, or a row without a vector or
  -- with one of another dimension, do_index raises a permanent error and changes nothing.
  pub do_index-refuses :
      is_indexable expected rows ≡ false
      → let (r, w') = do_index digest config store tools fresh expected d w in
        ((e : Error) × (r ≡ raise e) × (e.class ≡ permanent_error)) × (w' ≡ w)
  do_index-refuses h =
      rw (do_index-loaded digest config store tools fresh expected d rows w doc there saved)
        (refused digest config store tools fresh expected d rows w h)
