-- ===== src/Sweeper/Live.antt =====
-- What `sweep_orphans` leaves alone, and how much it does at most.
use package.text.Mathlib.Text.{◌==◌ as str_eq}
use package.text.Mathlib.TextEquality.{eq_iff}
use doc_mind_ai.Base.{
  ℕ, ◌≡◌, ◌≢◌, refl, sym, ◌∙◌, ap, ◌⊎◌, String, Bool, true, false, ◌||◌, Option, some, List, [],
  ◌∷◌, ◌++◌, any, Table, find, Bool-cases, inl, inr, arith,
}
use doc_mind_ai.Model.Errors.{Error}
use doc_mind_ai.Model.Rows.{Document, Db, get_document}
use doc_mind_ai.Storage.Keys.{Config, Digest, cache_key}
use doc_mind_ai.Model.Enums.{JobStage, index}
use doc_mind_ai.Service.Changes.{truthy}
use doc_mind_ai.Storage.Backend.{Objects, Backend, object_at}
use doc_mind_ai.Sweeper.Orphans.{
  cached_keys, listed, UuidOf, contains, is_live, within_grace, Tally, Flow, proceed, stop, abort,
  keys_of, load_live_keys, delete_orphan, sweep_object, sweep_objects, sweep_orphans,
}

pub Flow-cases : (f : Flow) → (f ≡ proceed) ⊎ (f ≡ stop) ⊎ ((e : Error) × (f ≡ abort e))
Flow-cases proceed = inl refl
Flow-cases stop = inr (inl refl)
Flow-cases (abort e) = inr (inr (e, refl))

pub any-append {ℓ} :
    {A : Type ℓ} (p : A → Bool) (xs ys : List A) → any p (xs ++ ys) ≡ (any p xs || any p ys)
any-append p [] ys = refl
any-append p (x ∷ xs) ys = ground (arith, any-append p xs ys)

module _ (digest : Digest) (config : Config) where
  -- The keys that a row of the table refers to are among the live ones.
  load_live_keys-row :
      (i : ℕ) (doc : Document) (t : Table Document) (key : String)
      → find i t ≡ some doc
      → contains key (keys_of digest config doc) ≡ true
      → contains key (load_live_keys digest config t).0 ≡ true
  unfolding find load_live_keys
  load_live_keys-row i doc [] key e h = ground arith
  load_live_keys-row i doc ((j, row) ∷ t) key e h =
      rw (any-append (str_eq key) (keys_of digest config row) (load_live_keys digest config t).0)
        (ground (arith, load_live_keys-row i doc t key, e, h))

module _ (backend : Backend) (is_pipeline_key : String → Bool) (uuid_of : UuidOf) (now : ℕ)
    (live : List String) (prefixes : List (ℕ × ℕ)) where
  module _ (P : Objects → Type 0)
      (deletes : (key : String) (mtime : Option ℕ) (o : Objects)
        → is_live uuid_of key live prefixes ≡ false
        → within_grace mtime now ≡ false
        → P o
        → P (delete_orphan backend is_pipeline_key key o).1) where
    sweep_object-keeps :
        (key : String) (mtime : Option ℕ) (t : Tally) (o : Objects)
        → P o
        → P (sweep_object backend is_pipeline_key uuid_of now live prefixes key mtime t o).2
    unfolding sweep_object
    sweep_object-keeps key mtime t o p = elim (Bool-cases (is_live uuid_of key live prefixes)) [
      | inl l ↦ rw l p
      | inr l ↦ rw l (elim (Bool-cases (within_grace mtime now)) [
        | inl g ↦ rw g p
        | inr g ↦ rw g (deletes key mtime o l g p)
      ])
    ]

    -- A sweep keeps what the deletion of old objects without a reference keeps.
    sweep_objects-keeps :
        (listing : List (String × Option ℕ)) (t : Tally) (o : Objects)
        → P o
        → P (sweep_objects backend is_pipeline_key uuid_of now live prefixes listing t o).2
    unfolding sweep_objects
    sweep_objects-keeps [] t o p = p
    sweep_objects-keeps ((key, mtime) ∷ rest) t o p =
        let first = sweep_object-keeps key mtime t o p in
        elim (Flow-cases
          (sweep_object backend is_pipeline_key uuid_of now live prefixes key mtime t o).0) [
            | inl e ↦ rw (e, sweep_objects) (sweep_objects-keeps rest _ _ first)
            | inr (inl e) ↦ rw (e, sweep_objects) first
            | inr (inr (x, e)) ↦ rw (e, sweep_objects) first
          ]

dead-other :
    (uuid_of : UuidOf) (live : List String) (prefixes : List (ℕ × ℕ)) (key other : String)
    → contains key live ≡ true
    → is_live uuid_of other live prefixes ≡ false
    → str_eq key other ≡ false
unfolding is_live
dead-other uuid_of live prefixes key other h dead = elim (Bool-cases (str_eq key other)) [
  | inr e ↦ e
  | inl e ↦
      let same : contains other live ≡ true =
        ap (λ k. contains k live) (sym ((eq_iff key other).0 e)) ∙ h in
      absurd (ground (arith, same, dead))
]

-- The source file of a document, its parsed document, and the artifact of each stage but the last.
abbrev pub IsReferenced : Digest → Config → Document → String → Type 0
IsReferenced digest config doc key =
    ((doc.storage_key ≡ some key) × (str_eq key "" ≡ false))
    ⊎ ((doc.parsed_key ≡ some key) × (str_eq key "" ≡ false))
    ⊎ ((hash : String) × (s : JobStage) × (doc.content_hash ≡ some hash)
        × (str_eq hash "" ≡ false)
        × (s ≢ index)
        × (key ≡ cache_key digest config hash s))

contains_self : (key : String) → contains key (key ∷ []) ≡ true
contains_self key = rw ((eq_iff key key).1 refl) refl

cached_keys-contains :
    (digest : Digest) (config : Config) (hash : String) (s : JobStage)
    → s ≢ index
    → contains (cache_key digest config hash s) (cached_keys digest config (some hash)) ≡ true
unfolding cached_keys
cached_keys-contains digest config hash JobStage.extract h =
    let k = cache_key digest config hash JobStage.extract in ground (arith, (eq_iff k k).1 refl)
cached_keys-contains digest config hash JobStage.clean h =
    let k = cache_key digest config hash JobStage.clean in ground (arith, (eq_iff k k).1 refl)
cached_keys-contains digest config hash JobStage.chunk h =
    let k = cache_key digest config hash JobStage.chunk in ground (arith, (eq_iff k k).1 refl)
cached_keys-contains digest config hash JobStage.embed h =
    let k = cache_key digest config hash JobStage.embed in ground (arith, (eq_iff k k).1 refl)
cached_keys-contains digest config hash JobStage.index h = absurd (h refl)

contains_first :
    (key : String) (a b : List String) → contains key a ≡ true → contains key (a ++ b) ≡ true
contains_first key a b h = any-append (str_eq key) a b ∙ ground (arith, h)

contains_second :
    (key : String) (a b : List String) → contains key b ≡ true → contains key (a ++ b) ≡ true
contains_second key a b h = any-append (str_eq key) a b ∙ ground (arith, h)

keys_of-contains :
    (digest : Digest) (config : Config) (doc : Document) (key : String)
    → IsReferenced digest config doc key
    → contains key (keys_of digest config doc) ≡ true
unfolding keys_of
keys_of-contains digest config doc key (inl (e, filled)) =
    contains_first key (listed (truthy doc.storage_key) ++ listed (truthy doc.parsed_key))
      (cached_keys digest config (truthy doc.content_hash))
      (contains_first key (listed (truthy doc.storage_key)) (listed (truthy doc.parsed_key))
        (rw e (rw filled (contains_self key))))
keys_of-contains digest config doc key (inr (inl (e, filled))) =
    contains_first key (listed (truthy doc.storage_key) ++ listed (truthy doc.parsed_key))
      (cached_keys digest config (truthy doc.content_hash))
      (contains_second key (listed (truthy doc.storage_key)) (listed (truthy doc.parsed_key))
        (rw e (rw filled (contains_self key))))
keys_of-contains digest config doc key (inr (inr (hash, s, e, filled, early, same))) =
    contains_second key (listed (truthy doc.storage_key) ++ listed (truthy doc.parsed_key))
      (cached_keys digest config (truthy doc.content_hash))
      (rw e (rw filled (rw same (cached_keys-contains digest config hash s early))))

-- If deleting another key leaves the object of a key, a sweep of the orphans leaves the object of
-- every key that a document row refers to: its source file, its parsed document, and the cached
-- artifacts of the extract, clean, chunk and embed stages of its content hash, where these columns
-- are not empty.
pub sweep_orphans-referenced :
    (digest : Digest) (config : Config) (backend : Backend) (is_pipeline_key : String → Bool)
    (uuid_of : UuidOf) (now : ℕ) (listing : List (String × Option ℕ)) (db : Db) (o : Objects)
    (i : ℕ) (doc : Document) (key : String)
    → get_document i db ≡ some doc
    → IsReferenced digest config doc key
    → ((other : String) (o : Objects)
        → str_eq key other ≡ false
        → object_at key (delete_orphan backend is_pipeline_key other o).1 ≡ object_at key o)
    → object_at key (sweep_orphans digest config backend is_pipeline_key uuid_of now listing db o).2
      ≡ object_at key o
unfolding sweep_orphans
sweep_orphans-referenced digest config backend is_pipeline_key uuid_of now listing db o i doc key
      row used local =
    let live = (load_live_keys digest config db.documents).0 in
    let prefixes = (load_live_keys digest config db.documents).1 in
    let referenced =
      load_live_keys-row digest config i doc db.documents key row
        (keys_of-contains digest config doc key used) in
    sweep_objects-keeps backend is_pipeline_key uuid_of now live prefixes
      (λ objects. object_at key objects ≡ object_at key o)
      (λ other mtime objects dead old same.
        local other objects (dead-other uuid_of live prefixes key other referenced dead) ∙ same)
      listing _ o refl
