-- ===== src/Sweeper/Bounds.antt =====
-- How much `sweep_orphans` does at most.
use package.text.Mathlib.Text.{◌==◌ as str_eq}
use doc_mind_ai.Base.{
  ℕ, suc, ◌+◌, ◌≤◌, ◌<◌, ◌≡◌, refl, sym, ◌∙◌, ap, String, Bool, false, ◌||◌, Option, List, [], ◌∷◌,
  ◌++◌, length, Bool-cases, inl, inr, arith,
}
use doc_mind_ai.Model.Errors.{Error, Result, ok, raise, Result-cases}
use doc_mind_ai.Model.Rows.{Db}
use doc_mind_ai.Storage.Keys.{Config, Digest}
use doc_mind_ai.Storage.Backend.{Objects, Backend, object_at}
use doc_mind_ai.Sweeper.Orphans.{
  UuidOf, contains, is_live, within_grace, max_deletes, Tally, proceed, load_live_keys,
  delete_orphan, deleted_key, capped, sweep_object, sweep_objects, sweep_orphans,
}
use doc_mind_ai.Sweeper.Live.{Flow-cases, any-append}

one_longer : (a b c l : ℕ) → a ≤ b + l → b ≡ suc c → a ≤ c + suc l
one_longer a b c l h e = omega arith

still_longer : (a c l : ℕ) → a ≡ suc c → a ≤ c + suc l
still_longer a c l e = omega arith

from_zero : (a l : ℕ) → a ≤ 0 + l → a ≤ l
from_zero a l h = omega arith

none_but : (a b c m n : ℕ) → a + m ≡ n → b + n ≡ c → (a + b) + m ≡ c
none_but a b c m n h k = omega (arith, h, k)

-- A deletion concerns no other key, and one that raises removes nothing.
pub record IsCareful (delete : String → Objects → Result (Unit {0}) × Objects) : Type 0 where
  pub only :
      (key other : String) (o : Objects)
      → str_eq other key ≡ false
      → object_at other (delete key o).1 ≡ object_at other o
  pub raised :
      (key : String) (o : Objects) (e : Error) → (delete key o).0 ≡ raise e → (delete key o).1 ≡ o

-- The counted keys are all that have lost their objects.
abbrev Lost : Tally → Objects → Tally → Objects → Type 0
Lost t o t' o' =
    (gone : List String) × (length gone + t.deleted ≡ t'.deleted)
    × ((key : String) → contains key gone ≡ false → object_at key o' ≡ object_at key o)

length-append {ℓ} : {A : Type ℓ} (xs ys : List A) → length (xs ++ ys) ≡ length xs + length ys
length-append [] ys = omega arith
length-append (x ∷ xs) ys = omega (arith, length-append xs ys)

Lost-trans :
    (t : Tally) (o : Objects) (t' : Tally) (o' : Objects) (t'' : Tally) (o'' : Objects)
    → Lost t o t' o'
    → Lost t' o' t'' o''
    → Lost t o t'' o''
Lost-trans t o t' o' t'' o'' (a, m, same) (b, n, same') = (
  a ++ b,
  rw (length-append a b) (none_but _ _ _ _ _ m n),
  λ key h.
      let apart : (contains key a || contains key b) ≡ false =
        sym (any-append (str_eq key) a b) ∙ h in
      same' key (ground (arith, apart)) ∙ same key (ground (arith, apart)),
)

module _ (backend : Backend) (is_pipeline_key : String → Bool) (uuid_of : UuidOf) (now : ℕ)
    (live : List String) (prefixes : List (ℕ × ℕ)) where
  module _ (careful : IsCareful (delete_orphan backend is_pipeline_key)) where
    deleted_key-Lost :
        (key : String) (t : Tally) (o : Objects)
        → let (r, o') = delete_orphan backend is_pipeline_key key o in
          Lost t o (deleted_key backend is_pipeline_key r t).1 o'
    unfolding deleted_key
    deleted_key-Lost key t o = elim (Result-cases (delete_orphan backend is_pipeline_key key o).0) [
      | inl (u, q) ↦
          rw (q, deleted_key)
            (key ∷ [], omega arith, λ k h. careful.only key k o (ground (arith, h)))
      | inr (e, q) ↦
          rw (q, deleted_key) ([], omega arith, λ k h. ap (object_at k) (careful.raised key o e q))
    ]

    sweep_object-Lost :
        (key : String) (mtime : Option ℕ) (t : Tally) (o : Objects)
        → let (flow, t', o') =
            sweep_object backend is_pipeline_key uuid_of now live prefixes key mtime t o in
          Lost t o t' o'
    unfolding sweep_object
    sweep_object-Lost key mtime t o = elim (Bool-cases (is_live uuid_of key live prefixes)) [
      | inl l ↦ rw l ([], omega arith, λ k h. refl)
      | inr l ↦ rw l (elim (Bool-cases (within_grace mtime now)) [
        | inl g ↦ rw g ([], omega arith, λ k h. refl)
        | inr g ↦ rw g (deleted_key-Lost key (record t { scanned = suc t.scanned }) o)
      ])
    ]

    sweep_objects-Lost :
        (listing : List (String × Option ℕ)) (t : Tally) (o : Objects)
        → let (r, t', o') =
            sweep_objects backend is_pipeline_key uuid_of now live prefixes listing t o in
          Lost t o t' o'
    unfolding sweep_objects
    sweep_objects-Lost [] t o = ([], omega arith, λ k h. refl)
    sweep_objects-Lost ((key, mtime) ∷ rest) t o =
        let (flow, t', o') =
          sweep_object backend is_pipeline_key uuid_of now live prefixes key mtime t o in
        let first = sweep_object-Lost key mtime t o in
        let (r, t'', o'') =
          sweep_objects backend is_pipeline_key uuid_of now live prefixes rest t' o' in
        elim (Flow-cases flow) [
          | inl e ↦
              rw (e, sweep_objects)
                (Lost-trans t o t' o' t'' o'' first (sweep_objects-Lost rest t' o'))
          | inr (inl e) ↦ rw (e, sweep_objects) first
          | inr (inr (x, e)) ↦ rw (e, sweep_objects) first
        ]

  deleted_key-Bounded :
      (r : Result (Unit {0})) (t : Tally)
      → t.deleted < max_deletes
      → t.deleted + t.skipped_grace < t.scanned
      → let (flow, t') = deleted_key backend is_pipeline_key r t in
        (t'.deleted ≤ max_deletes)
        × (t'.deleted + t'.skipped_grace ≤ t'.scanned)
        × (t'.scanned ≡ t.scanned)
        × (flow ≡ proceed → t'.deleted < max_deletes)
  unfolding deleted_key capped
  deleted_key-Bounded (ok _) t h k = (ground arith, ground arith, refl, λ e. ground arith)
  deleted_key-Bounded (raise e) t h k = (ground arith, ground arith, refl, λ e. ground arith)

  sweep_object-Bounded :
      (key : String) (mtime : Option ℕ) (t : Tally) (o : Objects)
      → t.deleted < max_deletes
      → t.deleted + t.skipped_grace ≤ t.scanned
      → let (flow, t', o') =
          sweep_object backend is_pipeline_key uuid_of now live prefixes key mtime t o in
        (t'.deleted ≤ max_deletes)
        × (t'.deleted + t'.skipped_grace ≤ t'.scanned)
        × (t'.scanned ≡ suc t.scanned)
        × (flow ≡ proceed → t'.deleted < max_deletes)
  unfolding sweep_object
  sweep_object-Bounded key mtime t o h k = elim (Bool-cases (is_live uuid_of key live prefixes)) [
    | inl l ↦ rw l (ground arith, ground arith, refl, λ e. ground arith)
    | inr l ↦ rw l (elim (Bool-cases (within_grace mtime now)) [
      | inl g ↦ rw g (ground arith, ground arith, refl, λ e. ground arith)
      | inr g ↦ rw g (
          deleted_key-Bounded (delete_orphan backend is_pipeline_key key o).0
            (record t { scanned = suc t.scanned }) h (omega (arith, k)))
    ])
  ]

  sweep_objects-Bounded :
      (listing : List (String × Option ℕ)) (t : Tally) (o : Objects)
      → t.deleted < max_deletes
      → t.deleted + t.skipped_grace ≤ t.scanned
      → let t' = (sweep_objects backend is_pipeline_key uuid_of now live prefixes listing t o).1 in
        (t'.deleted ≤ max_deletes)
        × (t'.deleted + t'.skipped_grace ≤ t'.scanned)
        × (t'.scanned ≤ t.scanned + length listing)
  unfolding sweep_objects
  sweep_objects-Bounded [] t o h k = (ground arith, k, ground arith)
  sweep_objects-Bounded ((key, mtime) ∷ rest) t o h k =
      let (within, sum, one_more, on) = sweep_object-Bounded key mtime t o h k in
      elim (Flow-cases
        (sweep_object backend is_pipeline_key uuid_of now live prefixes key mtime t o).0) [
          | inl e ↦
              rw (e, sweep_objects)
                (let (within', sum', most) = sweep_objects-Bounded rest _ _ (on e) sum in
                  (within', sum', one_longer _ _ _ _ most one_more))
          | inr (inl e) ↦ rw (e, sweep_objects) (within, sum, still_longer _ _ _ one_more)
          | inr (inr (x, e)) ↦ rw (e, sweep_objects) (within, sum, still_longer _ _ _ one_more)
        ]

-- A sweep of the orphans counts at most 1000 deletions, whatever the storage lists, and there are
-- no more keys than it counts outside which every object is as before; the objects that it counts
-- as deleted or as within the grace period are together at most the scanned ones, and these at
-- most the listed ones. Condition: a deletion concerns no other key, and one that raises removes
-- nothing.
pub sweep_orphans-bounds :
    (digest : Digest) (config : Config) (backend : Backend) (is_pipeline_key : String → Bool)
    (uuid_of : UuidOf) (now : ℕ) (listing : List (String × Option ℕ)) (db : Db) (o : Objects)
    → IsCareful (delete_orphan backend is_pipeline_key)
    → let (r, t, o') =
        sweep_orphans digest config backend is_pipeline_key uuid_of now listing db o in
      ((gone : List String) × (length gone ≡ t.deleted)
        × ((key : String) → contains key gone ≡ false → object_at key o' ≡ object_at key o))
      × (t.deleted ≤ 1000)
      × (t.deleted + t.skipped_grace ≤ t.scanned)
      × (t.scanned ≤ length listing)
unfolding sweep_orphans
sweep_orphans-bounds digest config backend is_pipeline_key uuid_of now listing db o careful =
    let (live, prefixes) = load_live_keys digest config db.documents in
    let none_yet : Tally = record { scanned = 0; deleted = 0; skipped_grace = 0 } in
    let (deleted, counted, scanned) =
      sweep_objects-Bounded backend is_pipeline_key uuid_of now live prefixes listing none_yet o
        (omega arith) (omega arith) in
    let (gone, counts, same) =
      sweep_objects-Lost backend is_pipeline_key uuid_of now live prefixes careful listing none_yet
        o in
    ((gone, omega (arith, counts), same), deleted, counted, from_zero _ _ scanned)
