-- ===== src/Stages/Local.antt =====
-- The artifacts of the stages in the storage on files.
use package.text.Mathlib.Text.{◌==◌ as str_eq}
use doc_mind_ai.Base.{
  ℕ, String, ◌≡◌, refl, ◌∙◌, true, false, none, List, map, Bool-cases, Option-cases, inl, inr,
  arith,
}
use doc_mind_ai.Model.Enums.{JobStage}
use doc_mind_ai.Model.Errors.{ok}
use doc_mind_ai.Model.Rows.{PreparedChunk}
use doc_mind_ai.Storage.Keys.{Digest, Config, cache_key}
use doc_mind_ai.Storage.Validation.{validate_key, is_match, times, is_hex}
use doc_mind_ai.Storage.Accepted.{cache_key-IsAccepted}
use doc_mind_ai.Storage.Local.{Platform, is_stored, resolve_key}
use doc_mind_ai.Storage.Files.{local_store, exists, put_bytes, partial}
use doc_mind_ai.Storage.Backend.{
  Objects, object_at, put_object, remove_object, object_at-put_object, object_at-remove_object,
}
use doc_mind_ai.Stages.Conversion.{IsReliable}
use doc_mind_ai.Storage.Downloads.{put_bytes-get_bytes}
use doc_mind_ai.Worker.Stage.{World}
use doc_mind_ai.Stages.Artifacts.{RowCodec, asdict, save_rows, load_rows}
use doc_mind_ai.Stages.RoundTrip.{load_rows-save_rows}

-- Rows that save_rows stores in the storage on files under the key of a stage are what load_rows
-- reads there, all fields included, and the rows of the database do not change. Condition: gzip
-- and JSON give back the items, the fingerprints have 16 hexadecimal digits and the hash of the
-- content 64, and the path of the key is inside the root.
pub load_rows-save_rows_local :
    (platform : Platform) (codec : RowCodec) (digest : Digest) (c : Config) (content_hash : String)
    (s : JobStage) (rows : List PreparedChunk) (w : World)
    → ((material : String) → is_match (times 16 is_hex) (digest material) ≡ true)
    → is_match (times 64 is_hex) content_hash ≡ true
    → platform.is_inside (cache_key digest c content_hash s) ≡ true
    → codec.unpack (codec.pack (map asdict rows)) ≡ ok (map asdict rows)
    → let key = cache_key digest c content_hash s in
      let (r, w') = save_rows (local_store platform) codec key rows w in
      (r ≡ ok tt) × (load_rows (local_store platform) codec key w' ≡ (ok rows, w')) × (w'.db ≡ w.db)
load_rows-save_rows_local platform codec digest c content_hash s rows w hex h inside readable =
    let key = cache_key digest c content_hash s in
    let valid = (cache_key-IsAccepted digest c content_hash s hex h).1 in
    let kept =
      put_bytes-get_bytes platform key valid inside (codec.pack (map asdict rows)) w.storage in
    load_rows-save_rows (local_store platform) codec key rows w kept.0 kept.1 readable

-- Writing an object makes no other one appear.
object_at-put_other :
    (j key partial : String) (b : List ℕ) (o : Objects)
    → str_eq key j ≡ false
    → object_at j o ≡ none
    → object_at j (put_object key b (remove_object partial (put_object partial b o))) ≡ none
object_at-put_other j key partial b o distinct missing =
    object_at-put_object j key b (remove_object partial (put_object partial b o))
    ∙ rw distinct (
        object_at-remove_object j partial (put_object partial b o)
        ∙ elim (Bool-cases (str_eq partial j)) [
          | inl e ↦ rw e refl
          | inr e ↦ rw e (object_at-put_object j partial b o ∙ rw e missing)
        ])

module _ (platform : Platform) (key : String) (valid : validate_key key ≡ ok tt)
    (inside : platform.is_inside key ≡ true) where
  exists-missing : (o : Objects) → object_at key o ≡ none → exists platform key o ≡ ok false
  unfolding exists resolve_key
  exists-missing o e = rw valid (rw inside (rw (e, is_stored) refl))

  missing-exists : (o : Objects) → exists platform key o ≡ ok false → object_at key o ≡ none
  unfolding exists resolve_key
  missing-exists o = elim (Option-cases (object_at key o)) [
    | inl e ↦ λ h. e
    | inr (b, e) ↦ rw valid (rw inside (rw (e, is_stored) (λ h. absurd (ground (arith, h)))))
  ]

  put_bytes-objects :
      (b : List ℕ) (o : Objects)
      → (put_bytes platform key b o).1
        ≡ put_object key b (remove_object (partial key) (put_object (partial key) b o))
  unfolding put_bytes resolve_key
  put_bytes-objects b o = rw valid (rw inside refl)

-- The storage on files takes the artifacts of a content, if the digest gives 16 hexadecimal digits, the
-- hash of the content has 64, and the paths of the keys are inside the root.
pub local_store-IsReliable :
    (platform : Platform) (digest : Digest) (c : Config) (content_hash : String)
    → ((material : String) → is_match (times 16 is_hex) (digest material) ≡ true)
    → is_match (times 64 is_hex) content_hash ≡ true
    → ((s : JobStage) → platform.is_inside (cache_key digest c content_hash s) ≡ true)
    → IsReliable (local_store platform) (cache_key digest c content_hash)
local_store-IsReliable platform digest c content_hash hex h inside =
    let key : JobStage → String = cache_key digest c content_hash in
    let valid : (s : JobStage) → validate_key (key s) ≡ ok tt =
      λ s. (cache_key-IsAccepted digest c content_hash s hex h).1 in
    record {
      put_ok = λ s b o. (put_bytes-get_bytes platform (key s) (valid s) (inside s) b o).0;
      get-put = λ s b o. (put_bytes-get_bytes platform (key s) (valid s) (inside s) b o).1;
      exists-put_missing = λ s t b o distinct missing.
          exists-missing platform (key t) (valid t) (inside t) _ (
            rw (put_bytes-objects platform (key s) (valid s) (inside s) b o) (
              object_at-put_other (key t) (key s) (partial (key s)) b o distinct
                (missing-exists platform (key t) (valid t) (inside t) o missing)));
    }
