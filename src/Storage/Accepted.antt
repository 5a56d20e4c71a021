-- ===== src/Storage/Accepted.antt =====
-- Which keys `validate_key` and `delete_raw` accept.
use Prim.Native.Char.{Char}
use Prim.Native.String.{◌++◌ as append}
use doc_mind_ai.Base.{
  ◌≡◌, refl, String, true, false, ◌&&◌, List, [], ◌∷◌, take, All, Bool-cases, inl, inr, arith,
}
use doc_mind_ai.Model.Enums.{JobStage, extract, clean, chunk, embed, index, stage_value}
use doc_mind_ai.Model.Errors.{ok}
use doc_mind_ai.Storage.Signatures.{Libraries, mime_to_ext}
use doc_mind_ai.Storage.Mime.{lookup, or_default, extension_for}
use doc_mind_ai.Storage.Keys.{Config, Digest, all_artifact_keys, cache_key, cache_path}
use package.text.Mathlib.Text.{◌==◌ as str_eq}
use doc_mind_ai.Storage.Validation.{
  is_word, Piece, one, many, matches, characters, times, is_hex, is_match, pipeline_key_pattern,
  is_pipeline_key, validate_key, key_for, first_two, literally, extension_pattern, uuid_pattern,
  key_pattern,
}
use doc_mind_ai.Storage.Matched.{characters-text, both, or_right, IsMatched, joined}

slash : IsMatched (literally "/") "/"
unfolding matches characters
slash = record { matched = refl }

stage_file :
    (s : JobStage)
    → IsMatched (many is_word ∷ literally ".json.gz") (append (stage_value s) ".json.gz")
unfolding matches characters stage_value
stage_file extract = record { matched = refl }
stage_file clean = record { matched = refl }
stage_file chunk = record { matched = refl }
stage_file embed = record { matched = refl }
stage_file index = record { matched = refl }

folder : IsMatched (literally "_pipeline/cache/") "_pipeline/cache/"
unfolding matches characters
folder = record { matched = refl }

-- The key of a cached artifact matches the pattern of the pipeline's keys if its fingerprint has 16 and
-- its hash 64 hexadecimal digits.
cache_path-matches :
    (content_hash fp : String) (s : JobStage)
    → is_match (times 64 is_hex) content_hash ≡ true
    → is_match (times 16 is_hex) fp ≡ true
    → is_match pipeline_key_pattern (cache_path content_hash (s, fp)) ≡ true
unfolding matches times characters
cache_path-matches content_hash fp s h k =
    let hash : IsMatched (times 64 is_hex) content_hash = record { matched = h } in
    let fingerprint : IsMatched (times 16 is_hex) fp = record { matched = k } in
    (joined folder
      (joined fingerprint (joined slash (joined hash (joined slash (stage_file s)))))).matched

-- Both checks of keys pass.
abbrev pub IsAccepted : String → Type 0
IsAccepted key = (is_pipeline_key key ≡ true) × (validate_key key ≡ ok tt)

cache_path-IsAccepted :
    (content_hash fp : String) (s : JobStage)
    → is_match (times 64 is_hex) content_hash ≡ true
    → is_match (times 16 is_hex) fp ≡ true
    → IsAccepted (cache_path content_hash (s, fp))
unfolding is_pipeline_key validate_key
cache_path-IsAccepted content_hash fp s h k =
    let key = cache_path content_hash (s, fp) in
    let e = cache_path-matches content_hash fp s h k in
    (e, rw (or_right (is_match key_pattern key) (is_match pipeline_key_pattern key) e) refl)

-- If the digest gives 16 hexadecimal digits for every text, and the hash of a content has 64, then every
-- key that the pipeline keeps an artifact of that content under passes the validation of a backend, and
-- `delete_raw` accepts it.
all_artifact_keys-IsAccepted :
    (digest : Digest) (c : Config) (content_hash : String)
    → ((material : String) → is_match (times 16 is_hex) (digest material) ≡ true)
    → is_match (times 64 is_hex) content_hash ≡ true
    → All IsAccepted (all_artifact_keys digest c content_hash)
unfolding all_artifact_keys
all_artifact_keys-IsAccepted digest c content_hash hex h =
    let accepted : (m : String) (s : JobStage)
        → IsAccepted (cache_path content_hash (s, digest m)) =
      λ m s. cache_path-IsAccepted content_hash (digest m) s h (hex m) in
    (
      accepted _ extract,
      (accepted _ clean, (accepted _ chunk, (accepted _ embed, (accepted _ index, tt)))),
    )

-- The same of the key of one stage.
pub cache_key-IsAccepted :
    (digest : Digest) (c : Config) (content_hash : String) (s : JobStage)
    → ((material : String) → is_match (times 16 is_hex) (digest material) ≡ true)
    → is_match (times 64 is_hex) content_hash ≡ true
    → IsAccepted (cache_key digest c content_hash s)
unfolding cache_key
cache_key-IsAccepted digest c content_hash extract hex h =
    cache_path-IsAccepted content_hash _ extract h (hex _)
cache_key-IsAccepted digest c content_hash clean hex h =
    cache_path-IsAccepted content_hash _ clean h (hex _)
cache_key-IsAccepted digest c content_hash chunk hex h =
    cache_path-IsAccepted content_hash _ chunk h (hex _)
cache_key-IsAccepted digest c content_hash embed hex h =
    cache_path-IsAccepted content_hash _ embed h (hex _)
cache_key-IsAccepted digest c content_hash index hex h =
    cache_path-IsAccepted content_hash _ index h (hex _)

-- The first two of the digits.
first_two-matches :
    (r : List Piece) (s : List Char)
    → matches (one is_hex ∷ one is_hex ∷ r) s ≡ true
    → matches (times 2 is_hex) (take 2 s) ≡ true
unfolding matches times
first_two-matches r [] h = absurd (ground (arith, h))
first_two-matches r (c ∷ []) h = absurd (ground (arith, (both (is_hex c) false h).1))
first_two-matches r (c ∷ d ∷ s) h =
    let e = both (is_hex c) (is_hex d && matches r s) h in
    rw (e.0, (both (is_hex d) (matches r s) e.1).0) refl

-- Every value of a table, and the default, pass.
lookup-IsMatch :
    (p : List Piece) (d m : String) (t : List (String × String))
    → is_match p d ≡ true
    → All (λ e. is_match p e.1 ≡ true) t
    → is_match p (or_default d (lookup m t)) ≡ true
unfolding lookup
lookup-IsMatch p d m [] h all = h
lookup-IsMatch p d m ((j, v) ∷ rest) h all = elim (Bool-cases (str_eq j m)) [
  | inl e ↦ rw e all.0
  | inr e ↦ rw e (lookup-IsMatch p d m rest h all.1)
]

extension_for-matches :
    (libraries : Libraries) (mime : String)
    → is_match extension_pattern (extension_for libraries mime) ≡ true
unfolding extension_for matches characters
extension_for-matches libraries mime =
    lookup-IsMatch extension_pattern ".bin" mime mime_to_ext refl
      (refl, (refl, (refl, (refl, (refl, (refl, (refl, (refl, (refl, (refl, tt))))))))))

-- The key of an upload passes the validation of a backend, whatever the type of the file, if the id of
-- the user has the form of a UUID and the hash 64 hexadecimal digits.
pub key_for-accepted :
    (libraries : Libraries) (user_id content_hash mime : String)
    → is_match uuid_pattern user_id ≡ true
    → is_match (times 64 is_hex) content_hash ≡ true
    → validate_key (key_for user_id content_hash (extension_for libraries mime)) ≡ ok tt
unfolding validate_key key_for matches times characters
key_for-accepted libraries user_id content_hash mime u h =
    let two = first_two-matches (times 62 is_hex) (characters content_hash) h in
    let begin : is_match (times 2 is_hex) (first_two content_hash) ≡ true =
      rw (characters-text (take 2 (characters content_hash))) two in
    let user : IsMatched uuid_pattern user_id = record { matched = u } in
    let first : IsMatched (times 2 is_hex) (first_two content_hash) = record { matched = begin } in
    let hash : IsMatched (times 64 is_hex) content_hash = record { matched = h } in
    let ending : IsMatched extension_pattern (extension_for libraries mime) = record {
      matched = extension_for-matches libraries mime;
    } in
    rw ((joined user (joined slash (joined first (joined slash (joined hash ending))))).matched)
      refl

-- Every key that the program composes passes the validation of a backend: the key of an upload,
-- whatever the type of the file is, and the keys of the artifacts of its content, which delete_raw
-- accepts too. Condition: the id of the user has the form of a UUID, the hash of the content has
-- 64 hexadecimal digits, and the digest of the fingerprints gives 16 for every text.
pub validate_key-accepts :
    (libraries : Libraries) (digest : Digest) (c : Config) (user_id content_hash mime : String)
    → is_match uuid_pattern user_id ≡ true
    → is_match (times 64 is_hex) content_hash ≡ true
    → ((material : String) → is_match (times 16 is_hex) (digest material) ≡ true)
    → (validate_key (key_for user_id content_hash (extension_for libraries mime)) ≡ ok tt)
      × All IsAccepted (all_artifact_keys digest c content_hash)
validate_key-accepts libraries digest c user_id content_hash mime u h hex = (
  key_for-accepted libraries user_id content_hash mime u h,
  all_artifact_keys-IsAccepted digest c content_hash hex h,
)
