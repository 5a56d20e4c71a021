-- ===== src/Storage/Validation.antt =====
-- backend/app/services/storage/base.py: the keys that a backend accepts, and `key_for` of
-- backend/app/services/storage/local.py. A regular expression is the sequence of its pieces.
use Prim.Native.Char.{Char, code}
use Prim.Native.String.{◌++◌ as append, [] as empty, ◌∷◌ as ◌∷ˢ◌}
use doc_mind_ai.Base.{
  ℕ, zero, suc, String, Bool, true, false, ◌&&◌, ◌||◌, List, [], ◌∷◌, ◌++◌, map, take,
  if◌then◌else◌, ◌==◌, leb,
}
use doc_mind_ai.Model.Errors.{invalid_key, str, error, Result, ok, raise}

unfoldable pub characters : String → List Char
characters empty = []
characters (c ∷ˢ s) = c ∷ characters s

abbrev pub text : List Char → String
text [] = empty
text (c ∷ s) = c ∷ˢ text s

-- A character of a class: once, at most once, or at least once.
pub data Piece : Type 0 where
  one : (Char → Bool) → Piece
  maybe : (Char → Bool) → Piece
  many : (Char → Bool) → Piece

-- Whether the whole text matches, with the backtracking of `re`.
unfoldable pub matches : List Piece → List Char → Bool
matches [] [] = true
matches [] (c ∷ s) = false
matches (one p ∷ r) [] = false
matches (one p ∷ r) (c ∷ s) = p c && matches r s
matches (maybe p ∷ r) [] = matches r []
matches (maybe p ∷ r) (c ∷ s) = matches r (c ∷ s) || (p c && matches r s)
matches (many p ∷ r) [] = false
matches (many p ∷ r) (c ∷ s) = p c && (matches r s || matches (many p ∷ r) s)

-- `{n}`
unfoldable pub times : ℕ → (Char → Bool) → List Piece
times zero p = []
times (suc n) p = one p ∷ times n p

abbrev pub literally : String → List Piece
literally s = map (λ c. one (λ d. code d == code c)) (characters s)

abbrev pub is_digit : Char → Bool
is_digit c = leb 48 (code c) && leb (code c) 57

-- `[0-9a-f]`
abbrev pub is_hex : Char → Bool
is_hex c = is_digit c || (leb 97 (code c) && leb (code c) 102)

-- `[a-z0-9]`
abbrev pub is_alphanumeric : Char → Bool
is_alphanumeric c = is_digit c || (leb 97 (code c) && leb (code c) 122)

-- `[a-z0-9_]`
abbrev pub is_word : Char → Bool
is_word c = is_alphanumeric c || (code c == 95)

abbrev pub uuid_pattern : List Piece
uuid_pattern =
    times 8 is_hex
    ++ literally "-"
    ++ times 4 is_hex
    ++ literally "-"
    ++ times 4 is_hex
    ++ literally "-"
    ++ times 4 is_hex
    ++ literally "-"
    ++ times 12 is_hex

-- `\.[a-z0-9]{1,5}`
abbrev pub extension_pattern : List Piece
extension_pattern =
    literally "."
    ++ (one is_alphanumeric
        ∷ maybe is_alphanumeric
        ∷ maybe is_alphanumeric
        ∷ maybe is_alphanumeric
        ∷ maybe is_alphanumeric
        ∷ [])

-- `_KEY_RE`
abbrev pub key_pattern : List Piece
key_pattern =
    uuid_pattern
    ++ literally "/"
    ++ times 2 is_hex
    ++ literally "/"
    ++ times 64 is_hex
    ++ extension_pattern

-- `_PIPELINE_KEY_RE`
abbrev pub pipeline_key_pattern : List Piece
pipeline_key_pattern =
    literally "_pipeline/cache"
    ++ literally "/"
    ++ times 16 is_hex
    ++ literally "/"
    ++ times 64 is_hex
    ++ literally "/"
    ++ (many is_word ∷ literally ".json.gz")

abbrev pub is_match : List Piece → String → Bool
is_match p s = matches p (characters s)

unfoldable pub validate_key : String → Result (Unit {0})
validate_key key =
    if is_match key_pattern key || is_match pipeline_key_pattern key
    then ok tt
    else raise (error invalid_key (str "invalid storage key: " ∷ str key ∷ []))

-- `content_hash[:2]`
abbrev pub first_two : String → String
first_two s = text (take 2 (characters s))

-- The check that `delete_raw` makes.
unfoldable pub is_pipeline_key : String → Bool
is_pipeline_key key = is_match pipeline_key_pattern key

unfoldable pub key_for : String → String → String → String
key_for user_id content_hash extension =
    append user_id
      (append "/" (append (first_two content_hash) (append "/" (append content_hash extension))))
