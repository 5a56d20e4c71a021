-- ===== src/Storage/Mime.antt =====
-- backend/app/services/storage/mime.py: the detection of a type. A file's first bytes are a list of numbers.
use package.text.Mathlib.Text.{◌==◌ as str_eq}
use doc_mind_ai.Base.{
  ℕ, suc, ◌+◌, ◌*◌, max, String, Bool, true, false, not, ◌&&◌, ◌||◌, Option, none, some, List, [],
  ◌∷◌, map, any, take, length, if◌then◌else◌, ◌==◌, leb, ltb,
}
use doc_mind_ai.Model.Errors.{permanent_error, str, error, Result, ok, raise}
use doc_mind_ai.Storage.Signatures.{
  Bytes, Libraries, mime_to_ext, mime_aliases, text_ext_to_mime, binary_signatures, zip_magic,
  ooxml_markers, html_prefixes, xml_prefixes,
}

unfoldable pub lookup : String → List (String × String) → Option String
lookup k [] = none
lookup k ((j, v) ∷ rest) = if str_eq j k then some v else lookup k rest

abbrev pub or_default : String → Option String → String
or_default d none = d
or_default d (some v) = v

-- `_MIME_ALIASES.get(mime, mime)`
unfoldable pub canonical : String → String
unfolding lookup
canonical mime = or_default mime (lookup mime mime_aliases)

abbrev pub is_in : String → List String → Bool
is_in m l = any (λ n. str_eq n m) l

unfoldable pub starts_with : Bytes → Bytes → Bool
starts_with [] bytes = true
starts_with (b ∷ prefix) [] = false
starts_with (b ∷ prefix) (c ∷ bytes) = b == c && starts_with prefix bytes

-- `marker in head`
unfoldable pub has_marker : Bytes → Bytes → Bool
unfolding starts_with
has_marker marker [] = starts_with marker []
has_marker marker (b ∷ bytes) = starts_with marker (b ∷ bytes) || has_marker marker bytes

abbrev pub is_control : ℕ → Bool
is_control ch = ltb ch 32 && not (ch == 9 || ch == 10 || ch == 13 || ch == 12)

abbrev pub count_controls : List ℕ → ℕ
count_controls [] = 0
count_controls (ch ∷ text) = let n = count_controls text in if is_control ch then suc n else n

-- `controls / max(len(text), 1) < 0.05`
abbrev pub within_budget : Option (List ℕ) → Bool
within_budget none = false
within_budget (some text) = ltb (20 * count_controls text) (max (length text) 1)

abbrev pub has_nul : Bytes → Bool
has_nul bytes = any (λ b. b == 0) (take 4096 bytes)

unfoldable pub first_signature : Bytes → List (Bytes × String) → Option String
unfolding starts_with
first_signature head [] = none
first_signature head ((signature, mime) ∷ rest) =
    if starts_with signature head then some mime else first_signature head rest

unfoldable pub first_marker : Bytes → List (Bytes × String) → Option String
unfolding has_marker
first_marker head [] = none
first_marker head ((marker, mime) ∷ rest) =
    if has_marker marker head then some mime else first_marker head rest

-- `head[:256].lstrip().lower()`
abbrev is_space : ℕ → Bool
is_space b = b == 32 || (leb 9 b && leb b 13)

abbrev strip_left : Bytes → Bytes
strip_left [] = []
strip_left (b ∷ bytes) = let rest = strip_left bytes in if is_space b then rest else b ∷ bytes

abbrev lower_byte : ℕ → ℕ
lower_byte b = if leb 65 b && leb b 90 then b + 32 else b

module _ (libraries : Libraries) where
  unfoldable pub is_probably_text : Bytes → Bool
  is_probably_text [] = false
  is_probably_text (b ∷ bytes) =
      if has_nul (b ∷ bytes)
      then false
      else within_budget (libraries.decode (take 4096 (b ∷ bytes)))

  unfoldable pub match_binary_signature : Bytes → Option String
  unfolding first_signature
  match_binary_signature head = first_signature head binary_signatures

  unfoldable pub match_ooxml : Bytes → Option String
  unfolding first_marker starts_with
  match_ooxml head = if starts_with zip_magic head then first_marker head ooxml_markers else none

  abbrev pub promoted : String → Option String
  promoted filename = lookup (libraries.suffix filename) text_ext_to_mime

  unfoldable pub sniff_text : Bytes → String → Option String
  unfolding is_probably_text starts_with lookup
  sniff_text head filename =
      let lowered = map lower_byte (strip_left (take 256 head)) in
      if not (is_probably_text head)
      then none
      else if any (λ p. starts_with p lowered) html_prefixes
          || any (λ p. starts_with p lowered) xml_prefixes
      then some "text/html"
      else some (or_default "text/plain" (promoted filename))

  -- `if mime in _GENERIC_MIMES`
  abbrev pub is_generic : String → Bool
  is_generic mime = is_in mime ("application/octet-stream" ∷ "text/plain" ∷ [])

  unfoldable pub libmagic_lookup : Bytes → String → String
  unfolding canonical is_probably_text lookup
  libmagic_lookup head filename =
      let mime = canonical (libraries.from_buffer head) in
      if is_generic mime && is_probably_text head then or_default mime (promoted filename) else mime

  -- What follows the search for a signature.
  unfoldable pub resolve : Bytes → String → Option String → String
  unfolding match_ooxml sniff_text libmagic_lookup canonical starts_with
  resolve head filename (some mime) = canonical mime
  resolve head filename none =
      if starts_with zip_magic head
      then or_default (libmagic_lookup head filename) (match_ooxml head)
      else or_default (libmagic_lookup head filename) (sniff_text head filename)

  unfoldable pub detect_raw : Bytes → String → String
  unfolding match_binary_signature resolve
  detect_raw head filename = resolve head filename (match_binary_signature head)

  -- The list of the allowed types is left out of the message.
  abbrev pub accept : List String → String → Result String
  accept allowed mime =
      if is_in mime allowed
      then ok mime
      else raise
          (error permanent_error (str "Detected MIME '" ∷ str mime ∷ str "' is not accepted." ∷ []))

  unfoldable pub detect_mime : Bytes → String → List String → Result String
  unfolding detect_raw
  detect_mime [] filename allowed = raise (error permanent_error (str "Empty file" ∷ []))
  detect_mime (b ∷ bytes) filename allowed = accept allowed (detect_raw (b ∷ bytes) filename)

  unfoldable pub extension_for : String → String
  unfolding lookup
  extension_for mime = or_default ".bin" (lookup mime mime_to_ext)
