-- ===== src/Storage/Detection.antt =====
-- What the detection of file types accepts.
use mathlib.Core.Bool.{true≢false}
use package.text.Mathlib.TextEquality.{eq_iff}
use doc_mind_ai.Base.{
  ◌≡◌, ◌≢◌, refl, sym, ap, ◌∙◌, String, true, false, Option, none, some, List, [], ◌∷◌, ◌++◌, map,
  All, Bool-cases, inl, inr, arith,
}
use package.text.Mathlib.Text.{◌==◌ as str_eq}
use doc_mind_ai.Model.Errors.{ok}
use doc_mind_ai.Storage.Signatures.{Bytes, Libraries, allowed_mimes, mime_to_ext, binary_signatures}
use doc_mind_ai.Storage.Mime.{
  resolve, accept, lookup, or_default, is_in, has_nul, match_binary_signature, is_probably_text,
  sniff_text, libmagic_lookup, is_generic, canonical, detect_raw, detect_mime, extension_for,
}

-- Every signature of the table is found, and none before it in the table is taken for it.
match_binary_signature-table :
    (libraries : Libraries) (rest : Bytes)
    → All (λ s. match_binary_signature libraries (s.0 ++ rest) ≡ some s.1) binary_signatures
unfolding match_binary_signature
match_binary_signature-table libraries rest = (
  refl,
  (refl, (refl, (refl, (refl, (refl, (refl, (refl, (refl, (refl, (refl, (refl, tt))))))))))),
)

-- A value of a table that does not hold the default is found at each of its keys.
lookup-is_in :
    (d m : String) (t : List (String × String))
    → All (λ e. e.1 ≢ d) t
    → is_in m (map (λ e. e.0) t) ≡ true
    → or_default d (lookup m t) ≢ d
unfolding lookup
lookup-is_in d m [] all h = absurd (ground (arith, h))
lookup-is_in d m ((j, v) ∷ rest) all h = elim (Bool-cases (str_eq j m)) [
  | inl e ↦ rw e all.0
  | inr e ↦ rw e (lookup-is_in d m rest all.1 (ground (arith, e, h)))
]

differs : (s d : String) → str_eq s d ≡ false → s ≢ d
differs s d h e = true≢false (sym ((eq_iff s d).1 e) ∙ h)

-- No type has the extension of unknown ones.
named : All (λ e. e.1 ≢ ".bin") mime_to_ext
named = (
  differs ".pdf" ".bin" refl,
  (
    differs ".docx" ".bin" refl,
    (
      differs ".pptx" ".bin" refl,
      (
        differs ".xlsx" ".bin" refl,
        (
          differs ".txt" ".bin" refl,
          (
            differs ".md" ".bin" refl,
            (
              differs ".html" ".bin" refl,
              (
                differs ".png" ".bin" refl,
                (differs ".jpg" ".bin" refl, (differs ".tiff" ".bin" refl, tt)),
              ),
            ),
          ),
        ),
      ),
    ),
  ),
)

module _ (libraries : Libraries) where
  is_probably_text-has_nul :
      (head : Bytes) → has_nul head ≡ true → is_probably_text libraries head ≡ false
  unfolding is_probably_text
  is_probably_text-has_nul [] h = refl
  is_probably_text-has_nul (b ∷ bytes) h = rw h refl

  libmagic_lookup-has_nul :
      (head : Bytes) (f g : String)
      → has_nul head ≡ true
      → libmagic_lookup libraries head f ≡ libmagic_lookup libraries head g
  unfolding libmagic_lookup
  libmagic_lookup-has_nul head f g h =
      elim (Bool-cases (is_generic libraries (canonical (libraries.from_buffer head)))) [
        | inl e ↦ rw e (rw (is_probably_text-has_nul head h) refl)
        | inr e ↦ rw e refl
      ]

  sniff_text-has_nul :
      (head : Bytes) (f g : String)
      → has_nul head ≡ true
      → sniff_text libraries head f ≡ sniff_text libraries head g
  unfolding sniff_text
  sniff_text-has_nul head f g h = rw (is_probably_text-has_nul head h) refl

  resolve-has_nul :
      (head : Bytes) (f g : String) (found : Option String)
      → has_nul head ≡ true
      → resolve libraries head f found ≡ resolve libraries head g found
  unfolding resolve
  resolve-has_nul head f g (some mime) h = refl
  resolve-has_nul head f g none h =
      rw (libmagic_lookup-has_nul head f g h) (rw (sniff_text-has_nul head f g h) refl)

  -- For a file with a NUL among its first 4096 bytes the name of the file does not matter:
  -- detect_mime gives or refuses the same type under every name, so that no binary file is taken
  -- for text because of its extension.
  pub detect_mime-has_nul :
      (head : Bytes) (f g : String) (allowed : List String)
      → has_nul head ≡ true
      → detect_mime libraries head f allowed ≡ detect_mime libraries head g allowed
  unfolding detect_mime detect_raw
  detect_mime-has_nul [] f g allowed h = refl
  detect_mime-has_nul (b ∷ bytes) f g allowed h =
      ap (accept libraries allowed)
        (resolve-has_nul (b ∷ bytes) f g (match_binary_signature libraries (b ∷ bytes)) h)

  accept-ok :
      (allowed : List String) (mime m : String)
      → accept libraries allowed mime ≡ ok m
      → is_in m allowed ≡ true
  accept-ok allowed mime m = elim (Bool-cases (is_in mime allowed)) [
    | inl e ↦ rw e (λ h. let same : mime ≡ m = ground (arith, h) in rw (sym same) e)
    | inr e ↦ rw e (λ h. absurd (ground (arith, h)))
  ]

  -- A type that detect_mime returns for the default list is on that list, whatever libmagic says,
  -- and extension_for gives it an extension of its own, not the one of unknown types.
  detect_mime-accepted :
      (head : Bytes) (filename mime : String)
      → detect_mime libraries head filename allowed_mimes ≡ ok mime
      → (is_in mime allowed_mimes ≡ true) × (extension_for libraries mime ≢ ".bin")
  unfolding detect_mime extension_for
  detect_mime-accepted [] filename mime e = absurd (ground (arith, e))
  detect_mime-accepted (b ∷ bytes) filename mime e =
      let known = accept-ok allowed_mimes (detect_raw libraries (b ∷ bytes) filename) mime e in
      (known, lookup-is_in ".bin" mime mime_to_ext named known)
