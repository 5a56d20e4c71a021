-- ===== src/Storage/Confined.antt =====
-- Why an accepted key cannot leave the root of a storage.
use Prim.Native.Char.{code}
use doc_mind_ai.Base.{
  ℕ, ◌≡◌, refl, String, Bool, true, false, ◌||◌, inl, inr, ◌∷◌, if◌then◌else◌, ◌==◌, arith,
}
use doc_mind_ai.Model.Errors.{Error, ok, Result, raise}
use doc_mind_ai.Storage.Validation.{
  many, characters, times, literally, is_hex, is_alphanumeric, is_word, is_match, key_pattern,
  pipeline_key_pattern, uuid_pattern, extension_pattern, validate_key,
}
use doc_mind_ai.Storage.Matched.{either}
use doc_mind_ai.Storage.Spaced.{
  starts, has_dots, Lacks, Avoids, Spaced, Avoids-starts, Spaced-has_dots, Spaced-times,
  Spaced-literally, IsSpaced, joined,
}

hex : Lacks 46 is_hex
hex c e = rw e refl

alphanumeric : Lacks 46 is_alphanumeric
alphanumeric c e = rw e refl

word : Lacks 46 is_word
word c e = rw e refl

hex_run : (n : ℕ) → IsSpaced (times n is_hex)
hex_run n = record { spaced = Spaced-times n is_hex hex }

dash : IsSpaced (literally "-")
unfolding characters
dash = record { spaced = Spaced-literally "-" refl }

slash : IsSpaced (literally "/")
unfolding characters
slash = record { spaced = Spaced-literally "/" refl }

extension : IsSpaced extension_pattern
unfolding Spaced Avoids characters
extension = record {
  spaced = (
    inr alphanumeric,
    (inl alphanumeric, (alphanumeric, (alphanumeric, (alphanumeric, (alphanumeric, tt))))),
  );
}

folder : IsSpaced (literally "_pipeline/cache")
unfolding characters
folder = record { spaced = Spaced-literally "_pipeline/cache" refl }

file : IsSpaced (many is_word ∷ literally ".json.gz")
unfolding Spaced Avoids characters
file =
    let lacks : (n : ℕ) → (46 == n) ≡ false → Lacks 46 (λ d. code d == n) =
      λ n e c k. ground (arith, e, k) in
    record {
      spaced = (
        word,
        (
          inr (lacks 106 refl),
          (
            inl (lacks 106 refl),
            (
              inl (lacks 115 refl),
              (
                inl (lacks 111 refl),
                (
                  inl (lacks 110 refl),
                  (inr (lacks 103 refl), (inl (lacks 103 refl), (inl (lacks 122 refl), tt))),
                ),
              ),
            ),
          ),
        ),
      );
    }

uuid : IsSpaced uuid_pattern
unfolding times characters
uuid = joined (hex_run 8) (
    joined dash (
      joined (hex_run 4) (
        joined dash
          (joined (hex_run 4) (joined dash (joined (hex_run 4) (joined dash (hex_run 12))))))))

key : IsSpaced key_pattern
unfolding times characters
key = joined uuid (joined slash (joined (hex_run 2) (joined slash (joined (hex_run 64) extension))))

pipeline_key : IsSpaced pipeline_key_pattern
unfolding times characters
pipeline_key =
    joined folder
      (joined slash (joined (hex_run 16) (joined slash (joined (hex_run 64) (joined slash file)))))

passed :
    (b : Bool) (e : Error) (r : Result (Unit {0})) → (if b then r else raise e) ≡ ok tt → b ≡ true
passed true e r h = refl
passed false e r h = absurd (ground (arith, h))

key-Avoids : Avoids 47 key_pattern
unfolding Avoids times
key-Avoids = λ c e. rw e refl

pipeline_key-Avoids : Avoids 47 pipeline_key_pattern
unfolding Avoids characters
pipeline_key-Avoids = λ c e. rw e refl

-- A key that passes the validation does not start with a slash and has no two dots in a row, so
-- that the path of the key below the root of a storage is neither absolute nor climbs out of it.
pub validate_key-confined :
    (k : String)
    → validate_key k ≡ ok tt
    → (starts 47 (characters k) ≡ false) × (has_dots (characters k) ≡ false)
unfolding validate_key
validate_key-confined k h =
    let e = passed (is_match key_pattern k || is_match pipeline_key_pattern k) _ (ok tt) h in
    elim (either (is_match key_pattern k) (is_match pipeline_key_pattern k) e) [
      | inl m ↦ (
        Avoids-starts 47 key_pattern (characters k) key-Avoids m,
        Spaced-has_dots key_pattern (characters k) key.spaced m,
      )
      | inr m ↦ (
        Avoids-starts 47 pipeline_key_pattern (characters k) pipeline_key-Avoids m,
        Spaced-has_dots pipeline_key_pattern (characters k) pipeline_key.spaced m,
      )
    ]
