-- ===== src/Examples/Types.antt =====
-- The keys and the type of a picture, and of bytes that look like no text.
use doc_mind_ai.Base.{ℕ, String, All, ◌≡◌, ◌≢◌, refl, false, none, List, [], ◌∷◌}
use doc_mind_ai.Storage.Signatures.{Libraries}
use doc_mind_ai.Storage.Mime.{extension_for}
use doc_mind_ai.Model.Errors.{ok}
use doc_mind_ai.Storage.Keys.{Config, all_artifact_keys}
use doc_mind_ai.Storage.Validation.{
  validate_key, is_pipeline_key, key_for, times, matches, characters,
}
use doc_mind_ai.Storage.Accepted.{IsAccepted, validate_key-accepts}
use doc_mind_ai.Storage.Spaced.{starts, has_dots}
use doc_mind_ai.Storage.Confined.{validate_key-confined}

-- libmagic that knows nothing.
abbrev libraries : Libraries
libraries = record {
  from_buffer = λ head. "application/octet-stream";
  decode = λ bytes. none;
  suffix = λ filename. ".md";
}

abbrev png : List ℕ
png = 137 ∷ 80 ∷ 78 ∷ 71 ∷ 13 ∷ 10 ∷ 26 ∷ 10 ∷ 0 ∷ 0 ∷ []

abbrev config : Config
config = record {
  extract_version = "1";
  clean_version = "1";
  chunk_version = "1";
  embed_version = "1";
  index_version = "1";
  docling = "2.0";
  sentence_transformers = "3.0";
  max_tokens = "512";
  overlap_tokens = "64";
  content_budget = "450";
  name = "minilm";
  dimension = "384";
}

abbrev hash : String
hash = "0123456789abcdef0123456789abcdef0123456789abcdef0123456789abcdef"

abbrev owner : String
owner = "123e4567-e89b-12d3-a456-426614174000"

validate_key-accepts_example :
    (validate_key (key_for owner hash (extension_for libraries "image/png")) ≡ ok tt)
    × All IsAccepted (all_artifact_keys (λ material. "0123456789abcdef") config hash)
unfolding matches times characters
validate_key-accepts_example =
    validate_key-accepts libraries (λ material. "0123456789abcdef") config owner hash "image/png"
      refl refl (λ material. refl)

abbrev artifact : String
artifact =
    "_pipeline/cache/0123456789abcdef/0123456789abcdef0123456789abcdef0123456789abcdef0123456789abcdef/clean.json.gz"

validate_key-confined_example :
    (starts 47 (characters artifact) ≡ false) × (has_dots (characters artifact) ≡ false)
unfolding validate_key matches times characters
validate_key-confined_example = validate_key-confined artifact refl

-- What is no key.
absolute : validate_key "/etc/passwd" ≢ ok tt
unfolding validate_key matches times characters
absolute e = cc (e)

climbing : is_pipeline_key "_pipeline/cache/../../secrets.json.gz" ≡ false
unfolding is_pipeline_key matches times characters
climbing = refl
