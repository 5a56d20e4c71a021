-- ===== src/Storage/Keys.antt =====
-- backend/app/services/storage/keys.py: the cache keys of the pipeline's artifacts. The settings,
-- the versions of the installed packages and the digest are parameters.
use Prim.Native.String.{◌++◌ as append}
use doc_mind_ai.Base.{ℕ, String, Option, none, some, List, [], ◌∷◌, map, drop}
use doc_mind_ai.Model.Enums.{
  JobStage, extract, clean, chunk, embed, index, stage_order, stage_value,
}

-- What `_stage_config` reads, rendered as text.
pub record Config : Type 0 where
  pub extract_version : String
  pub clean_version : String
  pub chunk_version : String
  pub embed_version : String
  pub index_version : String
  pub docling : String
  pub sentence_transformers : String
  pub max_tokens : String
  pub overlap_tokens : String
  pub content_budget : String
  pub name : String
  pub dimension : String

unfoldable pub stage_config : Config → JobStage → List String
stage_config c extract = append "version=" c.extract_version ∷ append "docling=" c.docling ∷ []
stage_config c clean = append "version=" c.clean_version ∷ []
stage_config c chunk =
    append "version=" c.chunk_version
    ∷ append "max_tokens=" c.max_tokens
    ∷ append "overlap=" c.overlap_tokens
    ∷ append "content_budget=" c.content_budget
    ∷ []
stage_config c embed =
    append "version=" c.embed_version
    ∷ append "model=" c.name
    ∷ append "dim=" c.dimension
    ∷ append "sentence_transformers=" c.sentence_transformers
    ∷ []
stage_config c index = append "version=" c.index_version ∷ []

-- `'|'.join(parts)`
unfoldable pub join_bars : List String → String
join_bars [] = ""
join_bars (s ∷ []) = s
join_bars (s ∷ t ∷ rest) = append s (append "|" (join_bars (t ∷ rest)))

-- `hashlib.sha256(material.encode()).hexdigest()[:16]`
abbrev pub Digest : Type 0
Digest = String → String

-- The loop of `_fingerprints`: each stage with its link of the chain.
unfoldable pub chain_from : Digest → Config → String → List JobStage → List (JobStage × String)
chain_from digest c chain [] = []
chain_from digest c chain (s ∷ rest) =
    let link = digest (append chain (append "|" (join_bars (stage_config c s)))) in
    (s, link) ∷ chain_from digest c link rest

unfoldable pub fingerprints : Digest → Config → List (JobStage × String)
unfolding chain_from
fingerprints digest c = chain_from digest c "" stage_order

abbrev pub cache_path : String → JobStage × String → String
cache_path content_hash (s, fp) =
    append "_pipeline/cache/" (
      append fp (append "/" (append content_hash (append "/" (append (stage_value s) ".json.gz")))))

-- `_STAGE_ORDER.index(stage)`
abbrev pub order_index : JobStage → ℕ
order_index extract = 0
order_index clean = 1
order_index chunk = 2
order_index embed = 3
order_index index = 4

unfoldable pub all_artifact_keys : Digest → Config → String → List String
unfolding fingerprints
all_artifact_keys digest c content_hash = map (cache_path content_hash) (fingerprints digest c)

unfoldable pub artifact_keys_from : Digest → Config → String → JobStage → List String
unfolding fingerprints
artifact_keys_from digest c content_hash from_stage =
    map (cache_path content_hash) (drop (order_index from_stage) (fingerprints digest c))

link_of : JobStage → List (JobStage × String) → Option (JobStage × String)
link_of s [] = none
link_of extract ((extract, fp) ∷ rest) = some (extract, fp)
link_of clean ((clean, fp) ∷ rest) = some (clean, fp)
link_of chunk ((chunk, fp) ∷ rest) = some (chunk, fp)
link_of embed ((embed, fp) ∷ rest) = some (embed, fp)
link_of index ((index, fp) ∷ rest) = some (index, fp)
link_of s (_ ∷ rest) = link_of s rest

abbrev path_of : String → Option (JobStage × String) → String
path_of content_hash none = ""
path_of content_hash (some link) = cache_path content_hash link

-- `_cache_key`, and by their stages `parsed_key`, `clean_key`, `chunks_key`, `embedded_chunks_key`.
unfoldable pub cache_key : Digest → Config → String → JobStage → String
unfolding fingerprints link_of
cache_key digest c content_hash s = path_of content_hash (link_of s (fingerprints digest c))
