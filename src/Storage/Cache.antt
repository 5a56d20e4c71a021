-- ===== src/Storage/Cache.antt =====
-- Which configurations share a cached artifact, and which keys a reprocessing deletes.
use doc_mind_ai.Base.{◌≡◌, ◌≤◌, refl, String, ◌++◌, map, take, drop, arith}
use doc_mind_ai.Model.Enums.{JobStage, extract, clean, chunk, embed, index, stage_order}
use doc_mind_ai.Storage.Keys.{
  Config, Digest, stage_config, order_index, cache_key, all_artifact_keys, artifact_keys_from,
}

-- Two configurations that agree on a stage and on all stages before it give that stage the same
-- cache key for the same content, so a change of a later stage keeps the earlier artifacts.
pub cache_key-upstream :
    (digest : Digest) (c d : Config) (content_hash : String) (s : JobStage)
    → ((t : JobStage) → order_index t ≤ order_index s → stage_config c t ≡ stage_config d t)
    → cache_key digest c content_hash s ≡ cache_key digest d content_hash s
unfolding cache_key
cache_key-upstream digest c d h extract same = rw (same extract (omega arith))
cache_key-upstream digest c d h clean same =
    rw (same extract (omega arith), same clean (omega arith))
cache_key-upstream digest c d h chunk same =
    rw (same extract (omega arith), same clean (omega arith), same chunk (omega arith))
cache_key-upstream digest c d h embed same = rw (
  same extract (omega arith),
  same clean (omega arith),
  same chunk (omega arith),
  same embed (omega arith),
)
cache_key-upstream digest c d h index same = rw (
  same extract (omega arith),
  same clean (omega arith),
  same chunk (omega arith),
  same embed (omega arith),
  same index (omega arith),
)

-- The keys that a reprocessing from a stage deletes are the cache keys of that stage and of the
-- stages after it, and with the keys of the stages before it they are all artifact keys.
pub artifact_keys_from-suffix :
    (digest : Digest) (c : Config) (content_hash : String) (s : JobStage)
    → (artifact_keys_from digest c content_hash s
        ≡ map (cache_key digest c content_hash) (drop (order_index s) stage_order))
      × (map (cache_key digest c content_hash) (take (order_index s) stage_order)
            ++ artifact_keys_from digest c content_hash s
          ≡ all_artifact_keys digest c content_hash)
unfolding artifact_keys_from all_artifact_keys cache_key
artifact_keys_from-suffix digest c h extract = (refl, refl)
artifact_keys_from-suffix digest c h clean = (refl, refl)
artifact_keys_from-suffix digest c h chunk = (refl, refl)
artifact_keys_from-suffix digest c h embed = (refl, refl)
artifact_keys_from-suffix digest c h index = (refl, refl)
