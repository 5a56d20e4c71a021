-- ===== src/Stages/Complete.antt =====
-- The five tasks with their own bodies, for a new document.
use package.text.Mathlib.Text.{◌==◌ as str_eq}
use doc_mind_ai.Base.{ℕ, ◌≡◌, false, String}
use doc_mind_ai.Model.Enums.{extract, clean}
use doc_mind_ai.Storage.Keys.{Config, Digest, cache_key}
use doc_mind_ai.Worker.Keeps.{IsFresh}
use doc_mind_ai.Worker.Stage.{World, Env, accepted}
use doc_mind_ai.Stages.Artifacts.{Store}
use doc_mind_ai.Stages.Bodies.{Tools, body_of}
use doc_mind_ai.Stages.Pipeline.{alone, Waits}
use doc_mind_ai.Stages.Liveness.{runs, all_stages, IsComplete, runs-IsComplete}
use doc_mind_ai.Stages.Delivery.{
  key, needs, nothing, do_extract-Delivers, do_clean-Delivers, do_chunk-Delivers, do_embed-Delivers,
  do_index-Delivers,
}
use doc_mind_ai.Stages.Conversion.{IsReliable, Conversion}

module _ {Parsed : Type 0} (digest : Digest) (config : Config) (store : Store)
    (tools : Tools Parsed) (fresh : ℕ → ℕ) (expected : ℕ) (hash file : String)
    (reliable : IsReliable store (cache_key digest config hash))
    (it : Conversion tools expected) where
  -- A document that waits for its extract stage, with its file in the storage and neither the
  -- parsed nor the cleaned artifact cached, is INDEXED with the time of the last run after the
  -- five stages have run one after the other with their own bodies, each for the task that the run
  -- before it put into the queue; the runs put the tasks of clean, chunk, embed and index into the
  -- queue, in this order. Condition: no one else changes anything meanwhile, redis accepts, new
  -- ids are not in use, the storage takes the artifact of each stage under its key, as the storage
  -- on files does, the cache keys of extract and clean differ, each tool returns on this file,
  -- rows and documents can be read back, there is a chunk, no two chunks have the same index, and
  -- their vectors have the expected dimension.
  pub body_of-IsComplete :
      (env : Env) (new : IsFresh env.new_id)
      (accepts : (v : World) (n : ℕ) → env.redis v n ≡ accepted)
      (distinct : str_eq
          (key digest config store tools fresh expected hash file reliable it extract)
          (key digest config store tools fresh expected hash file reliable it clean)
        ≡ false)
      (d i : ℕ) (w : World)
      → Waits
          (needs digest config store tools fresh expected hash file reliable it extract)
          extract
          d
          i
          w
      → IsComplete env d w
          (runs (alone env) (body_of digest config store tools fresh expected) all_stages i w)
  unfolding body_of
  body_of-IsComplete env new accepts distinct =
      runs-IsComplete env new accepts (body_of digest config store tools fresh expected)
        (needs digest config store tools fresh expected hash file reliable it)
        (nothing digest config store tools fresh expected hash file reliable it)
        (do_extract-Delivers digest config store tools fresh expected hash file reliable it
          distinct)
        (do_clean-Delivers digest config store tools fresh expected hash file reliable it)
        (do_chunk-Delivers digest config store tools fresh expected hash file reliable it)
        (do_embed-Delivers digest config store tools fresh expected hash file reliable it)
        (do_index-Delivers digest config store tools fresh expected hash file reliable it)
