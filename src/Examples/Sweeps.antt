-- ===== src/Examples/Sweeps.antt =====
-- Runs of the sweeper, and cache keys.
use package.text.Mathlib.Text.{◌==◌ as str_eq}
use package.text.Mathlib.TextEquality.{eq_iff}
use doc_mind_ai.Base.{
  ℕ, ◌+◌, ◌≤◌, ◌≡◌, refl, sym, ◌∙◌, inl, Bool, true, false, String, Option, none, some, List, [],
  ◌∷◌, length, find, arith, if◌then◌else◌, Bool-cases, inr,
}
use doc_mind_ai.Model.Enums.{
  DocumentStatus, JobStage, extract, clean, chunk, embed, index, stage_value, failed,
}
use doc_mind_ai.Model.Errors.{ok}
use doc_mind_ai.Model.Rows.{get_job}
use doc_mind_ai.Ingester.Invariant.{IsValid}
use doc_mind_ai.Storage.Keys.{Config, Digest, join_bars, cache_key, stage_config, order_index}
use doc_mind_ai.Storage.Cache.{cache_key-upstream}
use doc_mind_ai.Storage.Backend.{Objects, Backend, object_at}
use doc_mind_ai.Sweeper.Orphans.{UuidOf, contains, delete_orphan, keys_of, sweep_orphans}
use doc_mind_ai.Repositories.Jobs.{list_stuck}
use doc_mind_ai.Sweeper.Live.{sweep_orphans-referenced}
use doc_mind_ai.Sweeper.Bounds.{IsCareful, sweep_orphans-bounds}
use doc_mind_ai.Sweeper.Pipeline.{sweep_pipeline}
use doc_mind_ai.Sweeper.Guarantees.{sweep_pipeline-keeps_rows}
use doc_mind_ai.Examples.Samples.{document, job, over, waiting, accepting}
use doc_mind_ai.Examples.Stages.{IsValid-over, IsValid-waiting}

abbrev pub settings : String → Config
settings name = record {
  extract_version = "1";
  clean_version = "1";
  chunk_version = "1";
  embed_version = "1";
  index_version = "1";
  docling = "2";
  sentence_transformers = "3";
  max_tokens = "512";
  overlap_tokens = "64";
  content_budget = "400";
  name = name;
  dimension = "384";
}

abbrev pub same_text : Digest
same_text s = s

upto_clean :
    (t : JobStage)
    → order_index t ≤ 1
    → stage_config (settings "small") t ≡ stage_config (settings "large") t
unfolding stage_config
upto_clean extract h = refl
upto_clean clean h = refl
upto_clean chunk h = refl
upto_clean embed h = absurd (omega (arith, h))
upto_clean index h = refl

cache_key-upstream_example :
    cache_key same_text (settings "small") "abcd" clean
    ≡ cache_key same_text (settings "large") "abcd" clean
unfolding stage_config
cache_key-upstream_example =
    cache_key-upstream same_text (settings "small") (settings "large") "abcd" clean upto_clean

-- A storage whose deletions remove the object of the key.
unfoldable pub remove : String → Objects → Objects
remove key [] = []
remove key ((k, bytes) ∷ rest) =
    let others = remove key rest in if str_eq k key then others else (k, bytes) ∷ others

abbrev pub memory : Backend
memory = record {
  delete = λ key o. (ok tt, remove key o);
  delete_raw = λ key o. (ok tt, remove key o);
}

remove_other :
    (key other : String) (o : Objects)
    → str_eq key other ≡ false
    → object_at key (remove other o) ≡ object_at key o
unfolding remove object_at
remove_other key other [] h = refl
remove_other key other ((k, bytes) ∷ rest) h = elim (Bool-cases (str_eq k other)) [
  | inl e ↦ elim (Bool-cases (str_eq k key)) [
    | inr f ↦ rw e (rw f (remove_other key other rest h))
    | inl f ↦
        let same : str_eq key other ≡ true =
          (eq_iff key other).1 (sym ((eq_iff k key).0 f) ∙ (eq_iff k other).0 e) in
        absurd (ground (arith, same, h))
  ]
  | inr e ↦ rw e (elim (Bool-cases (str_eq k key)) [
    | inl f ↦ rw f refl
    | inr f ↦ rw f (remove_other key other rest h)
  ])
]

abbrev no_pattern : String → Bool
no_pattern key = false

abbrev no_uuid : UuidOf
no_uuid text = none

-- The source of the document, and a leftover.
abbrev stored : Objects
stored = ("7/ab/report.pdf", 1 ∷ []) ∷ ("7/cd/gone.pdf", 2 ∷ []) ∷ []

abbrev listing : List (String × Option ℕ)
listing = ("7/ab/report.pdf", some 10) ∷ ("7/cd/gone.pdf", some 10) ∷ []

sweep_orphans-referenced_example :
    object_at "7/ab/report.pdf"
      (sweep_orphans same_text
        (settings "small")
        memory
        no_pattern
        no_uuid
        20000
        listing
        over.db
        stored).2
    ≡ object_at "7/ab/report.pdf" stored
unfolding keys_of find
sweep_orphans-referenced_example =
    sweep_orphans-referenced same_text (settings "small") memory no_pattern no_uuid 20000 listing
      over.db stored 1 (document DocumentStatus.failed) "7/ab/report.pdf" refl (inl (refl, refl))
      (λ other o h. remove_other "7/ab/report.pdf" other o h)

memory-IsCareful : IsCareful (delete_orphan memory no_pattern)
memory-IsCareful = record {
  only = λ key other o h. remove_other other key o h;
  raised = λ key o e h. absurd (ground (arith, h));
}

sweep_orphans-bounds_example :
    let (r, t, o') =
      sweep_orphans same_text
        (settings "small")
        memory
        no_pattern
        no_uuid
        20000
        listing
        over.db
        stored in
    ((gone : List String) × (length gone ≡ t.deleted)
      × ((key : String) → contains key gone ≡ false → object_at key o' ≡ object_at key stored))
    × (t.deleted ≤ 1000)
    × (t.deleted + t.skipped_grace ≤ t.scanned)
    × (t.scanned ≤ length listing)
sweep_orphans-bounds_example =
    sweep_orphans-bounds same_text (settings "small") memory no_pattern no_uuid 20000 listing
      over.db stored memory-IsCareful

-- The leftover is deleted.
sweep_orphans_deletes :
    (sweep_orphans same_text
      (settings "small")
      memory
      no_pattern
      no_uuid
      20000
      listing
      over.db
      stored).1.deleted
    ≡ 1
unfolding sweep_orphans remove cache_key join_bars stage_config stage_value
sweep_orphans_deletes = refl

-- The QUEUED job is listed and past the age limit, and others fail it before its turn.
sweep_pipeline-keeps_rows_example :
    let w' = (sweep_pipeline accepting (λ w. over) 50000 waiting).2 in
    IsValid w'.db × (get_job 5 w'.db ≡ some (job extract failed (some 101) (some 102)))
unfolding find list_stuck
sweep_pipeline-keeps_rows_example =
    sweep_pipeline-keeps_rows accepting (λ w. over) 50000 waiting 5
      (job extract failed (some 101) (some 102)) refl (omega arith) refl (λ v p. refl)
      (λ v p. IsValid-over) IsValid-waiting
