-- ===== src/Evaluation/Metrics.antt =====
-- backend/app/rag/evaluation/metrics.py: the metrics on the first `k` results that need no logarithm. A float
-- is the exact fraction, and the set `gold` a list of different ids.
use package.text.Mathlib.Text.{◌==◌ as str_eq}
use doc_mind_ai.Base.{
  ℕ, suc, String, Bool, true, false, ◌||◌, List, [], ◌∷◌, if◌then◌else◌, ◌==◌, length, take, select,
  any,
}

pub record Ratio : Type 0 where
  pub numerator : ℕ
  pub denominator : ℕ

abbrev pub nothing : Ratio
nothing = record { numerator = 0; denominator = 1 }

abbrev pub is_in : List String → String → Bool
is_in ids r = any (str_eq r) ids

-- `not gold`
abbrev pub is_empty : List String → Bool
is_empty [] = true
is_empty (g ∷ gold) = false

unfoldable pub hit_at_k : List String → List String → ℕ → Ratio
hit_at_k retrieved gold k = if is_empty gold then nothing else record {
  numerator = if any (is_in gold) (take k retrieved) then 1 else 0;
  denominator = 1;
}

unfoldable pub precision_at_k : List String → List String → ℕ → Ratio
precision_at_k retrieved gold k =
    if is_empty gold || k == 0
    then nothing
    else record { numerator = length (select (is_in gold) (take k retrieved)); denominator = k }

-- `len(top & gold)`: the ids of `gold` that are among the results.
unfoldable pub recall_at_k : List String → List String → ℕ → Ratio
recall_at_k retrieved gold k = if is_empty gold then nothing else record {
  numerator = length (select (is_in (take k retrieved)) gold);
  denominator = length gold;
}

-- `1.0 / i` for the first relevant result, counted from `i`.
unfoldable pub first_hit : List String → ℕ → List String → Ratio
first_hit gold i [] = nothing
first_hit gold i (r ∷ rest) =
    let later = first_hit gold (suc i) rest in
    if is_in gold r then record { numerator = 1; denominator = i } else later

unfoldable pub mrr_at_k : List String → List String → ℕ → Ratio
unfolding first_hit
mrr_at_k retrieved gold k = if is_empty gold then nothing else first_hit gold 1 (take k retrieved)
