-- ===== src/Evaluation/Ranks.antt =====
-- backend/app/rag/evaluation/metrics.py, `ndcg_at_k` and `rank_metrics`. The arithmetic of the floats is a parameter, and so
-- is the function `log2` of Python's `math`.
use doc_mind_ai.Base.{
  ℕ, zero, suc, ◌+◌, String, Option, none, some, List, [], ◌∷◌, ◌++◌, map, if◌then◌else◌, length,
  take, min, select, ◌==◌, ◌||◌,
}
use doc_mind_ai.Model.Errors.{Text, str, number}
use doc_mind_ai.Retrieval.Ranking.{Arithmetic}
use doc_mind_ai.Evaluation.Metrics.{
  Ratio, is_in, is_empty, hit_at_k, precision_at_k, recall_at_k, mrr_at_k,
}

module _ {Score : Type 0} (a : Arithmetic Score) (log2 : ℕ → Score) where
  abbrev pub quotient : Ratio → Score
  quotient r = a.over (a.of_number r.numerator) (a.of_number r.denominator)

  abbrev gain : ℕ → Score
  gain i = a.over a.one (log2 (i + 2))

  -- The sum over `enumerate(retrieved[:k])`, from the index `i` and the sum so far.
  unfoldable pub discounted : List String → ℕ → Score → List String → Score
  discounted gold i sum [] = sum
  discounted gold i sum (r ∷ rest) =
      discounted gold (suc i) (if is_in gold r then a.plus sum (gain i) else sum) rest

  -- The sum over `range(ideal_hits)`.
  unfoldable pub ideal : ℕ → Score → ℕ → Score
  ideal i sum zero = sum
  ideal i sum (suc n) = ideal (suc i) (a.plus sum (gain i)) n

  unfoldable pub ndcg_at_k : List String → List String → ℕ → Score
  unfolding discounted ideal
  ndcg_at_k retrieved gold k =
      let idcg = ideal 0 a.nil (min (length gold) k) in
      if is_empty gold
      then a.nil
      else if a.higher idcg a.nil
      then a.over (discounted gold 0 a.nil (take k retrieved)) idcg
      else a.nil

  -- f"{m}@{k}"
  abbrev pub at : String → ℕ → Text
  at m k = str m ∷ str "@" ∷ number k ∷ []

  -- The metrics of one `k`, in the order in which both branches write them.
  abbrev measures : List String → List String → ℕ → List (Text × Option Score)
  measures retrieved gold k =
      (at "hit" k, some (quotient (hit_at_k retrieved gold k)))
      ∷ (at "precision" k, some (quotient (precision_at_k retrieved gold k)))
      ∷ (at "recall" k, some (quotient (recall_at_k retrieved gold k)))
      ∷ (at "mrr" k, some (quotient (mrr_at_k retrieved gold k)))
      ∷ (at "ndcg" k, some (ndcg_at_k retrieved gold k))
      ∷ []

  -- A `k` that stands twice in `ks` writes the same values twice, so that the first entry of a key is the dictionary's.
  unfoldable pub rank_metrics : List String → List String → List ℕ → List (Text × Option Score)
  unfolding ndcg_at_k hit_at_k precision_at_k recall_at_k mrr_at_k
  rank_metrics retrieved gold [] = []
  rank_metrics retrieved gold (k ∷ ks) =
      let found = measures retrieved gold k in
      (if is_empty gold then map (λ m. (m.0, none)) found else found)
      ++ rank_metrics retrieved gold ks

  -- `len(pred_tokens & ref_tokens)` out of the sizes of the sets.
  abbrev pub f1 : ℕ → ℕ → ℕ → Score
  f1 common predicted expected =
      let precision = quotient (record { numerator = common; denominator = predicted }) in
      let recall = quotient (record { numerator = common; denominator = expected }) in
      if predicted == 0 || expected == 0 || common == 0
      then a.nil
      else a.over (a.times (a.times (a.of_number 2) precision) recall) (a.plus precision recall)

  -- `words` is `set(text.lower().split())`, as a list of different words.
  unfoldable pub token_f1 : (String → List String) → String → String → Score
  token_f1 words prediction reference =
      let pred_tokens = words prediction in
      let ref_tokens = words reference in
      f1 (length (select (is_in ref_tokens) pred_tokens)) (length pred_tokens) (length ref_tokens)
