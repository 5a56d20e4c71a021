-- ===== src/Retrieval/Ranking.antt =====
-- backend/app/rag/retrieval/ranking.py. The arithmetic of the scores is a parameter, and so is the matrix of the cosine
-- similarities, which numpy computes.
use doc_mind_ai.Base.{
  ℕ, zero, suc, ◌+◌, Bool, true, false, not, ◌||◌, Option, none, some, List, [], ◌∷◌, ◌++◌, map,
  Table, find, if◌then◌else◌, ◌==◌, leb, length, take, select,
}
use doc_mind_ai.Retrieval.Types.{Candidate}
use doc_mind_ai.Retrieval.Passages.{relevance}

pub record Arithmetic (Score : Type 0) : Type 0 where
  pub nil : Score
  pub one : Score
  pub plus : Score → Score → Score
  pub minus : Score → Score → Score
  pub times : Score → Score → Score
  pub over : Score → Score → Score
  pub of_number : ℕ → Score
  pub higher : Score → Score → Bool  -- `a > b`

module _ {Score : Type 0} (a : Arithmetic Score) where
  -- `weight / (k + rank)`
  abbrev pub rank_share : Score → ℕ → ℕ → Score
  rank_share weight k rank = a.over weight (a.of_number (k + rank))

  -- `merged[i] = c`: an assignment keeps the place of its key.
  unfoldable pub put_candidate :
      ℕ → Candidate Score → Table (Candidate Score) → Table (Candidate Score)
  put_candidate i c [] = (i, c) ∷ []
  put_candidate i c ((j, d) ∷ rest) =
      if j == i then (j, c) ∷ rest else (j, d) ∷ put_candidate i c rest

  unfoldable pub add_vector :
      Score → ℕ → Candidate Score → Option ℕ → Table (Candidate Score) → Table (Candidate Score)
  unfolding put_candidate
  add_vector weight k c none merged = merged
  add_vector weight k c (some rank) merged =
      put_candidate c.chunk_id (record c { fused_score = rank_share weight k rank }) merged

  unfoldable pub add_vectors :
      Score → ℕ → List (Candidate Score) → Table (Candidate Score) → Table (Candidate Score)
  unfolding add_vector
  add_vectors weight k [] merged = merged
  add_vectors weight k (c ∷ rest) merged =
      add_vectors weight k rest (add_vector weight k c c.vector_rank merged)

  abbrev pub with_keyword : Candidate Score → Score → Option (Candidate Score) → Candidate Score
  with_keyword c share none = record c { fused_score = share }
  with_keyword c share (some existing) = record existing {
    keyword_rank = c.keyword_rank;
    keyword_score = c.keyword_score;
    fused_score = a.plus existing.fused_score share;
  }

  unfoldable pub add_keyword :
      Score → ℕ → Candidate Score → Option ℕ → Table (Candidate Score) → Table (Candidate Score)
  unfolding put_candidate
  add_keyword weight k c none merged = merged
  add_keyword weight k c (some rank) merged =
      put_candidate c.chunk_id (with_keyword c (rank_share weight k rank) (find c.chunk_id merged))
        merged

  unfoldable pub add_keywords :
      Score → ℕ → List (Candidate Score) → Table (Candidate Score) → Table (Candidate Score)
  unfolding add_keyword
  add_keywords weight k [] merged = merged
  add_keywords weight k (c ∷ rest) merged =
      add_keywords weight k rest (add_keyword weight k c c.keyword_rank merged)

  -- `sorted(..., reverse=True)`, which keeps the order of equal keys.
  abbrev pub place_candidate :
      (Candidate Score → Score) → Candidate Score → List (Candidate Score) → List (Candidate Score)
  place_candidate key c [] = c ∷ []
  place_candidate key c (d ∷ rest) =
      if a.higher (key d) (key c) then d ∷ place_candidate key c rest else c ∷ d ∷ rest

  unfoldable pub sort_candidates :
      (Candidate Score → Score) → List (Candidate Score) → List (Candidate Score)
  sort_candidates key [] = []
  sort_candidates key (c ∷ rest) = place_candidate key c (sort_candidates key rest)

  unfoldable pub reciprocal_rank_fusion :
      List (Candidate Score) → List (Candidate Score) → ℕ → Score → Score → List (Candidate Score)
  unfolding add_vectors add_keywords sort_candidates
  reciprocal_rank_fusion vector keyword k vector_weight keyword_weight =
      sort_candidates (λ c. c.fused_score)
        (map (λ e. e.1)
          (add_keywords keyword_weight k keyword (add_vectors vector_weight k vector [])))

  abbrev pub has_embedding : Candidate Score → Bool
  has_embedding c = elim c.embedding [ none ↦ false | some v ↦ true ]

  abbrev pub extreme : (Score → Score → Bool) → Score → List Score → Score
  extreme better s [] = s
  extreme better s (t ∷ rest) = extreme better (if better t s then t else s) rest

  -- The relevance between 0 and 1.
  abbrev pub scaled : Score → Score → Score → Score
  scaled lowest span r = if a.higher span a.nil then a.over (a.minus r lowest) span else a.one

  abbrev pub scale_of : Candidate Score → List (Candidate Score) → Score → Score
  scale_of c rest r =
      let first = relevance a.higher c in
      let others = map (relevance a.higher) rest in
      let lowest = extreme (λ s t. a.higher t s) first others in
      scaled lowest (a.minus (extreme a.higher first others) lowest) r

  -- A candidate of the pool with its index, its relevance, and its similarity to what is selected.
  abbrev pub Entry : Type 0
  Entry = ℕ × Candidate Score × Score × Score

  abbrev pub entries : (Score → Score) → ℕ → List (Candidate Score) → List Entry
  entries scale i [] = []
  entries scale i (c ∷ rest) =
      (i, c, scale (relevance a.higher c), a.nil) ∷ entries scale (suc i) rest

  unfoldable pub pool_entries : List (Candidate Score) → List Entry
  pool_entries [] = []
  pool_entries (c ∷ rest) = entries (scale_of c rest) 0 (c ∷ rest)

  -- `lambda_ * rel - (1 - lambda_) * max_sim`
  abbrev pub marginal : Score → Entry → Score
  marginal lambda (i, c, rel, max_sim) =
      a.minus (a.times lambda rel) (a.times (a.minus a.one lambda) max_sim)

  -- The first entry with the highest score, and the others.
  unfoldable pub best_of : Score → Entry → List Entry → Entry × List Entry
  best_of lambda e [] = (e, [])
  best_of lambda e (f ∷ rest) =
      let (best, others) = best_of lambda f rest in
      if a.higher (marginal lambda best) (marginal lambda e)
      then (best, e ∷ others)
      else (e, f ∷ rest)

  abbrev pub raise_similarity : (ℕ → ℕ → Score) → ℕ → Entry → Entry
  raise_similarity similarity best (i, c, rel, max_sim) =
      (i, c, rel, if a.higher (similarity best i) max_sim then similarity best i else max_sim)

  -- The loop, for `n` more candidates.
  unfoldable pub select_entries : (ℕ → ℕ → Score) → Score → ℕ → List Entry → List (Candidate Score)
  unfolding best_of
  select_entries similarity lambda zero remaining = []
  select_entries similarity lambda (suc n) [] = []
  select_entries similarity lambda (suc n) (e ∷ rest) =
      let (best, others) = best_of lambda e rest in
      best.1 ∷ select_entries similarity lambda n (map (raise_similarity similarity best.0) others)

  unfoldable pub from_pool :
      (List (Candidate Score) → ℕ → ℕ → Score)
      → List (Candidate Score)
      → List (Candidate Score)
      → List (Candidate Score)
      → ℕ
      → Score
      → List (Candidate Score)
  unfolding pool_entries select_entries
  from_pool similarity candidates no_emb [] k lambda = take k candidates
  from_pool similarity candidates no_emb (c ∷ pool) k lambda =
      take k (select_entries (similarity (c ∷ pool)) lambda k (pool_entries (c ∷ pool)) ++ no_emb)

  -- `similarity` gives the matrix of a pool.
  unfoldable pub mmr_select :
      (List (Candidate Score) → ℕ → ℕ → Score)
      → List (Candidate Score)
      → ℕ
      → Score
      → List (Candidate Score)
  unfolding from_pool
  mmr_select similarity candidates k lambda =
      if leb (length candidates) k || not (a.higher a.one lambda)
      then take k candidates
      else from_pool similarity candidates (select (λ c. not (has_embedding c)) candidates)
          (select has_embedding candidates) k lambda
