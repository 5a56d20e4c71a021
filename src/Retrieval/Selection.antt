-- ===== src/Retrieval/Selection.antt =====
-- What the rankings return: how many candidates, and which.
use doc_mind_ai.Base.{
  ℕ, zero, suc, ◌+◌, min, ◌≡◌, refl, ap, Bool, not, ◌||◌, List, [], ◌∷◌, ◌++◌, map, leb, length,
  select, length-append, length-take, Bool-cases, inl, inr, arith,
}
use doc_mind_ai.Retrieval.Types.{Candidate}
use doc_mind_ai.Retrieval.Ranking
use doc_mind_ai.Retrieval.Ranking.{
  Arithmetic, Entry, has_embedding, pool_entries, best_of, select_entries, raise_similarity,
  marginal, mmr_select,
}

length-map {ℓ κ} :
    {A : Type ℓ} {B : Type κ} (f : A → B) (xs : List A) → length (map f xs) ≡ length xs
length-map f [] = refl
length-map f (x ∷ xs) = ap suc (length-map f xs)

length-select_both {ℓ} :
    {A : Type ℓ} (p : A → Bool) (xs : List A)
    → length (select p xs) + length (select (λ x. not (p x)) xs) ≡ length xs
length-select_both p [] = refl
length-select_both p (x ∷ xs) = elim (Bool-cases (p x)) [
  | inl e ↦ rw e (omega (arith, length-select_both p xs))
  | inr e ↦ rw e (omega (arith, length-select_both p xs))
]

module _ {Score : Type 0} (a : Arithmetic Score) where
  length-entries :
      (scale : Score → Score) (i : ℕ) (l : List (Candidate Score))
      → length (Ranking.entries a scale i l) ≡ length l
  length-entries scale i [] = refl
  length-entries scale i (c ∷ rest) = ap suc (length-entries scale (suc i) rest)

  length-pool_entries : (l : List (Candidate Score)) → length (pool_entries a l) ≡ length l
  unfolding pool_entries
  length-pool_entries [] = refl
  length-pool_entries (c ∷ rest) = ap suc (length-entries (Ranking.scale_of a c rest) 1 rest)

  length-best_of :
      (lambda : Score) (e : Entry a) (rest : List (Entry a))
      → length (best_of a lambda e rest).1 ≡ length rest
  unfolding best_of
  length-best_of lambda e [] = refl
  length-best_of lambda e (f ∷ rest) =
      elim (Bool-cases
        (a.higher (marginal a lambda (best_of a lambda f rest).0) (marginal a lambda e))) [
          | inl h ↦ rw h (ap suc (length-best_of lambda f rest))
          | inr h ↦ rw h refl
        ]

  length-select_entries :
      (similarity : ℕ → ℕ → Score) (lambda : Score) (n : ℕ) (l : List (Entry a))
      → length (select_entries a similarity lambda n l) ≡ min n (length l)
  unfolding select_entries
  length-select_entries similarity lambda zero l = omega arith
  length-select_entries similarity lambda (suc n) [] = omega arith
  length-select_entries similarity lambda (suc n) (e ∷ rest) =
      let (best, others) = best_of a lambda e rest in
      let left = map (raise_similarity a similarity best.0) others in
      omega (
        arith,
        length-select_entries similarity lambda n left,
        length-map (raise_similarity a similarity best.0) others,
        length-best_of lambda e rest,
      )

  length-from_pool :
      (similarity : List (Candidate Score) → ℕ → ℕ → Score)
      (candidates no_emb pool : List (Candidate Score)) (k : ℕ) (lambda : Score)
      → length pool + length no_emb ≡ length candidates
      → length (Ranking.from_pool a similarity candidates no_emb pool k lambda)
        ≡ min k (length candidates)
  unfolding Ranking.from_pool
  length-from_pool similarity candidates no_emb [] k lambda h = length-take k candidates
  length-from_pool similarity candidates no_emb (c ∷ pool) k lambda h =
      let picked = select_entries a (similarity (c ∷ pool)) lambda k (pool_entries a (c ∷ pool)) in
      omega (
        arith,
        h,
        length-take k (picked ++ no_emb),
        length-append picked no_emb,
        length-select_entries (similarity (c ∷ pool)) lambda k (pool_entries a (c ∷ pool)),
        length-pool_entries (c ∷ pool),
      )

  -- mmr_select returns k candidates, or all where there are fewer.
  pub mmr_select-length :
      (similarity : List (Candidate Score) → ℕ → ℕ → Score) (candidates : List (Candidate Score))
      (k : ℕ) (lambda : Score)
      → length (mmr_select a similarity candidates k lambda) ≡ min k (length candidates)
  unfolding mmr_select
  mmr_select-length similarity candidates k lambda =
      elim (Bool-cases (leb (length candidates) k || not (a.higher a.one lambda))) [
        | inl e ↦ rw e (length-take k candidates)
        | inr e ↦ rw e (
            length-from_pool similarity candidates _ _ k lambda
              (length-select_both (has_embedding a) candidates))
      ]
