-- ===== src/Retrieval/Readable.antt =====
-- A property of the ids of a chunk and of its document that the rankings keep.
use doc_mind_ai.Base.{
  ℕ, zero, suc, ◌≡◌, sym, not, ◌||◌, Option, none, some, List, [], ◌∷◌, map, Table, find, ◌==◌, leb,
  length, All, All-append, All-take, All-select, Bool-cases, Option-cases, inl, inr, arith,
}
use doc_mind_ai.Retrieval.Types.{Candidate}
use doc_mind_ai.Retrieval.Ranking
use doc_mind_ai.Retrieval.Ranking.{
  Arithmetic, put_candidate, add_vector, add_vectors, add_keyword, add_keywords, with_keyword,
  sort_candidates, place_candidate, reciprocal_rank_fusion, Entry, has_embedding, pool_entries,
  best_of, select_entries, raise_similarity, marginal, from_pool, mmr_select,
}

module _ {Score : Type 0} (a : Arithmetic Score) (P : ℕ → ℕ → Type 0) where
  abbrev pub Fits : Candidate Score → Type 0
  Fits c = P c.chunk_id c.document_id

  put_candidate-Fits :
      (i : ℕ) (c : Candidate Score) (t : Table (Candidate Score))
      → Fits c
      → All (λ e. Fits e.1) t
      → All (λ e. Fits e.1) (put_candidate a i c t)
  unfolding put_candidate
  put_candidate-Fits i c [] fits all = (fits, tt)
  put_candidate-Fits i c ((j, d) ∷ rest) fits all = elim (Bool-cases (j == i)) [
    | inl e ↦ rw e (fits, all.1)
    | inr e ↦ rw e (all.0, put_candidate-Fits i c rest fits all.1)
  ]

  find-Fits :
      (i : ℕ) (t : Table (Candidate Score)) (c : Candidate Score)
      → All (λ e. Fits e.1) t
      → find i t ≡ some c
      → Fits c
  unfolding find
  find-Fits i [] c all = λ e. absurd (ground (arith, e))
  find-Fits i ((j, d) ∷ rest) c all = elim (Bool-cases (j == i)) [
    | inl same ↦ rw same (λ e. let here : d ≡ c = ground (arith, e) in rw (sym here) all.0)
    | inr other ↦ rw other (find-Fits i rest c all.1)
  ]

  add_vector-Fits :
      (weight : Score) (k : ℕ) (c : Candidate Score) (rank : Option ℕ) (t : Table (Candidate Score))
      → Fits c
      → All (λ e. Fits e.1) t
      → All (λ e. Fits e.1) (add_vector a weight k c rank t)
  unfolding add_vector
  add_vector-Fits weight k c none t fits all = all
  add_vector-Fits weight k c (some rank) t fits all = put_candidate-Fits c.chunk_id _ t fits all

  add_vectors-Fits :
      (weight : Score) (k : ℕ) (l : List (Candidate Score)) (t : Table (Candidate Score))
      → All Fits l
      → All (λ e. Fits e.1) t
      → All (λ e. Fits e.1) (add_vectors a weight k l t)
  unfolding add_vectors
  add_vectors-Fits weight k [] t fits all = all
  add_vectors-Fits weight k (c ∷ rest) t fits all =
      add_vectors-Fits weight k rest _ fits.1
        (add_vector-Fits weight k c c.vector_rank t fits.0 all)

  with_keyword-Fits :
      (c : Candidate Score) (share : Score) (t : Table (Candidate Score))
      → Fits c
      → All (λ e. Fits e.1) t
      → Fits (with_keyword a c share (find c.chunk_id t))
  with_keyword-Fits c share t fits all = elim (Option-cases (find c.chunk_id t)) [
    | inl e ↦ rw e fits
    | inr (existing, e) ↦ rw e (find-Fits c.chunk_id t existing all e)
  ]

  add_keyword-Fits :
      (weight : Score) (k : ℕ) (c : Candidate Score) (rank : Option ℕ) (t : Table (Candidate Score))
      → Fits c
      → All (λ e. Fits e.1) t
      → All (λ e. Fits e.1) (add_keyword a weight k c rank t)
  unfolding add_keyword
  add_keyword-Fits weight k c none t fits all = all
  add_keyword-Fits weight k c (some rank) t fits all =
      put_candidate-Fits c.chunk_id _ t (with_keyword-Fits c _ t fits all) all

  add_keywords-Fits :
      (weight : Score) (k : ℕ) (l : List (Candidate Score)) (t : Table (Candidate Score))
      → All Fits l
      → All (λ e. Fits e.1) t
      → All (λ e. Fits e.1) (add_keywords a weight k l t)
  unfolding add_keywords
  add_keywords-Fits weight k [] t fits all = all
  add_keywords-Fits weight k (c ∷ rest) t fits all =
      add_keywords-Fits weight k rest _ fits.1
        (add_keyword-Fits weight k c c.keyword_rank t fits.0 all)

  place_candidate-Fits :
      (key : Candidate Score → Score) (c : Candidate Score) (l : List (Candidate Score))
      → Fits c
      → All Fits l
      → All Fits (place_candidate a key c l)
  place_candidate-Fits key c [] fits all = (fits, tt)
  place_candidate-Fits key c (d ∷ rest) fits all = elim (Bool-cases (a.higher (key d) (key c))) [
    | inl e ↦ rw e (all.0, place_candidate-Fits key c rest fits all.1)
    | inr e ↦ rw e (fits, all)
  ]

  pub sort_candidates-Fits :
      (key : Candidate Score → Score) (l : List (Candidate Score))
      → All Fits l
      → All Fits (sort_candidates a key l)
  unfolding sort_candidates
  sort_candidates-Fits key [] all = tt
  sort_candidates-Fits key (c ∷ rest) all =
      place_candidate-Fits key c _ all.0 (sort_candidates-Fits key rest all.1)

  values-Fits : (t : Table (Candidate Score)) → All (λ e. Fits e.1) t → All Fits (map (λ e. e.1) t)
  values-Fits [] all = tt
  values-Fits (e ∷ t) all = (all.0, values-Fits t all.1)

  pub reciprocal_rank_fusion-Fits :
      (vector keyword : List (Candidate Score)) (k : ℕ) (vector_weight keyword_weight : Score)
      → All Fits vector
      → All Fits keyword
      → All Fits (reciprocal_rank_fusion a vector keyword k vector_weight keyword_weight)
  unfolding reciprocal_rank_fusion
  reciprocal_rank_fusion-Fits vector keyword k vector_weight keyword_weight hv hk =
      sort_candidates-Fits _ _ (
        values-Fits _ (
          add_keywords-Fits keyword_weight k keyword _ hk
            (add_vectors-Fits vector_weight k vector [] hv tt)))

  entries-Fits :
      (scale : Score → Score) (i : ℕ) (l : List (Candidate Score))
      → All Fits l
      → All (λ e. Fits e.1) (Ranking.entries a scale i l)
  entries-Fits scale i [] all = tt
  entries-Fits scale i (c ∷ rest) all = (all.0, entries-Fits scale (suc i) rest all.1)

  best_of-Fits :
      (lambda : Score) (e : Entry a) (rest : List (Entry a))
      → Fits e.1
      → All (λ f. Fits f.1) rest
      → let (best, others) = best_of a lambda e rest in Fits best.1 × All (λ f. Fits f.1) others
  unfolding best_of
  best_of-Fits lambda e [] fits all = (fits, tt)
  best_of-Fits lambda e (f ∷ rest) fits all =
      let (best, others) = best_of-Fits lambda f rest all.0 all.1 in
      elim (Bool-cases
        (a.higher (marginal a lambda (best_of a lambda f rest).0) (marginal a lambda e))) [
          | inl h ↦ rw h (best, (fits, others))
          | inr h ↦ rw h (fits, all)
        ]

  raised-Fits :
      (similarity : ℕ → ℕ → Score) (i : ℕ) (l : List (Entry a))
      → All (λ e. Fits e.1) l
      → All (λ e. Fits e.1) (map (raise_similarity a similarity i) l)
  raised-Fits similarity i [] all = tt
  raised-Fits similarity i (e ∷ l) all = (all.0, raised-Fits similarity i l all.1)

  select_entries-Fits :
      (similarity : ℕ → ℕ → Score) (lambda : Score) (n : ℕ) (l : List (Entry a))
      → All (λ e. Fits e.1) l
      → All Fits (select_entries a similarity lambda n l)
  unfolding select_entries
  select_entries-Fits similarity lambda zero l all = tt
  select_entries-Fits similarity lambda (suc n) [] all = tt
  select_entries-Fits similarity lambda (suc n) (e ∷ rest) all =
      let (best, others) = best_of-Fits lambda e rest all.0 all.1 in
      (best, select_entries-Fits similarity lambda n _ (raised-Fits similarity _ _ others))

  from_pool-Fits :
      (similarity : List (Candidate Score) → ℕ → ℕ → Score)
      (candidates no_emb pool : List (Candidate Score)) (k : ℕ) (lambda : Score)
      → All Fits candidates
      → All Fits no_emb
      → All Fits pool
      → All Fits (from_pool a similarity candidates no_emb pool k lambda)
  unfolding from_pool pool_entries
  from_pool-Fits similarity candidates no_emb [] k lambda hc hn hp = All-take Fits k candidates hc
  from_pool-Fits similarity candidates no_emb (c ∷ pool) k lambda hc hn hp = All-take Fits k _ (
      All-append Fits _ no_emb
        (select_entries-Fits (similarity (c ∷ pool)) lambda k _
          (entries-Fits (Ranking.scale_of a c pool) 0 (c ∷ pool) hp))
        hn)

  pub mmr_select-Fits :
      (similarity : List (Candidate Score) → ℕ → ℕ → Score) (candidates : List (Candidate Score))
      (k : ℕ) (lambda : Score)
      → All Fits candidates
      → All Fits (mmr_select a similarity candidates k lambda)
  unfolding mmr_select
  mmr_select-Fits similarity candidates k lambda all =
      elim (Bool-cases (leb (length candidates) k || not (a.higher a.one lambda))) [
        | inl e ↦ rw e (All-take Fits k candidates all)
        | inr e ↦ rw e (
            from_pool-Fits similarity candidates _ _ k lambda all (All-select Fits _ candidates all)
              (All-select Fits (has_embedding a) candidates all))
      ]
