-- ===== src/Retrieval/Origins.antt =====
-- Every chunk of a passage is a candidate that was selected or a neighbor of one.
use doc_mind_ai.Base.{
  ℕ, zero, suc, ◌+◌, ◌≡◌, sym, ◌∙◌, Bool, ◌&&◌, Option, none, some, List, [], ◌∷◌, ◌++◌, map, Table,
  ◌==◌, leb, All, All-append, Bool-cases, Option-cases, inl, inr, arith,
}
use doc_mind_ai.Retrieval.Types.{Candidate, Passage}
use doc_mind_ai.Retrieval.Passages.{
  at_position, chunks_at, scored_runs, run_with, max_score, document_runs, place_run, by_score, Run,
  runs_of, sorted, cost_of, tokens, new_passage, pack, build_passages, want_all,
}

module _ {Score : Type 0} (higher : Score → Score → Bool) (P : ℕ → ℕ → Type 0) where
  abbrev Fits : Candidate Score → Type 0
  Fits c = P c.chunk_id c.document_id

  abbrev RunFits : Run higher → Type 0
  RunFits (s, first, others) = Fits first × All Fits others

  -- The document, and each chunk, is one of those that the property holds of.
  abbrev pub PassageFits : Passage Score → Type 0
  PassageFits p = ((i : ℕ) × P i p.document_id) × All (λ i. (d : ℕ) × P i d) p.chunk_ids

  at_position-Fits :
      (d i : ℕ) (known : List (Candidate Score)) (c : Candidate Score)
      → All Fits known
      → at_position higher d i known ≡ some c
      → Fits c
  unfolding at_position
  at_position-Fits d i [] c all = λ e. absurd (ground (arith, e))
  at_position-Fits d i (k ∷ rest) c all = elim (Option-cases (at_position higher d i rest)) [
    | inl n ↦
        rw (n, at_position)
          (elim (Bool-cases (k.document_id == d && k.chunk_index == i)) [
            | inl t ↦ rw t (λ e. let here : k ≡ c = ground (arith, e) in rw (sym here) all.0)
            | inr f ↦ rw f (λ e. absurd (ground (arith, e)))
          ])
    | inr (later, s) ↦ rw (s, at_position) (λ e. at_position-Fits d i rest c all.1 (s ∙ e))
  ]

  chunks_at-Fits :
      (known : List (Candidate Score)) (d : ℕ) (run : List ℕ)
      → All Fits known
      → All Fits (chunks_at higher known d run)
  unfolding chunks_at
  chunks_at-Fits known d [] all = tt
  chunks_at-Fits known d (i ∷ rest) all = elim (Option-cases (at_position higher d i known)) [
    | inl n ↦ rw (n, chunks_at) (chunks_at-Fits known d rest all)
    | inr (c, s) ↦
        rw (s, chunks_at) (at_position-Fits d i known c all s, chunks_at-Fits known d rest all)
  ]

  run_with-Fits :
      (s : Option Score) (l : List (Candidate Score))
      → All Fits l
      → All RunFits (run_with higher s l)
  run_with-Fits none l all = tt
  run_with-Fits (some s) [] all = tt
  run_with-Fits (some s) (c ∷ rest) all = (all, tt)

  scored_runs-Fits :
      (known : List (Candidate Score)) (d : ℕ) (scores : Table Score) (runs : List (List ℕ))
      → All Fits known
      → All RunFits (scored_runs higher known d scores runs)
  unfolding scored_runs
  scored_runs-Fits known d scores [] all = tt
  scored_runs-Fits known d scores (run ∷ rest) all =
      All-append RunFits _ _
        (run_with-Fits (max_score higher scores run) _ (chunks_at-Fits known d run all))
        (scored_runs-Fits known d scores rest all)

  document_runs-Fits :
      (known : List (Candidate Score)) (wanted : Table (Table Score))
      → All Fits known
      → All RunFits (document_runs higher known wanted)
  unfolding document_runs
  document_runs-Fits known [] all = tt
  document_runs-Fits known ((d, scores) ∷ rest) all =
      All-append RunFits _ _
        (scored_runs-Fits known d scores (runs_of (sorted (map (λ p. p.0) scores))) all)
        (document_runs-Fits known rest all)

  place_run-Fits :
      (r : Run higher) (l : List (Run higher))
      → RunFits r
      → All RunFits l
      → All RunFits (place_run higher r l)
  unfolding place_run
  place_run-Fits r [] h all = (h, tt)
  place_run-Fits r (q ∷ rest) h all = elim (Bool-cases (higher q.0 r.0)) [
    | inl e ↦ rw e (all.0, place_run-Fits r rest h all.1)
    | inr e ↦ rw e (h, all)
  ]

  by_score-Fits : (l : List (Run higher)) → All RunFits l → All RunFits (by_score higher l)
  unfolding by_score
  by_score-Fits [] all = tt
  by_score-Fits (r ∷ rest) all = place_run-Fits r _ all.0 (by_score-Fits rest all.1)

  ids-Fits :
      (l : List (Candidate Score))
      → All Fits l
      → All (λ i. (d : ℕ) × P i d) (map (λ c. c.chunk_id) l)
  ids-Fits [] all = tt
  ids-Fits (c ∷ rest) all = ((c.document_id, all.0), ids-Fits rest all.1)

  new_passage-Fits :
      (n : ℕ) (score : Score) (first : Candidate Score) (others : List (Candidate Score)) (cost : ℕ)
      → Fits first
      → All Fits others
      → PassageFits (new_passage higher n score first others cost)
  unfolding new_passage
  new_passage-Fits n score first others cost h all =
      ((first.chunk_id, h), ((first.document_id, h), ids-Fits others all))

  pack-Fits :
      (max_tokens : ℕ) (runs : List (Run higher)) (n used : ℕ)
      → All RunFits runs
      → All PassageFits (pack higher max_tokens runs n used)
  unfolding pack
  pack-Fits max_tokens [] n used all = tt
  pack-Fits max_tokens ((score, first, others) ∷ rest) zero used all =
      let (h, more) = all.0 in
      elim (Bool-cases (leb (used + cost_of higher (first ∷ others)) max_tokens)) [
        | inl fits ↦
            rw (fits, pack)
              (
                new_passage-Fits 0 score first others (cost_of higher (first ∷ others)) h more,
                pack-Fits max_tokens rest 1 _ all.1,
              )
        | inr over ↦
            rw (over, pack)
              (
                new_passage-Fits 0 score first [] (tokens higher first) h tt,
                pack-Fits max_tokens rest 1 _ all.1,
              )
      ]
  pack-Fits max_tokens ((score, first, others) ∷ rest) (suc m) used all =
      let (h, more) = all.0 in
      elim (Bool-cases (leb (used + cost_of higher (first ∷ others)) max_tokens)) [
        | inl fits ↦
            rw (fits, pack)
              (
                new_passage-Fits (suc m) score first others (cost_of higher (first ∷ others)) h
                    more,
                pack-Fits max_tokens rest (suc (suc m)) _ all.1,
              )
        | inr over ↦ rw (over, pack) (pack-Fits max_tokens rest (suc m) used all.1)
      ]

  pub build_passages-Fits :
      (selected neighbors : List (Candidate Score)) (window max_tokens : ℕ)
      → All Fits selected
      → All Fits neighbors
      → All PassageFits (build_passages higher selected neighbors window max_tokens)
  unfolding build_passages
  build_passages-Fits selected neighbors window max_tokens hs hn =
      let known = neighbors ++ selected in
      let wanted = want_all higher window known selected [] in
      let runs = document_runs-Fits known wanted (All-append Fits neighbors selected hn hs) in
      pack-Fits max_tokens (by_score higher (document_runs higher known wanted)) 0 0
        (by_score-Fits (document_runs higher known wanted) runs)
