-- ===== src/Retrieval/Budget.antt =====
-- The token budget and the numbering of the passages.
use doc_mind_ai.Base.{
  ℕ, zero, suc, ◌+◌, ◌≤◌, ◌<◌, ◌≡◌, refl, ap, ◌⊎◌, inl, inr, Bool, false, List, [], ◌∷◌, map,
  length, leb, Bool-cases, arith,
}
use doc_mind_ai.Retrieval.Types.{Candidate, Passage}
use doc_mind_ai.Retrieval.Passages.{Run, cost_of, tokens, new_passage, pack, build_passages}

abbrev pub total : {Score : Type 0} → List (Passage Score) → ℕ
total [] = 0
total (p ∷ rest) = p.token_count + total rest

-- `n`, `n + 1`, …
abbrev pub count_from : ℕ → ℕ → List ℕ
count_from n zero = []
count_from n (suc m) = n ∷ count_from (suc n) m

plus_assoc-le : (u c t b : ℕ) → u + c + t ≤ b → u + (c + t) ≤ b
plus_assoc-le u c t b h = omega arith

from_zero : (a b m : ℕ) → 0 + a + b ≤ m → a + b ≤ m
from_zero a b m h = omega arith

module _ {Score : Type 0} (higher : Score → Score → Bool) (max_tokens : ℕ) where
  -- Once there is a passage, what follows stays within the budget.
  pack-within :
      (runs : List (Run higher)) (n used : ℕ)
      → used ≤ max_tokens
      → used + total (pack higher max_tokens runs (suc n) used) ≤ max_tokens
  unfolding pack new_passage
  pack-within [] n used h = omega (arith, h)
  pack-within ((score, first, others) ∷ rest) n used h =
      elim (Bool-cases (leb (used + cost_of higher (first ∷ others)) max_tokens)) [
        | inl fits ↦
            rw (fits, pack)
              (plus_assoc-le _ _ _ _ (
                pack-within rest (suc n) (used + cost_of higher (first ∷ others))
                  (ground (arith, fits))))
        | inr over ↦ rw (over, pack) (pack-within rest n used h)
      ]

  -- Past the budget nothing follows.
  pack-over :
      (runs : List (Run higher)) (n used : ℕ)
      → max_tokens < used
      → pack higher max_tokens runs (suc n) used ≡ []
  unfolding pack
  pack-over [] n used h = refl
  pack-over ((score, first, others) ∷ rest) n used h =
      let over : leb (used + cost_of higher (first ∷ others)) max_tokens ≡ false =
        ground (arith, h) in
      rw (over, pack) (pack-over rest n used h)

  Packed : List (Passage Score) → Type 0
  Packed ps =
      (total ps ≤ max_tokens) ⊎ ((p : Passage Score) × (ps ≡ p ∷ []) × (length p.chunk_ids ≡ 1))

  pack-Packed : (runs : List (Run higher)) → Packed (pack higher max_tokens runs 0 0)
  unfolding pack new_passage Packed
  pack-Packed [] = inl (omega arith)
  pack-Packed ((score, first, others) ∷ rest) =
      elim (Bool-cases (leb (0 + cost_of higher (first ∷ others)) max_tokens)) [
        | inl fits ↦
            rw (fits, pack)
              (inl (
                from_zero _ _ _ (
                  pack-within rest 0 (0 + cost_of higher (first ∷ others)) (ground (arith, fits)))))
        | inr over ↦
            rw (over, pack)
              (elim (Bool-cases (leb (0 + tokens higher first) max_tokens)) [
                | inl single ↦ inl (
                    from_zero _ _ _
                      (pack-within rest 0 (0 + tokens higher first) (ground (arith, single))))
                | inr large ↦
                    let nothing =
                      pack-over rest 0 (0 + tokens higher first) (ground (arith, large)) in
                    let alone = new_passage higher 0 score first [] (tokens higher first) in
                    inr (alone, ap (◌∷◌ alone) nothing, refl)
              ])
      ]

  pack-numbered :
      (runs : List (Run higher)) (n used : ℕ)
      → let ps = pack higher max_tokens runs n used in
        map (λ p. p.citation_id) ps ≡ count_from (suc n) (length ps)
  unfolding pack new_passage
  pack-numbered [] n used = refl
  pack-numbered ((score, first, others) ∷ rest) zero used =
      elim (Bool-cases (leb (used + cost_of higher (first ∷ others)) max_tokens)) [
        | inl fits ↦ rw (fits, pack) (ap (◌∷◌ 1) (pack-numbered rest 1 _))
        | inr over ↦ rw (over, pack) (ap (◌∷◌ 1) (pack-numbered rest 1 _))
      ]
  pack-numbered ((score, first, others) ∷ rest) (suc n) used =
      elim (Bool-cases (leb (used + cost_of higher (first ∷ others)) max_tokens)) [
        | inl fits ↦ rw (fits, pack) (ap (◌∷◌ (suc (suc n))) (pack-numbered rest (suc (suc n)) _))
        | inr over ↦ rw (over, pack) (pack-numbered rest (suc n) used)
      ]

  -- The token counts of the passages add up to at most max_tokens, or there is one passage, with
  -- one chunk.
  pub build_passages-budget :
      (selected neighbors : List (Candidate Score)) (window : ℕ)
      → let ps = build_passages higher selected neighbors window max_tokens in
        (total ps ≤ max_tokens) ⊎ ((p : Passage Score) × (ps ≡ p ∷ []) × (length p.chunk_ids ≡ 1))
  unfolding build_passages Packed
  build_passages-budget selected neighbors window = pack-Packed _

  -- The citation ids of the passages are 1, 2, … in their order.
  pub build_passages-numbered :
      (selected neighbors : List (Candidate Score)) (window : ℕ)
      → let ps = build_passages higher selected neighbors window max_tokens in
        map (λ p. p.citation_id) ps ≡ count_from 1 (length ps)
  unfolding build_passages
  build_passages-numbered selected neighbors window = pack-numbered _ 0 0

  -- The token counts of the passages add up to at most max_tokens, or there is one passage, with
  -- one chunk; the citation ids of the passages are 1, 2, … in their order.
  pub build_passages-packed :
      (selected neighbors : List (Candidate Score)) (window : ℕ)
      → let ps = build_passages higher selected neighbors window max_tokens in
        ((total ps ≤ max_tokens) ⊎ ((p : Passage Score) × (ps ≡ p ∷ []) × (length p.chunk_ids ≡ 1)))
        × (map (λ p. p.citation_id) ps ≡ count_from 1 (length ps))
  build_passages-packed selected neighbors window = (
    build_passages-budget selected neighbors window,
    build_passages-numbered selected neighbors window,
  )
