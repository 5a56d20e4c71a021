-- ===== src/Examples/Passages.antt =====
-- Passages of a search: scores are numbers.
use doc_mind_ai.Base.{ℕ, ◌≤◌, ◌≡◌, ◌⊎◌, refl, Bool, none, some, List, [], ◌∷◌, map, ltb, length}
use doc_mind_ai.Retrieval.Types.{Candidate, Passage}
use doc_mind_ai.Retrieval.Passages.{build_passages}
use doc_mind_ai.Retrieval.Budget.{total, count_from, build_passages-packed}

abbrev pub above : ℕ → ℕ → Bool
above a b = ltb b a

abbrev pub chunk : ℕ → ℕ → ℕ → Candidate ℕ
chunk id position score = record {
  chunk_id = id;
  document_id = 1;
  chunk_index = position;
  text = "some text";
  page_number = some 3;
  section = none;
  token_count = some 10;
  embedding = none;
  vector_rank = none;
  keyword_rank = none;
  vector_score = none;
  keyword_score = none;
  fused_score = score;
  rerank_score = none;
}

abbrev pub found : List (Candidate ℕ)
found = chunk 21 1 5 ∷ chunk 26 6 9 ∷ []

abbrev around : List (Candidate ℕ)
around = chunk 22 2 0 ∷ chunk 27 7 0 ∷ []

-- Both runs have two chunks of 10 tokens each; the one with the higher score comes first.
build_passages_run :
    map (λ p. p.chunk_ids) (build_passages above found around 1 50)
    ≡ (26 ∷ 27 ∷ []) ∷ (21 ∷ 22 ∷ []) ∷ []
unfolding build_passages
build_passages_run = refl

build_passages-packed_example :
    let ps = build_passages above found around 1 30 in
    ((total ps ≤ 30) ⊎ ((p : Passage ℕ) × (ps ≡ p ∷ []) × (length p.chunk_ids ≡ 1)))
    × (map (λ p. p.citation_id) ps ≡ count_from 1 (length ps))
build_passages-packed_example = build_passages-packed above 30 found around 1
