-- ===== src/Retrieval/Passages.antt =====
-- backend/app/rag/retrieval/context.py, `build_passages`. A score is a float there; here its type and
-- the test `>` are parameters.
use Prim.Native.String.{◌++◌ as append, count}
use package.text.Mathlib.Text.{◌==◌ as str_eq}
use doc_mind_ai.Base.{
  ℕ, zero, suc, ◌+◌, ◌-◌, ◌/◌, min, max, String, Bool, true, false, ◌&&◌, Option, none, some, List,
  [], ◌∷◌, ◌++◌, map, Table, if◌then◌else◌, ◌==◌, leb,
}
use doc_mind_ai.Retrieval.Types.{Candidate, Passage}

-- `"\n".join(...)`
join_lines : List String → String
join_lines [] = ""
join_lines (s ∷ []) = s
join_lines (s ∷ t ∷ rest) = append s (append "\n" (join_lines (t ∷ rest)))

-- `sorted(...)` of different numbers.
place : ℕ → List ℕ → List ℕ
place i [] = i ∷ []
place i (j ∷ rest) = if leb i j then i ∷ j ∷ rest else j ∷ place i rest

unfoldable pub sorted : List ℕ → List ℕ
unfolding place
sorted [] = []
sorted (i ∷ rest) = place i (sorted rest)

-- The runs of consecutive numbers: the run so far, its last number, and the numbers that follow.
unfoldable pub runs_from : List ℕ → ℕ → List ℕ → List (List ℕ)
runs_from run last [] = run ∷ []
runs_from run last (i ∷ rest) = elim (i == suc last) [
  | true ↦ runs_from (run ++ i ∷ []) i rest
  | false ↦ run ∷ runs_from (i ∷ []) i rest
]

unfoldable pub runs_of : List ℕ → List (List ℕ)
unfolding runs_from
runs_of [] = []
runs_of (i ∷ rest) = runs_from (i ∷ []) i rest

abbrev least : Option ℕ → ℕ → Option ℕ
least none n = some n
least (some m) n = some (min m n)

abbrev greatest : Option ℕ → ℕ → Option ℕ
greatest none n = some n
greatest (some m) n = some (max m n)

module _ {Score : Type 0} (higher : Score → Score → Bool) where
  abbrev pub relevance : Candidate Score → Score
  relevance c = elim c.rerank_score [ none ↦ c.fused_score | some s ↦ s ]

  -- `self.token_count or max(1, len(self.text) // 4)`
  abbrev pub estimate : String → Option ℕ → ℕ
  estimate text none = max 1 (count text / 4)
  estimate text (some zero) = max 1 (count text / 4)
  estimate text (some (suc n)) = suc n

  unfoldable pub tokens : Candidate Score → ℕ
  tokens c = estimate c.text c.token_count

  -- `max(a, b)`
  abbrev higher_of : Score → Score → Score
  higher_of a b = if higher b a then b else a

  -- The dict `by_pos`: of equal positions the last one of the list.
  unfoldable pub at_position : ℕ → ℕ → List (Candidate Score) → Option (Candidate Score)
  at_position d i [] = none
  at_position d i (c ∷ rest) = elim (at_position d i rest) [
    | none ↦ if c.document_id == d && c.chunk_index == i then some c else none
    | some later ↦ some later
  ]

  -- The dict of one document, and the dict `wanted`, both in the order of insertion.
  unfoldable pub raise_score : ℕ → Score → Table Score → Table Score
  raise_score i s [] = (i, s) ∷ []
  raise_score i s ((j, t) ∷ rest) =
      if j == i then (j, higher_of t s) ∷ rest else (j, t) ∷ raise_score i s rest

  unfoldable pub want : ℕ → ℕ → Score → Table (Table Score) → Table (Table Score)
  unfolding raise_score
  want d i s [] = (d, raise_score i s []) ∷ []
  want d i s ((e, scores) ∷ rest) =
      if e == d then (e, raise_score i s scores) ∷ rest else (e, scores) ∷ want d i s rest

  -- `n` positions of a document from `i` on, where they are known.
  unfoldable pub want_range :
      List (Candidate Score) → ℕ → Score → ℕ → ℕ → Table (Table Score) → Table (Table Score)
  unfolding want at_position
  want_range known d s i zero wanted = wanted
  want_range known d s i (suc n) wanted =
      want_range known d s (suc i) n
        (elim (at_position d i known) [ none ↦ wanted | some c ↦ want d i s wanted ])

  -- The positions around each selected chunk. A position below 0 is never known.
  unfoldable pub want_all :
      ℕ
      → List (Candidate Score)
      → List (Candidate Score)
      → Table (Table Score)
      → Table (Table Score)
  unfolding want_range
  want_all window known [] wanted = wanted
  want_all window known (c ∷ rest) wanted =
      let first = c.chunk_index - window in
      want_all window known rest (
        want_range known c.document_id (relevance c) first (suc (c.chunk_index + window) - first)
          wanted)

  -- A run with its score: the first chunk, and the others.
  abbrev pub Run : Type 0
  Run = Score × Candidate Score × List (Candidate Score)

  score_at : ℕ → Table Score → Option Score
  score_at i [] = none
  score_at i ((j, s) ∷ rest) = if j == i then some s else score_at i rest

  abbrev best_score : Option Score → Option Score → Option Score
  best_score none s = s
  best_score (some s) none = some s
  best_score (some s) (some t) = some (higher_of s t)

  unfoldable pub max_score : Table Score → List ℕ → Option Score
  unfolding score_at
  max_score scores [] = none
  max_score scores (i ∷ rest) = best_score (score_at i scores) (max_score scores rest)

  unfoldable pub chunks_at : List (Candidate Score) → ℕ → List ℕ → List (Candidate Score)
  unfolding at_position
  chunks_at known d [] = []
  chunks_at known d (i ∷ rest) =
      let later = chunks_at known d rest in
      elim (at_position d i known) [ none ↦ later | some c ↦ c ∷ later ]

  abbrev pub run_with : Option Score → List (Candidate Score) → List Run
  run_with (some s) (c ∷ rest) = (s, c, rest) ∷ []
  run_with _ _ = []

  unfoldable pub scored_runs : List (Candidate Score) → ℕ → Table Score → List (List ℕ) → List Run
  unfolding max_score chunks_at
  scored_runs known d scores [] = []
  scored_runs known d scores (run ∷ rest) =
      run_with (max_score scores run) (chunks_at known d run) ++ scored_runs known d scores rest

  unfoldable pub document_runs : List (Candidate Score) → Table (Table Score) → List Run
  unfolding scored_runs runs_of sorted
  document_runs known [] = []
  document_runs known ((d, scores) ∷ rest) =
      scored_runs known d scores (runs_of (sorted (map (λ p. p.0) scores)))
      ++ document_runs known rest

  -- `runs.sort(key=..., reverse=True)`, which keeps the order of equal scores.
  unfoldable pub place_run : Run → List Run → List Run
  place_run r [] = r ∷ []
  place_run r (q ∷ rest) = if higher q.0 r.0 then q ∷ place_run r rest else r ∷ q ∷ rest

  unfoldable pub by_score : List Run → List Run
  unfolding place_run
  by_score [] = []
  by_score (r ∷ rest) = place_run r (by_score rest)

  unfoldable pub cost_of : List (Candidate Score) → ℕ
  unfolding tokens
  cost_of [] = 0
  cost_of (c ∷ rest) = tokens c + cost_of rest

  last_index : Candidate Score → List (Candidate Score) → ℕ
  last_index c [] = c.chunk_index
  last_index c (d ∷ rest) = last_index d rest

  fold_pages : (Option ℕ → ℕ → Option ℕ) → Option ℕ → List (Candidate Score) → Option ℕ
  fold_pages f best [] = best
  fold_pages f best (c ∷ rest) =
      fold_pages f (elim c.page_number [ none ↦ best | some n ↦ f best n ]) rest

  -- The first section that is not missing and not empty.
  first_section : List (Candidate Score) → Option String
  first_section [] = none
  first_section (c ∷ rest) =
      let later = first_section rest in
      elim c.section [ none ↦ later | some s ↦ if str_eq s "" then later else some s ]

  unfoldable pub new_passage :
      ℕ → Score → Candidate Score → List (Candidate Score) → ℕ → Passage Score
  unfolding last_index fold_pages first_section join_lines
  new_passage n score first others cost =
      let chunks = first ∷ others in
      record {
        citation_id = suc n;
        document_id = first.document_id;
        chunk_ids = map (λ c. c.chunk_id) chunks;
        chunk_range = (first.chunk_index, last_index first others);
        page_start = fold_pages least none chunks;
        page_end = fold_pages greatest none chunks;
        section = first_section chunks;
        text = join_lines (map (λ c. c.text) chunks);
        score = score;
        token_count = cost;
      }

  -- The last loop: the passages so far are counted, those that follow are the result.
  unfoldable pub pack : ℕ → List Run → ℕ → ℕ → List (Passage Score)
  unfolding new_passage cost_of tokens
  pack max_tokens [] n used = []
  pack max_tokens ((score, first, others) ∷ rest) n used =
      elim (leb (used + cost_of (first ∷ others)) max_tokens) [
        | true ↦
            new_passage n score first others (cost_of (first ∷ others))
            ∷ pack max_tokens rest (suc n) (used + cost_of (first ∷ others))
        | false ↦ elim n [
          | suc m ↦ pack max_tokens rest (suc m) used
          | zero ↦
              new_passage 0 score first [] (tokens first)
              ∷ pack max_tokens rest 1 (used + tokens first)
        ]
      ]

  unfoldable pub build_passages :
      List (Candidate Score) → List (Candidate Score) → ℕ → ℕ → List (Passage Score)
  unfolding document_runs want_all by_score pack
  build_passages selected neighbors window max_tokens =
      let known = neighbors ++ selected in
      pack max_tokens (by_score (document_runs known (want_all window known selected []))) 0 0
