-- ===== src/Retrieval/Isolation.antt =====
-- Where the passages of a retrieval come from, and what becomes of a reranker's failure.
use mathlib.Core.Path.{subst}
use doc_mind_ai.Base.{
  ℕ, suc, ◌≡◌, ◌≢◌, refl, ap, String, Bool, true, false, Option, none, some, List, [], ◌∷◌, map,
  if◌then◌else◌, length, take, All, All-take, All-select, Bool-cases, inl, inr, arith,
}
use doc_mind_ai.Model.Errors.{value_error, Error, Result, ok, raise}
use doc_mind_ai.Model.Rows.{Db}
use doc_mind_ai.Worker.Stage.{is_cancelled}
use doc_mind_ai.Retrieval.Types.{Candidate, Passage}
use doc_mind_ai.Retrieval.Readable.{
  sort_candidates-Fits, reciprocal_rank_fusion-Fits, mmr_select-Fits,
}
use doc_mind_ai.Retrieval.Origins.{PassageFits, build_passages-Fits}
use doc_mind_ai.Retrieval.Search.{validate_scope}
use doc_mind_ai.Retrieval.Tenancy.{
  Readable, IsSelective, vector_search-Fits, keyword_search-Fits, neighbors-Fits,
}
use doc_mind_ai.Retrieval.Retrieve.{
  Settings, Services, RetrievalResult, and_next, normalize, embed_query, zip_scores, scored, rerank,
  passes, thresholded, rerank_key, reordered, expand, finish, searched, retrieve,
}

-- What holds of a value that is returned.
abbrev pub Holds {ℓ κ} : {A : Type ℓ} → (A → Type κ) → Result A → Type κ
Holds P (ok x) = P x
Holds P (raise e) = Unit

pub and_next-Holds {ℓ κ μ} :
    {A : Type ℓ} {B : Type κ} (P : A → Type μ) (Q : B → Type μ) (r : Result A) (f : A → Result B)
    → Holds P r
    → ((x : A) → P x → Holds Q (f x))
    → Holds Q (and_next r f)
and_next-Holds P Q (ok x) f h g = g x h
and_next-Holds P Q (raise e) f h g = tt

module _ {Score : Type 0} (cfg : Settings Score) (services : Services Score)
    (selective : IsSelective services.engine) (user_id : ℕ) (document_ids : List ℕ) (db : Db) where
  abbrev Fits : Candidate Score → Type 0
  Fits c = Readable user_id document_ids db c.chunk_id c.document_id

  abbrev AreReadable : List (Passage Score) → Type 0
  AreReadable = All (PassageFits services.arithmetic.higher (Readable user_id document_ids db))

  zip_scores-Fits :
      (l : List (Candidate Score)) (scores : List Score)
      → All Fits l
      → Holds (All Fits) (zip_scores cfg services l scores)
  unfolding zip_scores
  zip_scores-Fits [] [] all = tt
  zip_scores-Fits [] (s ∷ scores) all = tt
  zip_scores-Fits (c ∷ l) [] all = tt
  zip_scores-Fits (c ∷ l) (s ∷ scores) all =
      and_next-Holds (All Fits) (All Fits) (zip_scores cfg services l scores) _
        (zip_scores-Fits l scores all.1) (λ rest h. (all.0, h))

  scored-Fits :
      (l : List (Candidate Score)) (r : Result (List Score))
      → All Fits l
      → Holds (λ o. All Fits o.1) (scored cfg services l r)
  unfolding scored
  scored-Fits l (ok scores) all =
      and_next-Holds (All Fits) (λ o. All Fits o.1) (zip_scores cfg services l scores) _
        (zip_scores-Fits l scores all) (λ rest h. h)
  scored-Fits l (raise e) all = elim (Bool-cases (is_cancelled e.class)) [
    | inl c ↦ rw c tt
    | inr c ↦ rw c all
  ]

  pub rerank-Fits :
      (call : Option (String → List String → Result (List Score))) (query : String)
      (l : List (Candidate Score))
      → All Fits l
      → Holds (λ o. All Fits o.1) (rerank cfg services call query l)
  unfolding rerank
  rerank-Fits none query l all = all
  rerank-Fits (some score) query l all = scored-Fits l _ all

  thresholded-Fits :
      (least : Option Score) (l : List (Candidate Score))
      → All Fits l
      → All Fits (thresholded cfg services least l).0
  thresholded-Fits none l all = all
  thresholded-Fits (some s) l all = All-select Fits (passes cfg services s) l all

  pub reordered-Fits :
      (o : Bool × List (Candidate Score)) → All Fits o.1 → All Fits (reordered cfg services o).0
  unfolding reordered
  reordered-Fits (false, l) all = all
  reordered-Fits (true, l) all = thresholded-Fits cfg.rerank_min_score _ (
      sort_candidates-Fits services.arithmetic (Readable user_id document_ids db)
        (rerank_key cfg services) l all)

  expand-Fits :
      (top_k : ℕ) (l : List (Candidate Score))
      → All Fits l
      → AreReadable (expand cfg services top_k db l)
  unfolding expand
  expand-Fits top_k l all =
      let chosen =
        mmr_select-Fits services.arithmetic (Readable user_id document_ids db) services.similarity l
          top_k cfg.mmr_lambda all in
      build_passages-Fits services.arithmetic.higher (Readable user_id document_ids db) _ _
        cfg.neighbor_window cfg.max_context_tokens chosen
        (neighbors-Fits services.arithmetic services.engine selective user_id document_ids db _
          cfg.neighbor_window chosen)

  finish-Fits :
      (query : String) (top_k vectors keywords : ℕ) (fused : List (Candidate Score))
      → All Fits fused
      → Holds
          (λ r. AreReadable r.passages)
          (finish cfg services query top_k db vectors keywords fused)
  unfolding finish
  finish-Fits query top_k vectors keywords [] all = tt
  finish-Fits query top_k vectors keywords (c ∷ fused) all =
      let call = if cfg.rerank_enabled then services.reranker else none in
      let candidates = take cfg.rerank_candidates (c ∷ fused) in
      and_next-Holds (λ o. All Fits o.1) (λ (r : RetrievalResult Score). AreReadable r.passages)
        (rerank cfg services call query candidates) _
        (rerank-Fits call query candidates (All-take Fits cfg.rerank_candidates (c ∷ fused) all))
        (λ o h. expand-Fits top_k _ (reordered-Fits o h))

  searched-Fits :
      (top_k : ℕ) (query : String) (v : List ℕ)
      → Holds
          (λ r. AreReadable r.passages)
          (searched cfg services user_id top_k document_ids db query v)
  unfolding searched
  searched-Fits top_k query v = finish-Fits query top_k _ _ _ (
      reciprocal_rank_fusion-Fits services.arithmetic (Readable user_id document_ids db) _ _
        cfg.rrf_k cfg.vector_weight cfg.keyword_weight
        (vector_search-Fits services.arithmetic services.engine selective user_id document_ids db v
          cfg.vector_candidates)
        (keyword_search-Fits services.arithmetic services.engine selective user_id document_ids db
          query cfg.keyword_candidates))

  pub always : {A : Type 0} (r : Result A) → Holds (λ x. Unit {0}) r
  always (ok x) = tt
  always (raise e) = tt

  retrieve-Holds :
      (query : String) (top_k : ℕ)
      → Holds
          (λ r. AreReadable r.passages)
          (retrieve cfg services user_id query top_k document_ids db)
  unfolding retrieve
  retrieve-Holds query top_k =
      and_next-Holds (λ _. Unit) _ (validate_scope user_id document_ids db) _ (always _)
        (λ _ _.
          and_next-Holds (λ _. Unit) _ (normalize cfg services query) _ (always _)
            (λ text _.
              and_next-Holds (λ _. Unit) _ (embed_query cfg services text) _ (always _)
                (λ v _. searched-Fits top_k text v)))

  -- Every passage that retrieve returns is of an INDEXED document of the user, and, where document
  -- ids were given, of one of these, and so is every chunk in it: each of them is a row of the
  -- chunks of such a document, the neighbors included. Condition: the database answers a statement
  -- with rows that the statement selects.
  pub retrieve-isolated :
      (query : String) (top_k : ℕ) (result : RetrievalResult Score)
      → retrieve cfg services user_id query top_k document_ids db ≡ ok result
      → All
          (PassageFits services.arithmetic.higher (Readable user_id document_ids db))
          result.passages
  retrieve-isolated query top_k result e =
      subst (Holds (λ r. AreReadable r.passages)) e (retrieve-Holds query top_k)

module _ {Score : Type 0} (cfg : Settings Score) (services : Services Score) where
  zip_scores-mismatch :
      (l : List (Candidate Score)) (scores : List Score)
      → length scores ≢ length l
      → (e : Error) × (zip_scores cfg services l scores ≡ raise e) × (e.class ≡ value_error)
  unfolding zip_scores
  zip_scores-mismatch [] [] h = absurd (h refl)
  zip_scores-mismatch [] (s ∷ scores) h = (_, refl, refl)
  zip_scores-mismatch (c ∷ l) [] h = (_, refl, refl)
  zip_scores-mismatch (c ∷ l) (s ∷ scores) h =
      let (e, raised, class) = zip_scores-mismatch l scores (λ same. h (ap suc same)) in
      (e, rw raised refl, class)

  -- If the reranker answers with another number of scores than there are candidates, the rerank
  -- raises ValueError, so that the search fails with it.
  pub rerank-mismatch :
      (score : String → List String → Result (List Score)) (query : String)
      (l : List (Candidate Score)) (scores : List Score)
      → score query (map (λ c. c.text) l) ≡ ok scores
      → length scores ≢ length l
      → (e : Error) × (rerank cfg services (some score) query l ≡ raise e) × (e.class ≡ value_error)
  unfolding rerank scored
  rerank-mismatch score query l scores answered h =
      let (e, raised, class) = zip_scores-mismatch l scores h in
      (e, rw answered (rw raised refl), class)

  zip_scores-scored :
      (l : List (Candidate Score)) (scores : List Score)
      → length scores ≡ length l
      → (scored_list : List (Candidate Score)) × (zip_scores cfg services l scores ≡ ok scored_list)
        × (map (λ c. c.rerank_score) scored_list ≡ map some scores)
        × (map (λ c. c.chunk_id) scored_list ≡ map (λ c. c.chunk_id) l)
  unfolding zip_scores
  zip_scores-scored [] [] h = ([], refl, refl, refl)
  zip_scores-scored [] (s ∷ scores) h = absurd (omega (arith, h))
  zip_scores-scored (c ∷ l) [] h = absurd (omega (arith, h))
  zip_scores-scored (c ∷ l) (s ∷ scores) h =
      let (rest, zipped, marks, ids) = zip_scores-scored l scores (omega (arith, h)) in
      (
        record c { rerank_score = some s } ∷ rest,
        rw zipped refl,
        ap (◌∷◌ (some s)) marks,
        ap (◌∷◌ c.chunk_id) ids,
      )

  pub rerank-falls_back :
      (score : String → List String → Result (List Score)) (query : String)
      (l : List (Candidate Score)) (e : Error)
      → score query (map (λ c. c.text) l) ≡ raise e
      → is_cancelled e.class ≡ false
      → rerank cfg services (some score) query l ≡ ok (false, l)
  unfolding rerank scored
  rerank-falls_back score query l e failed alive = rw failed (rw alive refl)
