-- ===== src/Retrieval/Retrieve.antt =====
-- backend/app/rag/retrieval/retrieval.py: `retrieve`, with `_embed` and `_rerank`. The times of the steps
-- are left out.
use Prim.Native.String.{◌++◌ as append}
use doc_mind_ai.Base.{
  ℕ, String, Bool, true, false, not, Option, none, some, List, [], ◌∷◌, map, if◌then◌else◌, ◌==◌,
  length, take, select,
}
use doc_mind_ai.Model.Errors.{
  Text, error, embedding_unavailable, runtime_error, value_error, timeout_error, other, str, number,
  Result, ok, raise,
}
use doc_mind_ai.Model.Rows.{Db}
use doc_mind_ai.Worker.Stage.{is_cancelled}
use doc_mind_ai.Embedding.Batches.{Client, Vectors, is_timeout, embed_in_batches}
use doc_mind_ai.Retrieval.Types.{Candidate, Passage}
use doc_mind_ai.Retrieval.Passages.{build_passages}
use doc_mind_ai.Retrieval.Context.{render_context}
use doc_mind_ai.Retrieval.Ranking.{Arithmetic, sort_candidates, reciprocal_rank_fusion, mmr_select}
use doc_mind_ai.Retrieval.Search.{Engine, validate_scope, vector_search, keyword_search, neighbors}

pub record Settings (Score : Type 0) : Type 0 where
  pub query_prefix : String
  pub dimension : ℕ
  pub keyword_candidates : ℕ
  pub vector_candidates : ℕ
  pub rrf_k : ℕ
  pub vector_weight : Score
  pub keyword_weight : Score
  pub rerank_candidates : ℕ
  pub rerank_enabled : Bool
  pub rerank_min_score : Option Score
  pub mmr_lambda : Score
  pub neighbor_window : ℕ
  pub max_context_tokens : ℕ

-- What `retrieve` calls of other services: `collapse` is `" ".join(query.split())`, a reranker gives scores or raises, a
-- timeout included, and `expired` says that the deadline of the embedding passed first.
pub record Services (Score : Type 0) : Type 0 where
  pub arithmetic : Arithmetic Score
  pub engine : Engine Score
  pub client : Client
  pub expired : Bool
  pub collapse : String → String
  pub is_blank : String → Bool  -- the empty text
  pub reranker : Option (String → List String → Result (List Score))
  pub similarity : List (Candidate Score) → ℕ → ℕ → Score

pub record RetrievalResult (Score : Type 0) : Type 0 where
  pub query : String
  pub passages : List (Passage Score)
  pub context : Text
  pub vector_count : ℕ
  pub keyword_count : ℕ
  pub fused_count : ℕ
  pub after_threshold : Option ℕ
  pub reranked : Bool

abbrev pub and_next {ℓ κ} : {A : Type ℓ} {B : Type κ} → Result A → (A → Result B) → Result B
and_next (ok x) f = f x
and_next (raise e) f = raise e

-- `vecs[0]`, of the expected dimension.
abbrev first_vector : ℕ → Vectors → Result (List ℕ)
first_vector dimension [] = raise (error other (str "list index out of range" ∷ []))
first_vector dimension (v ∷ vectors) =
    if length v == dimension
    then ok v
    else raise (
        error runtime_error (
          str "query embedding dim "
          ∷ number (length v)
          ∷ str " != index dim "
          ∷ number dimension
          ∷ []))

abbrev embed_handled : Result Vectors → Result Vectors
embed_handled (ok vectors) = ok vectors
embed_handled (raise e) =
    raise (if is_timeout e.class then error embedding_unavailable e.message else e)

module _ {Score : Type 0} (cfg : Settings Score) (services : Services Score) where
  unfoldable pub normalize : String → Result String
  normalize query =
      if services.is_blank (services.collapse query)
      then raise (error value_error (str "query must not be empty" ∷ []))
      else ok (services.collapse query)

  unfoldable pub embed_query : String → Result (List ℕ)
  unfolding embed_in_batches
  embed_query query =
      let vectors =
        if services.expired
        then raise (error timeout_error [])
        else embed_in_batches services.client (append cfg.query_prefix query ∷ []) in
      and_next (embed_handled vectors) (first_vector cfg.dimension)

  -- `zip(candidates, scores, strict=True)`
  unfoldable pub zip_scores : List (Candidate Score) → List Score → Result (List (Candidate Score))
  zip_scores [] [] = ok []
  zip_scores (c ∷ candidates) (s ∷ scores) =
      and_next (zip_scores candidates scores)
        (λ rest. ok (record c { rerank_score = some s } ∷ rest))
  zip_scores (c ∷ candidates) [] =
      raise (error value_error (str "zip() argument 2 is shorter than argument 1" ∷ []))
  zip_scores [] (s ∷ scores) =
      raise (error value_error (str "zip() argument 2 is longer than argument 1" ∷ []))

  -- Whether the candidates were scored, and the candidates.
  unfoldable pub scored :
      List (Candidate Score) → Result (List Score) → Result (Bool × List (Candidate Score))
  unfolding zip_scores
  scored candidates (ok scores) = and_next (zip_scores candidates scores) (λ l. ok (true, l))
  scored candidates (raise e) = if is_cancelled e.class then raise e else ok (false, candidates)

  unfoldable pub rerank :
      Option (String → List String → Result (List Score))
      → String
      → List (Candidate Score)
      → Result (Bool × List (Candidate Score))
  unfolding scored
  rerank none query candidates = ok (false, candidates)
  rerank (some score) query candidates =
      scored candidates (score query (map (λ c. c.text) candidates))

  abbrev pub passes : Score → Candidate Score → Bool
  passes threshold c = elim c.rerank_score [
    | none ↦ false
    | some s ↦ not (services.arithmetic.higher threshold s)
  ]

  abbrev pub thresholded : Option Score → List (Candidate Score) → List (Candidate Score) × Option ℕ
  thresholded none candidates = (candidates, none)
  thresholded (some threshold) candidates =
      let kept = select (passes threshold) candidates in (kept, some (length kept))

  -- `float("-inf")` is below every score: after a successful call every candidate has one.
  abbrev pub rerank_key : Candidate Score → Score
  rerank_key c = elim c.rerank_score [ none ↦ services.arithmetic.nil | some s ↦ s ]

  unfoldable pub reordered : Bool × List (Candidate Score) → List (Candidate Score) × Option ℕ
  unfolding sort_candidates
  reordered (false, candidates) = (candidates, none)
  reordered (true, candidates) =
      thresholded cfg.rerank_min_score (sort_candidates services.arithmetic rerank_key candidates)

  -- The result without a candidate, and the steps after the fusion.
  unfoldable pub expand : ℕ → Db → List (Candidate Score) → List (Passage Score)
  unfolding mmr_select neighbors build_passages
  expand top_k db candidates =
      let chosen =
        mmr_select services.arithmetic services.similarity candidates top_k cfg.mmr_lambda in
      build_passages services.arithmetic.higher chosen
        (neighbors services.arithmetic services.engine chosen cfg.neighbor_window db)
        cfg.neighbor_window cfg.max_context_tokens

  unfoldable pub finish :
      String → ℕ → Db → ℕ → ℕ → List (Candidate Score) → Result (RetrievalResult Score)
  unfolding rerank reordered expand render_context
  finish query top_k db vectors keywords [] = ok (record {
    query = query;
    passages = [];
    context = [];
    vector_count = vectors;
    keyword_count = keywords;
    fused_count = 0;
    after_threshold = none;
    reranked = false;
  })
  finish query top_k db vectors keywords (c ∷ fused) =
      let candidates = take cfg.rerank_candidates (c ∷ fused) in
      let call = if cfg.rerank_enabled then services.reranker else none in
      and_next (rerank call query candidates) (λ outcome.
        let (kept, count) = reordered outcome in
        ok (record {
          query = query;
          passages = expand top_k db kept;
          context = render_context (expand top_k db kept);
          vector_count = vectors;
          keyword_count = keywords;
          fused_count = length (c ∷ fused);
          after_threshold = count;
          reranked = outcome.0;
        }))

  unfoldable pub searched : ℕ → ℕ → List ℕ → Db → String → List ℕ → Result (RetrievalResult Score)
  unfolding vector_search keyword_search reciprocal_rank_fusion finish
  searched user_id top_k document_ids db query query_vector =
      let keyword =
        keyword_search services.arithmetic services.engine user_id query document_ids
          cfg.keyword_candidates db in
      let vector =
        vector_search services.arithmetic services.engine user_id query_vector document_ids
          cfg.vector_candidates db in
      finish query top_k db (length vector) (length keyword) (
        reciprocal_rank_fusion services.arithmetic vector keyword cfg.rrf_k cfg.vector_weight
          cfg.keyword_weight)

  unfoldable pub retrieve : ℕ → String → ℕ → List ℕ → Db → Result (RetrievalResult Score)
  unfolding validate_scope normalize embed_query searched
  retrieve user_id query top_k document_ids db =
      and_next (validate_scope user_id document_ids db) (λ _.
        and_next (normalize query)
          (λ text. and_next (embed_query text) (searched user_id top_k document_ids db text)))
