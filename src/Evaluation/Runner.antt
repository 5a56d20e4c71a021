-- ===== src/Evaluation/Runner.antt =====
-- backend/app/rag/evaluation/runner.py: the retrieval that records its stages, and the run over the cases. The
-- session is the argument `db`, which a retrieval only reads; `Tools` is what the code calls of Python.
use package.text.Mathlib.Text.{◌==◌ as str_eq}
use doc_mind_ai.Base.{
  ℕ, String, Bool, true, false, Option, none, List, [], ◌∷◌, ◌++◌, map, if◌then◌else◌, take,
}
use doc_mind_ai.Model.Errors.{Text, Result, ok, raise}
use doc_mind_ai.Model.Rows.{Db}
use doc_mind_ai.Worker.Stage.{is_cancelled}
use doc_mind_ai.Retrieval.Types.{Candidate}
use doc_mind_ai.Retrieval.Passages.{relevance, build_passages}
use doc_mind_ai.Retrieval.Ranking.{reciprocal_rank_fusion, mmr_select}
use doc_mind_ai.Retrieval.Search.{validate_scope, vector_search, keyword_search, neighbors}
use doc_mind_ai.Retrieval.Retrieve.{Settings, Services, and_next, embed_query, rerank, reordered}
use doc_mind_ai.Evaluation.Dataset.{EvalCase, EvalResult}
use doc_mind_ai.Evaluation.Ranks.{rank_metrics}

pub record Tools (Score : Type 0) : Type 0 where
  pub log2 : ℕ → Score
  pub str_uuid : ℕ → String  -- `str(c.chunk_id)`

-- `_trace` and `_trace_scores`
pub record Trace (Score : Type 0) : Type 0 where
  pub stage_chunks : List (String × List String)
  pub stage_scores : List (String × List Score)

-- `d[key] = v`
unfoldable pub assign {ℓ} : {A : Type ℓ} → String → A → List (String × A) → List (String × A)
assign key v [] = (key, v) ∷ []
assign key v ((k, w) ∷ rest) =
    let later = assign key v rest in if str_eq k key then (k, v) ∷ rest else (k, w) ∷ later

abbrev pub no_trace : {Score : Type 0} → Trace Score
no_trace = record { stage_chunks = []; stage_scores = [] }

module _ {Score : Type 0} (cfg : Settings Score) (services : Services Score)
    (tools : Tools Score) where
  -- `_record`; every candidate has a `relevance`.
  unfoldable pub record_stage : String → List (Candidate Score) → Trace Score → Trace Score
  unfolding assign
  record_stage stage candidates trace = record {
    stage_chunks =
        assign stage (map (λ c. tools.str_uuid c.chunk_id) candidates) trace.stage_chunks;
    stage_scores =
        assign stage (map (relevance services.arithmetic.higher) candidates) trace.stage_scores;
  }

  abbrev unnamed_case : String → ℕ → List ℕ → EvalCase
  unnamed_case query user_id document_ids = record {
    id = "";
    query = query;
    user_id = user_id;
    document_ids = document_ids;
    relevant_chunk_ids = [];
    answerable = true;
    reference_answer = "";
    tags = [];
  }

  -- `UUID(int=0)` is the id 0.
  unfoldable pub build_empty_result : String → Trace Score → EvalResult Score
  build_empty_result query trace = record {
    case = unnamed_case query 0 [];
    stage_chunks = trace.stage_chunks;
    stage_scores = trace.stage_scores;
    metrics = [];
    reranked = false;
    passages_text = [];
  }

  -- The steps after the rerank.
  unfoldable pub instrumented_end :
      ℕ → ℕ → List ℕ → Db → String → Trace Score → Bool → List (Candidate Score) → EvalResult Score
  unfolding record_stage mmr_select neighbors build_passages
  instrumented_end user_id top_k document_ids db query trace reranked candidates =
      let selected =
        mmr_select services.arithmetic services.similarity candidates top_k cfg.mmr_lambda in
      let near = neighbors services.arithmetic services.engine selected cfg.neighbor_window db in
      let passages =
        build_passages services.arithmetic.higher selected near cfg.neighbor_window
          cfg.max_context_tokens in
      let recorded =
        record_stage "expanded" (selected ++ near)
          (record_stage "selected" selected (record_stage "post_rerank" candidates trace)) in
      record {
        case = unnamed_case query user_id document_ids;
        stage_chunks = recorded.stage_chunks;
        stage_scores = recorded.stage_scores;
        metrics = [];
        reranked = reranked;
        passages_text = map (λ p. p.text) passages;
      }

  -- The steps after the fusion.
  unfoldable pub instrumented_finish :
      ℕ
      → ℕ
      → List ℕ
      → Db
      → String
      → Trace Score
      → List (Candidate Score)
      → Result (EvalResult Score)
  unfolding record_stage build_empty_result rerank reordered instrumented_end
  instrumented_finish user_id top_k document_ids db query trace [] =
      ok (build_empty_result query trace)
  instrumented_finish user_id top_k document_ids db query trace (c ∷ fused) =
      let candidates = take cfg.rerank_candidates (c ∷ fused) in
      let call = if cfg.rerank_enabled then services.reranker else none in
      and_next (rerank cfg services call query candidates) (λ outcome. ok (
        instrumented_end user_id top_k document_ids db query
          (record_stage "rerank_input" candidates trace) outcome.0
          (reordered cfg services outcome).0))

  unfoldable pub instrumented_searched :
      ℕ → ℕ → List ℕ → Db → String → List ℕ → Result (EvalResult Score)
  unfolding vector_search keyword_search reciprocal_rank_fusion record_stage instrumented_finish
  instrumented_searched user_id top_k document_ids db query query_vector =
      let keyword =
        keyword_search services.arithmetic services.engine user_id query document_ids
          cfg.keyword_candidates db in
      let vector =
        vector_search services.arithmetic services.engine user_id query_vector document_ids
          cfg.vector_candidates db in
      let fused =
        reciprocal_rank_fusion services.arithmetic vector keyword cfg.rrf_k cfg.vector_weight
          cfg.keyword_weight in
      instrumented_finish user_id top_k document_ids db query
        (record_stage "fused" fused
          (record_stage "vector" vector (record_stage "keyword" keyword no_trace)))
        fused

  unfoldable pub retrieve_instrumented : ℕ → String → ℕ → List ℕ → Db → Result (EvalResult Score)
  unfolding validate_scope embed_query instrumented_searched
  retrieve_instrumented user_id query top_k document_ids db =
      let text = services.collapse query in
      and_next (validate_scope user_id document_ids db) (λ _.
        and_next (embed_query cfg services text)
          (instrumented_searched user_id top_k document_ids db text))

  unfoldable pub compute_metrics :
      List (String × List String)
      → List String
      → List ℕ
      → List (String × List (Text × Option Score))
  unfolding rank_metrics
  compute_metrics [] gold ks = []
  compute_metrics ((stage, ids) ∷ rest) gold ks =
      (stage, rank_metrics services.arithmetic tools.log2 ids gold ks)
      ∷ compute_metrics rest gold ks

  unfoldable pub completed : EvalCase → List ℕ → EvalResult Score → EvalResult Score
  unfolding compute_metrics
  completed c ks result = record result {
    case = c;
    metrics = compute_metrics result.stage_chunks c.relevant_chunk_ids ks;
  }

  -- One turn of the loop: the result, if there is one, before those of the other cases.
  unfoldable pub add_outcome :
      EvalCase
      → List ℕ
      → Result (EvalResult Score)
      → Result (List (EvalResult Score))
      → Result (List (EvalResult Score))
  unfolding completed
  add_outcome c ks (ok result) others = and_next others (λ l. ok (completed c ks result ∷ l))
  add_outcome c ks (raise e) others = if is_cancelled e.class then raise e else others

  unfoldable pub run_eval : List EvalCase → ℕ → List ℕ → Db → Result (List (EvalResult Score))
  unfolding retrieve_instrumented add_outcome
  run_eval [] top_k ks db = ok []
  run_eval (c ∷ cases) top_k ks db =
      add_outcome c ks (retrieve_instrumented c.user_id c.query top_k c.document_ids db)
        (run_eval cases top_k ks db)
