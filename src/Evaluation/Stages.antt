-- ===== src/Evaluation/Stages.antt =====
-- Which chunks the stages of backend/app/rag/evaluation/runner.py record.
use package.text.Mathlib.Text.{◌==◌ as str_eq}
use mathlib.Core.Path.{subst}
use doc_mind_ai.Base.{
  ℕ, ◌≡◌, refl, String, Bool, none, List, [], ◌∷◌, map, if◌then◌else◌, take, All, All-append,
  All-take, Bool-cases, inl, inr,
}
use doc_mind_ai.Model.Errors.{ok}
use doc_mind_ai.Model.Rows.{Db}
use doc_mind_ai.Retrieval.Types.{Candidate}
use doc_mind_ai.Retrieval.Ranking.{reciprocal_rank_fusion, mmr_select}
use doc_mind_ai.Retrieval.Readable.{reciprocal_rank_fusion-Fits, mmr_select-Fits}
use doc_mind_ai.Retrieval.Search.{validate_scope, vector_search, keyword_search}
use doc_mind_ai.Retrieval.Tenancy.{
  Readable, IsSelective, vector_search-Fits, keyword_search-Fits, neighbors-Fits,
}
use doc_mind_ai.Retrieval.Retrieve.{Settings, Services, embed_query, rerank}
use doc_mind_ai.Retrieval.Isolation.{Holds, and_next-Holds, always, rerank-Fits, reordered-Fits}
use doc_mind_ai.Evaluation.Dataset.{EvalResult}
use doc_mind_ai.Evaluation.Runner.{
  Tools, Trace, assign, no_trace, record_stage, build_empty_result, instrumented_end,
  instrumented_finish, instrumented_searched, retrieve_instrumented,
}

assign-All {ℓ κ} :
    {A : Type ℓ} (P : A → Type κ) (key : String) (v : A) (d : List (String × A))
    → P v
    → All (λ e. P e.1) d
    → All (λ e. P e.1) (assign key v d)
unfolding assign
assign-All P key v [] here all = (here, tt)
assign-All P key v ((k, w) ∷ rest) here all = elim (Bool-cases (str_eq k key)) [
  | inl e ↦ rw e (here, all.1)
  | inr e ↦ rw e (all.0, assign-All P key v rest here all.1)
]

module _ {Score : Type 0} (cfg : Settings Score) (services : Services Score) (tools : Tools Score)
    (selective : IsSelective services.engine) (user_id : ℕ) (document_ids : List ℕ) (db : Db) where
  abbrev Fits : Candidate Score → Type 0
  Fits c = Readable user_id document_ids db c.chunk_id c.document_id

  -- The id of a chunk of a document that the user may read.
  abbrev pub IsReadableId : String → Type 0
  IsReadableId s =
      (id : ℕ) × (d : ℕ) × (s ≡ tools.str_uuid id) × Readable user_id document_ids db id d

  abbrev pub AreReadableIds : List (String × List String) → Type 0
  AreReadableIds = All (λ e. All IsReadableId e.1)

  ids-Fits :
      (l : List (Candidate Score))
      → All Fits l
      → All IsReadableId (map (λ c. tools.str_uuid c.chunk_id) l)
  ids-Fits [] all = tt
  ids-Fits (c ∷ l) all = ((c.chunk_id, c.document_id, refl, all.0), ids-Fits l all.1)

  record_stage-Fits :
      (stage : String) (l : List (Candidate Score)) (trace : Trace Score)
      → All Fits l
      → AreReadableIds trace.stage_chunks
      → AreReadableIds (record_stage cfg services tools stage l trace).stage_chunks
  unfolding record_stage
  record_stage-Fits stage l trace all h =
      assign-All (All IsReadableId) stage _ trace.stage_chunks (ids-Fits l all) h

  instrumented_end-Fits :
      (top_k : ℕ) (query : String) (trace : Trace Score) (reranked : Bool)
      (l : List (Candidate Score))
      → All Fits l
      → AreReadableIds trace.stage_chunks
      → AreReadableIds
          (instrumented_end cfg services tools user_id top_k document_ids db query trace reranked
            l).stage_chunks
  unfolding instrumented_end
  instrumented_end-Fits top_k query trace reranked l all h =
      let chosen_list = mmr_select services.arithmetic services.similarity l top_k cfg.mmr_lambda in
      let after = record_stage cfg services tools "post_rerank" l trace in
      let chosen =
        mmr_select-Fits services.arithmetic (Readable user_id document_ids db) services.similarity l
          top_k cfg.mmr_lambda all in
      let near =
        neighbors-Fits services.arithmetic services.engine selective user_id document_ids db _
          cfg.neighbor_window chosen in
      record_stage-Fits "expanded" _ (record_stage cfg services tools "selected" chosen_list after)
        (All-append Fits _ _ chosen near)
        (record_stage-Fits "selected" _ after chosen
          (record_stage-Fits "post_rerank" l trace all h))

  instrumented_finish-Fits :
      (top_k : ℕ) (query : String) (trace : Trace Score) (fused : List (Candidate Score))
      → All Fits fused
      → AreReadableIds trace.stage_chunks
      → Holds
          (λ r. AreReadableIds r.stage_chunks)
          (instrumented_finish cfg services tools user_id top_k document_ids db query trace fused)
  unfolding instrumented_finish build_empty_result
  instrumented_finish-Fits top_k query trace [] all h = h
  instrumented_finish-Fits top_k query trace (c ∷ fused) all h =
      let call = if cfg.rerank_enabled then services.reranker else none in
      let candidates = take cfg.rerank_candidates (c ∷ fused) in
      let few = All-take Fits cfg.rerank_candidates (c ∷ fused) all in
      and_next-Holds (λ o. All Fits o.1) (λ (r : EvalResult Score). AreReadableIds r.stage_chunks)
        (rerank cfg services call query candidates) _
        (rerank-Fits cfg services selective user_id document_ids db call query candidates few)
        (λ o kept.
          instrumented_end-Fits top_k query
            (record_stage cfg services tools "rerank_input" candidates trace) o.0 _
            (reordered-Fits cfg services selective user_id document_ids db o kept)
            (record_stage-Fits "rerank_input" candidates trace few h))

  instrumented_searched-Fits :
      (top_k : ℕ) (query : String) (v : List ℕ)
      → Holds
          (λ r. AreReadableIds r.stage_chunks)
          (instrumented_searched cfg services tools user_id top_k document_ids db query v)
  unfolding instrumented_searched
  instrumented_searched-Fits top_k query v =
      let vector =
        vector_search-Fits services.arithmetic services.engine selective user_id document_ids db v
          cfg.vector_candidates in
      let keyword =
        keyword_search-Fits services.arithmetic services.engine selective user_id document_ids db
          query cfg.keyword_candidates in
      let fused =
        reciprocal_rank_fusion-Fits services.arithmetic (Readable user_id document_ids db) _ _
          cfg.rrf_k cfg.vector_weight cfg.keyword_weight vector keyword in
      let words =
        keyword_search services.arithmetic services.engine user_id query document_ids
          cfg.keyword_candidates db in
      let near =
        vector_search services.arithmetic services.engine user_id v document_ids
          cfg.vector_candidates db in
      let both =
        reciprocal_rank_fusion services.arithmetic near words cfg.rrf_k cfg.vector_weight
          cfg.keyword_weight in
      let first = record_stage cfg services tools "keyword" words no_trace in
      let second = record_stage cfg services tools "vector" near first in
      let third = record_stage cfg services tools "fused" both second in
      instrumented_finish-Fits top_k query third both fused (
        record_stage-Fits "fused" both second fused (
          record_stage-Fits "vector" _ first vector
            (record_stage-Fits "keyword" _ no_trace keyword tt)))

  retrieve_instrumented-Holds :
      (query : String) (top_k : ℕ)
      → Holds
          (λ r. AreReadableIds r.stage_chunks)
          (retrieve_instrumented cfg services tools user_id query top_k document_ids db)
  unfolding retrieve_instrumented
  retrieve_instrumented-Holds query top_k =
      let text = services.collapse query in
      and_next-Holds (λ _. Unit) _ (validate_scope user_id document_ids db) _
        (always cfg services selective user_id document_ids db _)
        (λ _ _.
          and_next-Holds (λ _. Unit) _ (embed_query cfg services text) _
            (always cfg services selective user_id document_ids db _)
            (λ v _. instrumented_searched-Fits top_k text v))

  -- Every chunk id that the recording retrieval keeps at any stage, of the two searches, the
  -- fusion, the rerank, the selection and the expansion, is of a chunk of an INDEXED document of
  -- the user and, where document ids were given, of one of these. Condition: the database answers
  -- a statement with rows that the statement selects.
  pub retrieve_instrumented-isolated :
      (query : String) (top_k : ℕ) (result : EvalResult Score)
      → retrieve_instrumented cfg services tools user_id query top_k document_ids db ≡ ok result
      → AreReadableIds result.stage_chunks
  retrieve_instrumented-isolated query top_k result e =
      subst (Holds (λ r. AreReadableIds r.stage_chunks)) e (retrieve_instrumented-Holds query top_k)
