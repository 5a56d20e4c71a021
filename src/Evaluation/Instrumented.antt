-- ===== src/Evaluation/Instrumented.antt =====
-- How the recording retrieval of backend/app/rag/evaluation/runner.py compares with `retrieve` of
-- backend/app/rag/retrieval/retrieval.py.
use doc_mind_ai.Base.{
  ℕ, ◌≡◌, refl, String, Bool, false, none, List, [], ◌∷◌, map, if◌then◌else◌, take,
}
use doc_mind_ai.Model.Errors.{Result, ok, raise}
use doc_mind_ai.Model.Rows.{Db}
use doc_mind_ai.Retrieval.Types.{Candidate}
use doc_mind_ai.Retrieval.Search.{validate_scope}
use doc_mind_ai.Retrieval.Retrieve.{
  Settings, Services, RetrievalResult, and_next, normalize, embed_query, rerank, expand, finish,
  searched, retrieve,
}
use doc_mind_ai.Evaluation.Dataset.{EvalResult}
use doc_mind_ai.Evaluation.Runner.{
  Tools, Trace, instrumented_end, instrumented_finish, instrumented_searched, retrieve_instrumented,
}

-- A returned value through a function; an error as it is.
abbrev pub map_result {ℓ κ} : {A : Type ℓ} {B : Type κ} → (A → B) → Result A → Result B
map_result f (ok x) = ok (f x)
map_result f (raise e) = raise e

map_result-and_next {ℓ κ μ ν} :
    {A : Type ℓ} {B : Type κ} {C : Type μ} {D : Type ν} (g : B → D) (h : C → D) (r : Result A)
    (f : A → Result B) (k : A → Result C)
    → ((x : A) → map_result g (f x) ≡ map_result h (k x))
    → map_result g (and_next r f) ≡ map_result h (and_next r k)
map_result-and_next g h (ok x) f k same = same x
map_result-and_next g h (raise e) f k same = refl

-- What both results tell of a retrieval: the collapsed query, whether the candidates were reranked, and the texts of the
-- passages.
abbrev pub Answer : Type 0
Answer = String × Bool × List String

abbrev pub answer : {Score : Type 0} → RetrievalResult Score → Answer
answer r = (r.query, r.reranked, map (λ p. p.text) r.passages)

abbrev pub recorded_answer : {Score : Type 0} → EvalResult Score → Answer
recorded_answer r = (r.case.query, r.reranked, r.passages_text)

module _ {Score : Type 0} (cfg : Settings Score) (services : Services Score) (tools : Tools Score)
    (user_id top_k : ℕ) (document_ids : List ℕ) (db : Db) where
  finish-answer :
      (query : String) (vectors keywords : ℕ) (trace : Trace Score) (fused : List (Candidate Score))
      → map_result recorded_answer
          (instrumented_finish cfg services tools user_id top_k document_ids db query trace fused)
        ≡ map_result answer (finish cfg services query top_k db vectors keywords fused)
  unfolding instrumented_finish instrumented_end finish expand
  finish-answer query vectors keywords trace [] = refl
  finish-answer query vectors keywords trace (c ∷ fused) =
      let call = if cfg.rerank_enabled then services.reranker else none in
      let candidates = take cfg.rerank_candidates (c ∷ fused) in
      map_result-and_next recorded_answer answer (rerank cfg services call query candidates) _ _
        (λ outcome. refl)

  searched-answer :
      (query : String) (v : List ℕ)
      → map_result recorded_answer
          (instrumented_searched cfg services tools user_id top_k document_ids db query v)
        ≡ map_result answer (searched cfg services user_id top_k document_ids db query v)
  unfolding instrumented_searched searched
  searched-answer query v = finish-answer query _ _ _ _

  -- The recording retrieval changes nothing of a retrieval whose query is not blank: it returns
  -- exactly where retrieve does, with the same query, the same rerank flag and the same texts of
  -- passages, and it raises the same errors.
  pub retrieve_instrumented-retrieve :
      (query : String)
      → services.is_blank (services.collapse query) ≡ false
      → map_result recorded_answer
          (retrieve_instrumented cfg services tools user_id query top_k document_ids db)
        ≡ map_result answer (retrieve cfg services user_id query top_k document_ids db)
  unfolding retrieve_instrumented retrieve normalize
  retrieve_instrumented-retrieve query filled =
      map_result-and_next recorded_answer answer (validate_scope user_id document_ids db) _ _ (λ _.
        rw filled (
          map_result-and_next recorded_answer answer
            (embed_query cfg services (services.collapse query)) _ _
            (λ v. searched-answer (services.collapse query) v)))
