-- ===== src/Examples/Evaluations.antt =====
-- An evaluation of two cases by the owner of one indexed document: the second asks for a document that is not there.
use doc_mind_ai.Base.{
  ℕ, ◌≡◌, refl, String, true, false, some, List, [], ◌∷◌, map, find, ◌==◌, if◌then◌else◌,
}
use doc_mind_ai.Model.Errors.{Result, ok, raise}
use doc_mind_ai.Repositories.Documents.{get_for_user}
use doc_mind_ai.Retrieval.Retrieve.{Settings, Services, retrieve}
use doc_mind_ai.Evaluation.Dataset.{EvalCase, EvalResult}
use doc_mind_ai.Evaluation.Runner.{Tools, retrieve_instrumented, run_eval}
use doc_mind_ai.Evaluation.Instrumented.{
  map_result, answer, recorded_answer, retrieve_instrumented-retrieve,
}
use doc_mind_ai.Evaluation.Stages.{AreReadableIds, retrieve_instrumented-isolated}
use doc_mind_ai.Examples.Searches.{cfg, services, engine-IsSelective, indexed_rows}

abbrev tools : Tools ℕ
tools = record { log2 = λ n. n; str_uuid = λ i. if i == 40 then "forty" else "other" }

abbrev reranking : Settings ℕ
reranking = record cfg { rerank_enabled = true; rerank_min_score = some 5 }

abbrev fives : Services ℕ
fives = record services { reranker = some (λ query texts. ok (map (λ t. 5) texts)) }

abbrev one_case : EvalCase
one_case = record {
  id = "first";
  query = "revenue";
  user_id = 7;
  document_ids = [];
  relevant_chunk_ids = "forty" ∷ [];
  answerable = true;
  reference_answer = "It grew.";
  tags = [];
}

abbrev foreign_case : EvalCase
foreign_case = record one_case { id = "second"; document_ids = 9 ∷ [] }

abbrev empty_result : EvalResult ℕ
empty_result = record {
  case = one_case;
  stage_chunks = [];
  stage_scores = [];
  metrics = [];
  reranked = false;
  passages_text = [];
}

abbrev result_of : Result (EvalResult ℕ) → EvalResult ℕ
result_of (ok r) = r
result_of (raise e) = empty_result

abbrev result : EvalResult ℕ
result = result_of (retrieve_instrumented reranking fives tools 7 "revenue" 5 [] indexed_rows)

-- All seven stages are recorded, and the candidate was reranked.
stages_run :
    (result.reranked ≡ true)
    × (map (λ s. s.0) result.stage_chunks
        ≡ "keyword" ∷ "vector" ∷ "fused" ∷ "rerank_input" ∷ "post_rerank" ∷ "selected" ∷ "expanded"
          ∷ [])
unfolding retrieve_instrumented find
stages_run = (refl, refl)

retrieve_instrumented-retrieve_example :
    map_result recorded_answer
      (retrieve_instrumented reranking fives tools 7 "revenue" 5 [] indexed_rows)
    ≡ map_result answer (retrieve reranking fives 7 "revenue" 5 [] indexed_rows)
retrieve_instrumented-retrieve_example =
    retrieve_instrumented-retrieve reranking fives tools 7 5 [] indexed_rows "revenue" refl

retrieve_instrumented-isolated_example :
    AreReadableIds reranking fives tools engine-IsSelective 7 [] indexed_rows result.stage_chunks
unfolding retrieve_instrumented find
retrieve_instrumented-isolated_example =
    retrieve_instrumented-isolated reranking fives tools engine-IsSelective 7 [] indexed_rows
      "revenue" 5 result refl

abbrev cases : List EvalCase
cases = one_case ∷ foreign_case ∷ []

abbrev run : Result (List (EvalResult ℕ))
run = run_eval reranking fives tools cases 5 (1 ∷ 3 ∷ []) indexed_rows

abbrev ids_of : Result (List (EvalResult ℕ)) → List String
ids_of (ok l) = map (λ r. r.case.id) l
ids_of (raise e) = []

-- Only the first case has a result.
ids_run : ids_of run ≡ "first" ∷ []
unfolding run_eval find get_for_user
ids_run = refl
