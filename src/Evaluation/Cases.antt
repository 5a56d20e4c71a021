-- ===== src/Evaluation/Cases.antt =====
-- What the run of backend/app/rag/evaluation/runner.py over a list of cases returns.
use doc_mind_ai.Base.{ℕ, ◌≡◌, Bool, true, false, List, String, All}
use doc_mind_ai.Model.Errors.{Result, ok, raise}
use doc_mind_ai.Model.Rows.{Db}
use doc_mind_ai.Worker.Stage.{is_cancelled}
use doc_mind_ai.Retrieval.Retrieve.{Settings, Services, retrieve}
use doc_mind_ai.Evaluation.Dataset.{EvalCase, EvalResult}
use doc_mind_ai.Evaluation.Runner.{Tools, retrieve_instrumented, compute_metrics}
use doc_mind_ai.Evaluation.Instrumented.{map_result, Answer, answer}

abbrev pub returns {ℓ} : {A : Type ℓ} → Result A → Bool
returns (ok x) = true
returns (raise e) = false

abbrev IsCaught {ℓ} : {A : Type ℓ} → Result A → Type 0
IsCaught (ok x) = Unit
IsCaught (raise e) = is_cancelled e.class ≡ false

-- The rerank flag and the texts of the passages.
abbrev pub given : Answer → Bool × List String
given a = (a.1, a.2)

module _ {Score : Type 0} (cfg : Settings Score) (services : Services Score) (tools : Tools Score)
    (top_k : ℕ) (ks : List ℕ) (db : Db) where
  abbrev pub recorded : EvalCase → Result (EvalResult Score)
  recorded c = retrieve_instrumented cfg services tools c.user_id c.query top_k c.document_ids db

  -- No case is cancelled: any other error is caught.
  abbrev pub AreCaught : List EvalCase → Type 0
  AreCaught = All (λ c. IsCaught (recorded c))

  abbrev pub AreFilled : List EvalCase → Type 0
  AreFilled = All (λ c. services.is_blank (services.collapse c.query) ≡ false)

  -- The result has the metrics of each of its stages, and the answer of `retrieve`.
  abbrev pub IsMeasured : EvalResult Score → Type 0
  IsMeasured r =
      let c = r.case in
      (r.metrics ≡ compute_metrics cfg services tools r.stage_chunks c.relevant_chunk_ids ks)
      × (map_result given
            (map_result answer (retrieve cfg services c.user_id c.query top_k c.document_ids db))
          ≡ ok (r.reranked, r.passages_text))
