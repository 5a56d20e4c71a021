-- ===== src/Evaluation/Dataset.antt =====
-- backend/app/rag/evaluation/dataset.py: a case of the evaluation and its result. A set of ids is a list of
-- different ids, a dictionary an association list; the times are left out.
use doc_mind_ai.Base.{ℕ, String, Bool, Option, List}
use doc_mind_ai.Model.Errors.{Text}

pub record EvalCase : Type 0 where
  pub id : String
  pub query : String
  pub user_id : ℕ
  pub document_ids : List ℕ
  pub relevant_chunk_ids : List String
  pub answerable : Bool
  pub reference_answer : String
  pub tags : List String

pub record EvalResult (Score : Type 0) : Type 0 where
  pub case : EvalCase
  pub stage_chunks : List (String × List String)
  pub stage_scores : List (String × List Score)
  pub metrics : List (String × List (Text × Option Score))
  pub reranked : Bool
  pub passages_text : List String
