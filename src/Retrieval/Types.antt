-- ===== src/Retrieval/Types.antt =====
-- backend/app/rag/retrieval/types.py: candidates and passages. The type of the scores is a
-- parameter; the numbers of an embedding are those of a chunk's row.
use doc_mind_ai.Base.{ℕ, String, Option, List}

pub record Candidate (Score : Type 0) : Type 0 where
  pub chunk_id : ℕ
  pub document_id : ℕ
  pub chunk_index : ℕ
  pub text : String
  pub page_number : Option ℕ
  pub section : Option String
  pub token_count : Option ℕ
  pub embedding : Option (List ℕ)
  pub vector_rank : Option ℕ
  pub keyword_rank : Option ℕ
  pub vector_score : Option Score
  pub keyword_score : Option Score
  pub fused_score : Score
  pub rerank_score : Option Score

pub record Passage (Score : Type 0) : Type 0 where
  pub citation_id : ℕ
  pub document_id : ℕ
  pub chunk_ids : List ℕ
  pub chunk_range : ℕ × ℕ
  pub page_start : Option ℕ
  pub page_end : Option ℕ
  pub section : Option String
  pub text : String
  pub score : Score
  pub token_count : ℕ
