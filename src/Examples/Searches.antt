-- ===== src/Examples/Searches.antt =====
-- A search by the owner of one indexed document.
use doc_mind_ai.Base.{
  ℕ, ◌+◌, ◌-◌, ◌*◌, ◌/◌, ◌≡◌, refl, true, false, none, some, List, [], ◌∷◌, map, Table, All, find,
}
use doc_mind_ai.Model.Enums.{DocumentStatus}
use doc_mind_ai.Model.Errors.{str, number, Result, ok, raise}
use doc_mind_ai.Model.Rows.{Chunk, Db}
use doc_mind_ai.Embedding.Batches.{Client}
use doc_mind_ai.Retrieval.Origins.{PassageFits}
use doc_mind_ai.Retrieval.Ranking.{Arithmetic}
use doc_mind_ai.Retrieval.Search.{Engine}
use doc_mind_ai.Retrieval.Tenancy.{Readable, IsSelective}
use doc_mind_ai.Retrieval.Retrieve.{Settings, Services, RetrievalResult, retrieve}
use doc_mind_ai.Retrieval.Isolation.{retrieve-isolated}
use doc_mind_ai.Examples.Samples.{document}
use doc_mind_ai.Examples.Passages.{above}

abbrev pub arithmetic : Arithmetic ℕ
arithmetic = record {
  nil = 0;
  one = 1;
  plus = λ m n. m + n;
  minus = λ m n. m - n;
  times = λ m n. m * n;
  over = λ m n. m / n;
  of_number = λ n. n;
  higher = above;
}

-- All rows, with the score 0.
abbrev every_row : Table Chunk → List (ℕ × Chunk × ℕ)
every_row [] = []
every_row ((i, c) ∷ rest) = (i, c, 0) ∷ every_row rest

every_row-All :
    (t : Table Chunk) (Q : ℕ → Chunk → Type 0)
    → All (λ r. Q r.0 r.1) t
    → All (λ f. Q f.0 f.1) (every_row t)
every_row-All [] Q all = tt
every_row-All (r ∷ rest) Q all = (all.0, every_row-All rest Q all.1)

abbrev pub engine : Engine ℕ
engine = record {
  nearest = λ v n t. every_row t;
  matching = λ query n t. every_row t;
  has_word = λ query. true;
}

pub engine-IsSelective : IsSelective engine
engine-IsSelective = record {
  nearest_rows = λ v n t. every_row-All t;
  matching_rows = λ query n t. every_row-All t;
}

abbrev client : Client
client = record { max_batch_size = 8; embed_passages = λ i k batch. ok (map (λ s. 3 ∷ []) batch) }

abbrev pub services : Services ℕ
services = record {
  arithmetic = arithmetic;
  engine = engine;
  client = client;
  expired = false;
  collapse = λ s. s;
  is_blank = λ s. false;
  reranker = none;
  similarity = λ pool i j. 0;
}

abbrev pub cfg : Settings ℕ
cfg = record {
  query_prefix = "query: ";
  dimension = 1;
  keyword_candidates = 20;
  vector_candidates = 20;
  rrf_k = 60;
  vector_weight = 600;
  keyword_weight = 600;
  rerank_candidates = 10;
  rerank_enabled = false;
  rerank_min_score = none;
  mmr_lambda = 1;
  neighbor_window = 1;
  max_context_tokens = 100;
}

abbrev row : ℕ → Chunk
row index = record {
  document_id = 1;
  chunk_index = index;
  text = "Revenue grew.";
  page_number = some 2;
  section = none;
  token_count = 3;
  doc_item_labels = [];
  embedding = some (3 ∷ []);
}

abbrev pub indexed_rows : Db
indexed_rows = record {
  documents = (1, document DocumentStatus.indexed) ∷ [];
  jobs = [];
  chunks = (40, row 0) ∷ [];
}

abbrev no_result : RetrievalResult ℕ
no_result = record {
  query = "";
  passages = [];
  context = [];
  vector_count = 0;
  keyword_count = 0;
  fused_count = 0;
  after_threshold = none;
  reranked = false;
}

abbrev result_of : Result (RetrievalResult ℕ) → RetrievalResult ℕ
result_of (ok r) = r
result_of (raise e) = no_result

abbrev result : RetrievalResult ℕ
result = result_of (retrieve cfg services 7 "revenue" 5 [] indexed_rows)

-- The search finds the one chunk.
result_run : map (λ p. p.chunk_ids) result.passages ≡ (40 ∷ []) ∷ []
unfolding retrieve find
result_run = refl

context_run :
    result.context
    ≡ str "["
      ∷ number 1
      ∷ str "]"
      ∷ str " ("
      ∷ str "p."
      ∷ number 2
      ∷ str ")\n"
      ∷ str "Revenue grew."
      ∷ []
unfolding retrieve find
context_run = refl

retrieve-isolated_example :
    All (PassageFits arithmetic.higher (Readable 7 [] indexed_rows)) result.passages
unfolding retrieve find
retrieve-isolated_example =
    retrieve-isolated cfg services engine-IsSelective 7 [] indexed_rows "revenue" 5 result refl
