-- ===== src/Embedding/Batches.antt =====
-- backend/app/rag/embed/embed.py, and `Ingester.embed` of backend/app/rag/ingestion.py. The embedding client is what it
-- replies to each attempt of each batch. A vector is a list of numbers, as in a row of a chunk.
use doc_mind_ai.Base.{
  ℕ, zero, suc, String, Bool, true, false, ◌||◌, some, List, [], ◌∷◌, ◌++◌, map, if◌then◌else◌,
  ◌==◌, length, take, drop,
}
use doc_mind_ai.Model.Errors.{
  ErrorClass, Error, error, str, number, value_error, type_error, key_error, attribute_error,
  connection_error, timeout_error, runtime_error, permanent_embedding_error,
  transient_embedding_error, exception_group, cancelled, other, Result, ok, raise,
}
use doc_mind_ai.Model.Rows.{PreparedChunk}
use doc_mind_ai.Worker.Stage.{is_cancelled}
use doc_mind_ai.Embedding.Backoff.{with_async_backoff}

abbrev pub Vectors : Type 0
Vectors = List (List ℕ)

-- What the code calls of an `EmbeddingClient`: the reply to an attempt of the batch of an index.
pub record Client : Type 0 where
  pub max_batch_size : ℕ
  pub embed_passages : ℕ → ℕ → List String → Result Vectors

-- `isinstance(exc, DocMindError)`
unfoldable pub is_domain_error : ErrorClass → Bool
is_domain_error type_error = false
is_domain_error value_error = false
is_domain_error key_error = false
is_domain_error attribute_error = false
is_domain_error connection_error = false
is_domain_error timeout_error = false
is_domain_error runtime_error = false
is_domain_error exception_group = false
is_domain_error ErrorClass.retry = false
is_domain_error cancelled = false
is_domain_error other = false
is_domain_error _ = true

-- The handlers: an error that is not the domain's own is taken to be transient.
unfoldable pub classify : Error → Error
unfolding is_domain_error
classify e =
    if is_cancelled e.class || is_domain_error e.class
    then e
    else error transient_embedding_error (str "unclassified embedding failure: " ∷ e.message)

abbrev pub classified {ℓ} : {A : Type ℓ} → Result A → Result A
unfolding classify
classified (ok a) = ok a
classified (raise e) = raise (classify e)

-- With its decorator: four attempts, and delays from one second on.
unfoldable pub embed_with_retry : Client → ℕ → List String → Result Vectors
unfolding with_async_backoff classify
embed_with_retry client batch_index batch =
    (with_async_backoff 4 1 2 30
      (λ attempt. classified (client.embed_passages batch_index attempt batch))).0

-- `[texts[i : i + batch_size] for i in range(0, len(texts), batch_size)]`, at most `fuel` batches.
unfoldable pub batches_of : ℕ → ℕ → List String → List (List String)
batches_of zero size texts = []
batches_of (suc fuel) size [] = []
batches_of (suc fuel) size (t ∷ texts) =
    take size (t ∷ texts) ∷ batches_of fuel size (drop size (t ∷ texts))

unfoldable pub run_batches : Client → ℕ → List (List String) → List (Result Vectors)
unfolding embed_with_retry
run_batches client idx [] = []
run_batches client idx (b ∷ rest) =
    embed_with_retry client idx b ∷ run_batches client (suc idx) rest

abbrev pub group_error : Error
group_error = error exception_group (str "unhandled errors in a TaskGroup" ∷ [])

-- The results of the tasks: a failed one ends the group, a cancelled one ends `task.result()`.
abbrev pub join_task : Result Vectors → Result Vectors → Result Vectors
join_task (ok vectors) (ok flat) = ok (vectors ++ flat)
join_task (ok vectors) (raise e) = raise e
join_task (raise e) (ok flat) = raise (if is_cancelled e.class then e else group_error)
join_task (raise e) (raise f) = raise (if is_cancelled e.class then f else group_error)

unfoldable pub join_tasks : List (Result Vectors) → Result Vectors
join_tasks [] = ok []
join_tasks (r ∷ rest) = join_task r (join_tasks rest)

abbrev pub counted : ℕ → Result Vectors → Result Vectors
counted n (ok flat) =
    if length flat == n
    then ok flat
    else raise (
        error permanent_embedding_error (
          str "embedding count mismatch: "
          ∷ number (length flat)
          ∷ str " vectors for "
          ∷ number n
          ∷ str " texts"
          ∷ []))
counted n (raise e) = raise e

-- `range` refuses a step of 0.
unfoldable pub embed_in_batches : Client → List String → Result Vectors
unfolding batches_of run_batches join_tasks
embed_in_batches client [] = ok []
embed_in_batches client (t ∷ texts) =
    if client.max_batch_size == 0
    then raise (error value_error (str "range() arg 3 must not be zero" ∷ []))
    else counted (length (t ∷ texts)) (
        join_tasks (
          run_batches client 0 (batches_of (length (t ∷ texts)) client.max_batch_size (t ∷ texts))))

-- `except (TimeoutError, OSError)`
abbrev pub is_timeout : ErrorClass → Bool
is_timeout timeout_error = true
is_timeout connection_error = true
is_timeout _ = false

abbrev pub timeout_handled : Result Vectors → Result Vectors
timeout_handled (ok vectors) = ok vectors
timeout_handled (raise e) = raise (
    if is_timeout e.class
    then error transient_embedding_error (str "embedding timeout: " ∷ e.message)
    else e)

abbrev pub attach : PreparedChunk → List ℕ → PreparedChunk
attach c v = record c { embedding = some v }

abbrev pub row_before : PreparedChunk → Result (List PreparedChunk) → Result (List PreparedChunk)
row_before r (ok rows) = ok (r ∷ rows)
row_before r (raise e) = raise e

-- `zip(..., strict=True)`
unfoldable pub zip_rows : List PreparedChunk → Vectors → Result (List PreparedChunk)
zip_rows [] [] = ok []
zip_rows (c ∷ chunks) (v ∷ vectors) = row_before (attach c v) (zip_rows chunks vectors)
zip_rows (c ∷ chunks) [] =
    raise (error value_error (str "zip() argument 2 is shorter than argument 1" ∷ []))
zip_rows [] (v ∷ vectors) =
    raise (error value_error (str "zip() argument 2 is longer than argument 1" ∷ []))

abbrev pub zipped : List PreparedChunk → Result Vectors → Result (List PreparedChunk)
unfolding zip_rows
zipped chunks (ok vectors) = zip_rows chunks vectors
zipped chunks (raise e) = raise e

-- `Ingester.embed`; `expired` says that the deadline passed first.
unfoldable pub embed : Bool → Client → List PreparedChunk → Result (List PreparedChunk)
unfolding embed_in_batches zip_rows
embed expired client chunk_list =
    let vectors =
      if expired
      then raise (error timeout_error [])
      else embed_in_batches client (map (λ c. c.text) chunk_list) in
    zipped chunk_list (timeout_handled vectors)
