-- ===== src/Embedding/Guarantees.antt =====
-- What the embedding returns, and what it raises.
use mathlib.Core.Bool.{true≢false}
use doc_mind_ai.Base.{
  ℕ, zero, suc, ◌+◌, ◌≤◌, ◌<◌, ◌⊎◌, ◌≡◌, refl, sym, ap, ◌∙◌, String, true, false, List, [], ◌∷◌,
  ◌++◌, map, ◌==◌, ==_refl, length, ltb, take, drop, take-append-drop, length-drop, Bool-cases, inl,
  inr, arith,
}
use doc_mind_ai.Model.Errors.{transient_embedding_error, Error, Result, ok, raise}
use doc_mind_ai.Model.Rows.{PreparedChunk}
use doc_mind_ai.Worker.Stage.{is_permanent, is_cancelled}
use doc_mind_ai.Embedding.Backoff.{is_final, EndsAt, with_async_backoff-EndsAt}
use doc_mind_ai.Embedding.Batches.{
  Client, Vectors, is_domain_error, classify, classified, join_task, embed_with_retry, batches_of,
  run_batches, join_tasks, group_error, embed_in_batches, attach, zip_rows, embed,
}

-- The reply to the attempt `suc k` is the vectors of the batch, and every attempt before it is one to retry.
abbrev pub AnswersAt : Client → (String → List ℕ) → ℕ → List String → ℕ → Type 0
AnswersAt client f i batch k =
    (k < 4)
    × (client.embed_passages i (suc k) batch ≡ ok (map f batch))
    × ((j : ℕ) → j < k → is_final (classified (client.embed_passages i (suc j) batch)) ≡ false)

-- Each batch is answered by one of its four attempts.
abbrev pub Answers : Client → (String → List ℕ) → Type 0
Answers client f = (i : ℕ) (batch : List String) → (k : ℕ) × AnswersAt client f i batch k

same_attempt :
    {A : Type 0} (func : ℕ → Result A) (a : A) (k m : ℕ) (slept : Result A × List ℕ)
    → k < 4
    → func (suc k) ≡ ok a
    → ((j : ℕ) → j < k → is_final (func (suc j)) ≡ false)
    → EndsAt func 1 4 m slept
    → slept.0 ≡ ok a
same_attempt func a k m slept small answer before ends =
    let next : (n : ℕ) → 1 + n ≡ suc n = λ n. omega arith in
    let final : is_final (func (suc k)) ≡ true = ap is_final answer in
    elim (Bool-cases (m == k)) [
      | inl e ↦ ends.result ∙ ap func (ground (arith, e)) ∙ answer
      | inr e ↦ elim (Bool-cases (ltb m k)) [
        | inl below ↦ elim ends.ended [
          | inl t ↦
              let again : is_final (func (suc m)) ≡ true =
                ap (λ n. is_final (func n)) (sym (next m)) ∙ t in
              absurd (true≢false (sym again ∙ before m (ground (arith, below))))
          | inr t ↦ absurd (ground (arith, t, below, small))
        ]
        | inr above ↦
            let missed : is_final (func (suc k)) ≡ false =
              ap (λ n. is_final (func n)) (sym (next k))
              ∙ ends.retried k (ground (arith, e, above)) in
            absurd (true≢false (sym final ∙ missed))
      ]
    ]

embed_with_retry-Answers :
    (client : Client) (f : String → List ℕ) (i : ℕ) (batch : List String)
    → Answers client f
    → embed_with_retry client i batch ≡ ok (map f batch)
unfolding embed_with_retry
embed_with_retry-Answers client f i batch answers =
    let (k, at) = answers i batch in
    let (small, answer, before) = at in
    let func : ℕ → Result Vectors = λ attempt. classified (client.embed_passages i attempt batch) in
    let (m, ends) = with_async_backoff-EndsAt 4 1 2 30 func (omega arith) in
    same_attempt func (map f batch) k m _ small (ap classified answer) before ends

map-append : {A B : Type 0} (f : A → B) (xs ys : List A) → map f (xs ++ ys) ≡ map f xs ++ map f ys
map-append f [] ys = refl
map-append f (x ∷ xs) ys = ap (◌∷◌ (f x)) (map-append f xs ys)

join_tasks-Answers :
    (client : Client) (f : String → List ℕ)
    → Answers client f
    → (size fuel i : ℕ) (texts : List String) → 1 ≤ size
    → length texts ≤ fuel
    → join_tasks (run_batches client i (batches_of fuel size texts)) ≡ ok (map f texts)
unfolding join_tasks run_batches batches_of
join_tasks-Answers client f answers size zero i [] h enough = refl
join_tasks-Answers client f answers size zero i (t ∷ texts) h enough =
    absurd (omega (arith, enough))
join_tasks-Answers client f answers size (suc fuel) i [] h enough = refl
join_tasks-Answers client f answers size (suc fuel) i (t ∷ texts) h enough =
    let later =
      join_tasks-Answers client f answers size fuel (suc i) (drop size (t ∷ texts)) h
        (omega (arith, length-drop size (t ∷ texts), enough, h)) in
    rw (embed_with_retry-Answers client f i (take size (t ∷ texts)) answers) (
      rw later (
        ap ok (
          sym (map-append f (take size (t ∷ texts)) (drop size (t ∷ texts)))
          ∙ ap (map f) (take-append-drop size (t ∷ texts)))))

length-map : {A B : Type 0} (f : A → B) (xs : List A) → length (map f xs) ≡ length xs
length-map f [] = refl
length-map f (x ∷ xs) = ap suc (length-map f xs)

embed_in_batches-Answers :
    (client : Client) (f : String → List ℕ) (texts : List String)
    → 1 ≤ client.max_batch_size
    → Answers client f
    → embed_in_batches client texts ≡ ok (map f texts)
unfolding embed_in_batches
embed_in_batches-Answers client f [] h answers = refl
embed_in_batches-Answers client f (t ∷ texts) h answers =
    let some_step : (client.max_batch_size == 0) ≡ false = ground arith in
    let joined =
      join_tasks-Answers client f answers client.max_batch_size (length (t ∷ texts)) 0 (t ∷ texts) h
        (omega arith) in
    let same : (length (map f (t ∷ texts)) == length (t ∷ texts)) ≡ true =
      rw (length-map f (t ∷ texts)) (==_refl (length (t ∷ texts))) in
    rw some_step (rw joined (rw same refl))

zip_rows-map :
    (f : String → List ℕ) (chunks : List PreparedChunk)
    → zip_rows chunks (map f (map (λ c. c.text) chunks))
      ≡ ok (map (λ c. attach c (f c.text)) chunks)
unfolding zip_rows
zip_rows-map f [] = refl
zip_rows-map f (c ∷ chunks) = rw (zip_rows-map f chunks) refl

-- If each batch is answered by one of its four attempts, after errors that are retried, embed
-- returns every chunk with the vector of its text, in order, whatever the batch size is, if it is
-- not 0 and the deadline of the call does not pass; if the deadline passes first, embed raises
-- TransientEmbeddingError.
pub embed-attaches :
    (client : Client) (f : String → List ℕ) (chunks : List PreparedChunk)
    → 1 ≤ client.max_batch_size
    → Answers client f
    → (embed false client chunks ≡ ok (map (λ c. attach c (f c.text)) chunks))
      × (e : Error) × (embed true client chunks ≡ raise e)
      × (e.class ≡ transient_embedding_error)
unfolding embed
embed-attaches client f chunks h answers = (
  rw (embed_in_batches-Answers client f (map (λ c. c.text) chunks) h answers)
      (zip_rows-map f chunks),
  _,
  refl,
  refl,
)

-- Every attempt fails, and none of them is cancelled.
abbrev pub Refuses : Client → Type 0
Refuses client =
    (i k : ℕ) (batch : List String)
    → (e : Error) × (client.embed_passages i k batch ≡ raise e) × (is_cancelled e.class ≡ false)

classify-uncancelled :
    (e : Error) → is_cancelled e.class ≡ false → is_cancelled (classify e).class ≡ false
unfolding classify
classify-uncancelled e h = elim (Bool-cases (is_domain_error e.class)) [
  | inl d ↦ rw h (rw d h)
  | inr d ↦ rw h (rw d refl)
]

-- The last attempt of a batch fails with it.
embed_with_retry-Refuses :
    (client : Client) (i : ℕ) (batch : List String)
    → Refuses client
    → (e : Error) × (embed_with_retry client i batch ≡ raise e) × (is_cancelled e.class ≡ false)
unfolding embed_with_retry
embed_with_retry-Refuses client i batch refuses =
    let func : ℕ → Result Vectors = λ attempt. classified (client.embed_passages i attempt batch) in
    let (m, ends) = with_async_backoff-EndsAt 4 1 2 30 func (omega arith) in
    let (e, raised, alive) = refuses i (1 + m) batch in
    (classify e, ends.result ∙ ap classified raised, classify-uncancelled e alive)

join_task-Refuses :
    (e : Error) (later : Result Vectors)
    → is_cancelled e.class ≡ false
    → (later ≡ ok []) ⊎ (later ≡ raise group_error)
    → join_task (raise e) later ≡ raise group_error
join_task-Refuses e later h (inl none_left) = rw none_left (rw h refl)
join_task-Refuses e later h (inr failed) = rw failed (rw h refl)

join_tasks-Refuses :
    (client : Client) (i : ℕ) (batches : List (List String))
    → Refuses client
    → (join_tasks (run_batches client i batches) ≡ ok [])
      ⊎ (join_tasks (run_batches client i batches) ≡ raise group_error)
unfolding join_tasks run_batches
join_tasks-Refuses client i [] refuses = inl refl
join_tasks-Refuses client i (b ∷ rest) refuses =
    let (e, raised, alive) = embed_with_retry-Refuses client i b refuses in
    inr (rw raised (join_task-Refuses e _ alive (join_tasks-Refuses client (suc i) rest refuses)))

one_batch-Refuses :
    (client : Client) (i : ℕ) (b : List String) (rest : List (List String))
    → Refuses client
    → join_tasks (run_batches client i (b ∷ rest)) ≡ raise group_error
unfolding join_tasks run_batches
one_batch-Refuses client i b rest refuses =
    let (e, raised, alive) = embed_with_retry-Refuses client i b refuses in
    rw raised (join_task-Refuses e _ alive (join_tasks-Refuses client (suc i) rest refuses))

-- If every attempt of every batch raises an error, permanent or not, and the deadline of the call
-- does not pass, embed raises the exception group of the task group for a list of chunks that is
-- not empty, and the worker does not take its class for a permanent one.
pub embed-refused :
    (client : Client) (c : PreparedChunk) (chunks : List PreparedChunk)
    → 1 ≤ client.max_batch_size
    → Refuses client
    → (embed false client (c ∷ chunks) ≡ raise group_error)
      × (is_permanent group_error.class ≡ false)
unfolding embed embed_in_batches batches_of is_permanent
embed-refused client c chunks h refuses =
    let some_step : (client.max_batch_size == 0) ≡ false = ground arith in
    let others : List String = map (λ r. r.text) chunks in
    let failed =
      one_batch-Refuses client 0 (take client.max_batch_size (c.text ∷ others))
        (batches_of (length others) client.max_batch_size
          (drop client.max_batch_size (c.text ∷ others)))
        refuses in
    (rw some_step (rw failed refl), refl)
