-- ===== src/Examples/Embedding.antt =====
-- A client that answers from its second attempt on, and one that refuses every text.
use doc_mind_ai.Base.{
  true, ℕ, zero, suc, none, if◌then◌else◌, ◌==◌, ◌≤◌, ◌<◌, ◌≡◌, refl, false, String, List, [], ◌∷◌,
  map, length, All, arith,
}
use doc_mind_ai.Model.Errors.{
  transient_embedding_error, Error, is_permanent_error, permanent_embedding_error, connection_error,
  str, error, Result, ok, raise,
}
use doc_mind_ai.Worker.Stage.{is_permanent}
use doc_mind_ai.Embedding.Backoff.{is_final, with_async_backoff, EndsAt, with_async_backoff-ends}
use doc_mind_ai.Embedding.Batches.{
  Client, classified, classify, is_domain_error, embed, attach, group_error,
}
use doc_mind_ai.Embedding.Guarantees.{Answers, Refuses, embed-attaches, embed-refused}
use doc_mind_ai.Examples.Artifacts.{bare, row}

abbrev vector : String → List ℕ
vector s = 4 ∷ 2 ∷ []

abbrev second_time : ℕ → List String → Result (List (List ℕ))
second_time k batch = if k == 1 then raise (error connection_error []) else ok (map vector batch)

abbrev slow : Client
slow = record { max_batch_size = 32; embed_passages = λ i k batch. second_time k batch }

slow-Answers : Answers slow vector
unfolding classify is_domain_error is_permanent_error
slow-Answers i batch = (1, (omega arith, refl, first))
  where
    first : (j : ℕ) → j < 1 → is_final (classified (second_time (suc j) batch)) ≡ false
    first zero h = refl
    first (suc j) h = absurd (omega (arith, h))

abbrev refusing : Client
refusing = record {
  max_batch_size = 32;
  embed_passages = λ i k batch. raise (error permanent_embedding_error (str "no model" ∷ []));
}

refusing-Refuses : Refuses refusing
refusing-Refuses i k batch = (_, refl, refl)

embed-attaches_example :
    (embed false slow bare ≡ ok (map (λ c. attach c (vector c.text)) bare))
    × (e : Error) × (embed true slow bare ≡ raise e)
    × (e.class ≡ transient_embedding_error)
embed-attaches_example = embed-attaches slow vector bare (omega arith) slow-Answers

embed-refused_example :
    (embed false refusing bare ≡ raise group_error) × (is_permanent group_error.class ≡ false)
embed-refused_example = embed-refused refusing (row none) [] (omega arith) refusing-Refuses

abbrev fails_twice : ℕ → Result ℕ
fails_twice k = if k == 3 then ok 7 else raise (error connection_error [])

with_async_backoff-ends_example :
    let slept = with_async_backoff 4 1 2 30 fails_twice in
    ((k : ℕ) × EndsAt fails_twice 1 4 k slept) × (length slept.1 ≤ 3) × All (λ d. d ≤ 30) slept.1
with_async_backoff-ends_example =
    with_async_backoff-ends 4 1 2 30 fails_twice (omega arith) (omega arith)
