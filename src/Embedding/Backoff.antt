-- ===== src/Embedding/Backoff.antt =====
-- backend/app/core/decorator.py, `with_async_backoff`. The function is what it does at each attempt, from 1 on; the
-- result comes with the delays that were slept. Delays are whole seconds, as all callers give them.
use doc_mind_ai.Base.{
  ℕ, zero, suc, ◌+◌, ◌-◌, ◌*◌, ◌≤◌, ◌<◌, ◌⊎◌, ◌||◌, min, ◌≡◌, refl, ap, ◌∙◌, sym, Bool, true, false,
  List, [], ◌∷◌, length, if◌then◌else◌, All, Bool-cases, inl, inr, arith,
}
use doc_mind_ai.Model.Errors.{other, str, Error, error, is_permanent_error, Result, ok, raise}
use doc_mind_ai.Worker.Stage.{is_cancelled}

abbrev pub Slept {ℓ} : Type ℓ → Type ℓ
Slept A = Result A × List ℕ

module _ {ℓ} {A : Type ℓ} where
  abbrev after_sleep : ℕ → Slept A → Slept A
  after_sleep delay (r, delays) = (r, delay ∷ delays)

  -- The handlers of an attempt: `left` attempts follow, with the result `later`. A cancellation is no `Exception`.
  abbrev pub handle : ℕ → ℕ → Error → Slept A → Slept A
  handle zero delay e later = (raise e, [])
  handle (suc left) delay e later =
      if is_permanent_error e.class
      then (raise e, [])
      else if is_cancelled e.class
      then (raise e, [])
      else after_sleep delay later

  abbrev pub tried : Result A → ℕ → ℕ → Slept A → Slept A
  tried (ok a) left delay later = (ok a, [])
  tried (raise e) left delay later = handle left delay e later

  module _ (backoff_factor max_delay : ℕ) (func : ℕ → Result A) where
    -- `left` attempts are left, and `attempt` is the next one.
    unfoldable pub attempts : ℕ → ℕ → ℕ → Slept A
    attempts attempt zero delay = (raise (error other (str "AssertionError" ∷ [])), [])
    attempts attempt (suc left) delay =
        let later = attempts (suc attempt) left (min (delay * backoff_factor) max_delay) in
        tried (func attempt) left delay later

  unfoldable pub with_async_backoff : ℕ → ℕ → ℕ → ℕ → (ℕ → Result A) → Slept A
  unfolding attempts
  with_async_backoff max_retries initial_delay backoff_factor max_delay func =
      attempts backoff_factor max_delay func 1 max_retries initial_delay

  -- One attempt sleeps at most once more than those that follow it, and never after the last one.
  tried-bounds :
      (r : Result A) (left delay max_delay : ℕ) (later : Slept A)
      → delay ≤ max_delay
      → (length later.1 ≤ left - 1) × All (λ d. d ≤ max_delay) later.1
      → (length (tried r left delay later).1 ≤ left)
        × All (λ d. d ≤ max_delay) (tried r left delay later).1
  tried-bounds (ok a) left delay max_delay later h b = (omega arith, tt)
  tried-bounds (raise e) zero delay max_delay later h b = (omega arith, tt)
  tried-bounds (raise e) (suc left) delay max_delay later h b =
      elim (Bool-cases (is_permanent_error e.class)) [
        | inl p ↦ rw p (omega arith, tt)
        | inr p ↦ rw p (elim (Bool-cases (is_cancelled e.class)) [
          | inl c ↦ rw c (omega arith, tt)
          | inr c ↦ rw c (omega (arith, b), (h, b.1))
        ])
      ]

  attempts-bounds :
      (backoff_factor max_delay : ℕ) (func : ℕ → Result A) (attempt left delay : ℕ)
      → delay ≤ max_delay
      → let slept = (attempts backoff_factor max_delay func attempt left delay).1 in
        (length slept ≤ left - 1) × All (λ d. d ≤ max_delay) slept
  unfolding attempts
  attempts-bounds backoff_factor max_delay func attempt zero delay h = (omega arith, tt)
  attempts-bounds backoff_factor max_delay func attempt (suc left) delay h =
      let next = min (delay * backoff_factor) max_delay in
      let (fewer, capped) =
        tried-bounds (func attempt) left delay max_delay
          (attempts backoff_factor max_delay func (suc attempt) left next) h
          (attempts-bounds backoff_factor max_delay func (suc attempt) left next (omega arith)) in
      (omega (arith, fewer), capped)

  pub with_async_backoff-bounds :
      (max_retries initial_delay backoff_factor max_delay : ℕ) (func : ℕ → Result A)
      → initial_delay ≤ max_delay
      → let slept =
          (with_async_backoff max_retries initial_delay backoff_factor max_delay func).1 in
        (length slept ≤ max_retries - 1) × All (λ d. d ≤ max_delay) slept
  unfolding with_async_backoff
  with_async_backoff-bounds max_retries initial_delay backoff_factor max_delay func h =
      attempts-bounds backoff_factor max_delay func 1 max_retries initial_delay h

  -- A value, a permanent error and a cancellation are not retried.
  abbrev pub is_final : Result A → Bool
  is_final (ok a) = true
  is_final (raise e) = is_permanent_error e.class || is_cancelled e.class

  -- The call ends with the attempt `first + k`, after as many delays.
  pub record EndsAt (func : ℕ → Result A) (first left k : ℕ) (slept : Slept A) : Type ℓ where
    pub result : slept.0 ≡ func (first + k)
    pub delays : length slept.1 ≡ k
    pub retried : (j : ℕ) → j < k → is_final (func (first + j)) ≡ false
    pub ended : (is_final (func (first + k)) ≡ true) ⊎ (suc k ≡ left)

  tried-final :
      (r : Result A) (left delay : ℕ) (later : Slept A)
      → is_final r ≡ true
      → tried r left delay later ≡ (r, [])
  tried-final (ok a) left delay later h = refl
  tried-final (raise e) zero delay later h = refl
  tried-final (raise e) (suc left) delay later h = ground (arith, h)

  tried-last : (r : Result A) (delay : ℕ) (later : Slept A) → tried r zero delay later ≡ (r, [])
  tried-last (ok a) delay later = refl
  tried-last (raise e) delay later = refl

  tried-retried :
      (r : Result A) (left delay : ℕ) (later : Slept A)
      → is_final r ≡ false
      → tried r (suc left) delay later ≡ (later.0, delay ∷ later.1)
  tried-retried (ok a) left delay later h = absurd (ground (arith, h))
  tried-retried (raise e) left delay later h = ground (arith, h)

  EndsAt-now :
      (func : ℕ → Result A) (first left : ℕ) (slept : Slept A)
      → slept ≡ (func first, [])
      → (is_final (func first) ≡ true) ⊎ (1 ≡ left)
      → EndsAt func first left 0 slept
  EndsAt-now func first left slept e over =
      let here : func first ≡ func (first + 0) = ap func (omega arith) in
      record {
        result = ap (λ t. t.0) e ∙ here;
        delays = ap (λ t. length t.1) e;
        retried = λ j h. absurd (omega (arith, h));
        ended = rw (sym here) over;
      }

  retried-later :
      (func : ℕ → Result A) (first k : ℕ)
      → is_final (func first) ≡ false
      → ((j : ℕ) → j < k → is_final (func (suc first + j)) ≡ false)
      → (j : ℕ) → j < suc k
      → is_final (func (first + j)) ≡ false
  retried-later func first k h more zero below = ap (λ n. is_final (func n)) (omega arith) ∙ h
  retried-later func first k h more (suc j) below =
      ap (λ n. is_final (func n)) (omega arith) ∙ more j (omega (arith, below))

  EndsAt-later :
      (func : ℕ → Result A) (first left k d : ℕ) (later slept : Slept A)
      → slept ≡ (later.0, d ∷ later.1)
      → is_final (func first) ≡ false
      → EndsAt func (suc first) left k later
      → EndsAt func first (suc left) (suc k) slept
  EndsAt-later func first left k d later slept e h ends =
      let there : func (suc first + k) ≡ func (first + suc k) = ap func (omega arith) in
      record {
        result = ap (λ t. t.0) e ∙ ends.result ∙ there;
        delays = ap (λ t. length t.1) e ∙ ap suc ends.delays;
        retried = retried-later func first k h ends.retried;
        ended = elim ends.ended [
          | inl t ↦ inl (ap is_final (sym there) ∙ t)
          | inr t ↦ inr (ap suc t)
        ];
      }

  attempts-EndsAt :
      (backoff_factor max_delay : ℕ) (func : ℕ → Result A) (first left delay : ℕ)
      → (k : ℕ) × EndsAt func first
          (suc left)
          k
          (attempts backoff_factor max_delay func first (suc left) delay)
  unfolding attempts
  attempts-EndsAt backoff_factor max_delay func first zero delay =
      (0, EndsAt-now func first 1 _ (tried-last (func first) delay _) (inr refl))
  attempts-EndsAt backoff_factor max_delay func first (suc left) delay =
      let next = min (delay * backoff_factor) max_delay in
      let later = attempts backoff_factor max_delay func (suc first) (suc left) next in
      elim (Bool-cases (is_final (func first))) [
        | inl e ↦ (
          0,
          EndsAt-now func first (suc (suc left)) _
              (tried-final (func first) (suc left) delay later e) (inl e),
        )
        | inr e ↦
            let (k, ends) = attempts-EndsAt backoff_factor max_delay func (suc first) left next in
            (
              suc k,
              EndsAt-later func first (suc left) k delay later _
                  (tried-retried (func first) left delay later e) e ends,
            )
      ]

  pub with_async_backoff-EndsAt :
      (max_retries initial_delay backoff_factor max_delay : ℕ) (func : ℕ → Result A)
      → 1 ≤ max_retries
      → (k : ℕ) × EndsAt func 1 max_retries k
          (with_async_backoff max_retries initial_delay backoff_factor max_delay func)
  unfolding with_async_backoff
  with_async_backoff-EndsAt zero initial_delay backoff_factor max_delay func h =
      absurd (omega (arith, h))
  with_async_backoff-EndsAt (suc n) initial_delay backoff_factor max_delay func h =
      attempts-EndsAt backoff_factor max_delay func 1 n initial_delay

  -- A call with at least one attempt ends with the result of its first attempt that returns,
  -- raises a permanent error or is cancelled, or of the last one where there is none; it sleeps
  -- once before each further attempt, so less often than there are attempts, and never longer than
  -- the longest delay, if the first delay is not longer.
  pub with_async_backoff-ends :
      (max_retries initial_delay backoff_factor max_delay : ℕ) (func : ℕ → Result A)
      → 1 ≤ max_retries
      → initial_delay ≤ max_delay
      → let slept = with_async_backoff max_retries initial_delay backoff_factor max_delay func in
        ((k : ℕ) × EndsAt func 1 max_retries k slept)
        × (length slept.1 ≤ max_retries - 1)
        × All (λ d. d ≤ max_delay) slept.1
  with_async_backoff-ends max_retries initial_delay backoff_factor max_delay func some_try h =
      let (few, capped) =
        with_async_backoff-bounds max_retries initial_delay backoff_factor max_delay func h in
      (
        with_async_backoff-EndsAt max_retries initial_delay backoff_factor max_delay func some_try,
        few,
        capped,
      )
