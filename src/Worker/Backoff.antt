-- ===== src/Worker/Backoff.antt =====
-- `_backoff` and the order of the stages.
use Prim.Native.Nat.{ℕ, zero, suc, ◌*◌, ◌^◌, ◌≤◌, min}
use doc_mind_ai.Base.{◌≡◌, arith}
use native.Mathlib.Nat.{pow-suc}
use doc_mind_ai.Worker.Stage.{backoff}

pow_pos : (n : ℕ) → 1 ≤ 2 ^ n
pow_pos zero = omega arith
pow_pos (suc n) = rw pow-suc (omega (arith, pow_pos n))

-- Each delay is the double of the one before, until the cap of 300 seconds; the first is 10.
pub backoff-suc : (n : ℕ) → backoff (suc n) ≡ min (2 * backoff n) 300
unfolding backoff
backoff-suc n = rw pow-suc (omega arith)

-- The delay of every try lies between 5 and 300 seconds, and the delay of the next try is at least
-- as long.
pub backoff_bounds : (n : ℕ) → (5 ≤ backoff n) × (backoff n ≤ 300) × (backoff n ≤ backoff (suc n))
unfolding backoff
backoff_bounds n = (omega (arith, pow_pos n), omega arith, rw pow-suc (omega arith))
