-- ===== src/Redislock/Retry/Bounds.antt =====
-- How often a strategy of redislock/manager.go lets `Acquire` try again, and after which delay.
use go_infra.Prelude.{ℕ, zero, suc, ◌*◌, ◌^◌, ◌≤◌, ◌<◌, ◌≡◌, true, false, arith}
use go_infra.Prelude.Int.{ℤ, pos, negsuc, pos_part, mul64}
use go_infra.Redislock.Retry.{RetryStrategy, fixed_backoff, linear_backoff}

-- The strategy allows the retries 1 to `n`, and no other attempt.
pub record Allows (n : ℕ) (next : RetryStrategy) : Type 0 where
  pub goes_on : (k : ℕ) → k ≤ n → (next (pos k)).1 ≡ true
  pub stops : (k : ℕ) → n < k → (next (pos k)).1 ≡ false

-- With a limit that is not negative, a constant backoff allows the retries from 1 to the limit and
-- none after it.
pub fixed_backoff-Allows : (d : ℤ) (n : ℕ) → Allows n (fixed_backoff d (pos n))
unfolding fixed_backoff
fixed_backoff-Allows d n = record { goes_on = λ k h. ground arith; stops = λ k h. ground arith }

-- With a limit that is not negative, a linear backoff allows the retries from 1 to the limit and
-- none after it.
pub linear_backoff-Allows : (d : ℤ) (n : ℕ) → Allows n (linear_backoff d (pos n))
unfolding linear_backoff
linear_backoff-Allows d n = record { goes_on = λ k h. ground arith; stops = λ k h. ground arith }

-- With a negative limit neither backoff allows a retry.
pub negative_limit :
    (d a : ℤ) (n : ℕ)
    → ((fixed_backoff d (negsuc n) a).1 ≡ false) × ((linear_backoff d (negsuc n) a).1 ≡ false)
unfolding fixed_backoff linear_backoff
negative_limit d a n = ground arith

-- Whatever their limit, both backoffs refuse the retry after it.
pub backoffs_stop :
    (d limit : ℤ)
    → ((fixed_backoff d limit (pos (suc (pos_part limit)))).1 ≡ false)
      × ((linear_backoff d limit (pos (suc (pos_part limit)))).1 ≡ false)
backoffs_stop d (pos n) = (
  (fixed_backoff-Allows d n).stops (suc n) (omega arith),
  (linear_backoff-Allows d n).stops (suc n) (omega arith),
)
backoffs_stop d (negsuc n) = negative_limit d (pos 1) n

-- The delay that both strategies take for one step: the default where the caller's is not positive.
abbrev pub unit_delay : ℤ → ℕ
unit_delay (pos zero) = 50_000_000
unit_delay (pos (suc d)) = suc d
unit_delay (negsuc d) = 50_000_000

pub fixed_backoff_delay :
    (d : ℤ) (n k : ℕ) → k ≤ n → (fixed_backoff d (pos n) (pos k)).0 ≡ pos (unit_delay d)
unfolding fixed_backoff
fixed_backoff_delay (pos zero) n k h = ground arith
fixed_backoff_delay (pos (suc d)) n k h = ground arith
fixed_backoff_delay (negsuc d) n k h = ground arith

-- The linear delay grows with the attempt, as long as the product fits 64 bits.
pub linear_backoff_delay :
    (d : ℤ) (n k : ℕ)
    → k ≤ n
    → k < 2 ^ 63
    → unit_delay d < 2 ^ 63
    → k * unit_delay d < 2 ^ 63
    → (linear_backoff d (pos n) (pos k)).0 ≡ pos (k * unit_delay d)
unfolding linear_backoff mul64
linear_backoff_delay (pos zero) n k h p q r = ground arith
linear_backoff_delay (pos (suc d)) n k h p q r = ground arith
linear_backoff_delay (negsuc d) n k h p q r = ground arith
