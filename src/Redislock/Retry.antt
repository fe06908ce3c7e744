-- ===== src/Redislock/Retry.antt =====
-- The lock options and retry strategies of redislock/manager.go. An int and a time.Duration, in
-- nanoseconds, are integers; the product of `LinearBackoff` wraps to 64 bits.
pub mod Bounds
use go_infra.Prelude.{Bool, true, false, Option, none, some, List, [], ◌∷◌, if◌then◌else◌}
use go_infra.Prelude.Int.{ℤ, pos, ltb_ℤ, leb_ℤ, mul64}

-- The method `Next` of a `RetryStrategy`: the delay before the next attempt, if there is one.
abbrev pub RetryStrategy : Type 0
RetryStrategy = ℤ → ℤ × Bool

pub record LockOptions : Type 0 where
  pub retry_strategy : Option RetryStrategy
  pub max_retries : ℤ
  pub backoff : ℤ
  pub auto_refresh : Bool

-- An `Option`; `none` where the caller passes nil.
abbrev pub LockOption : Type 0
LockOption = Option (LockOptions → LockOptions)

abbrev pub default_max_retries : ℤ
default_max_retries = pos 20

abbrev pub default_backoff : ℤ
default_backoff = pos 50_000_000

unfoldable pub with_retry_strategy : RetryStrategy → LockOption
with_retry_strategy strategy = some (λ o. record o { retry_strategy = some strategy })

unfoldable pub with_max_retries : ℤ → LockOption
with_max_retries n = some (λ o. record o { max_retries = n })

unfoldable pub with_backoff : ℤ → LockOption
with_backoff d = some (λ o. record o { backoff = d })

unfoldable pub with_auto_refresh : LockOption
with_auto_refresh = some (λ o. record o { auto_refresh = true })

unfoldable pub fixed_backoff : ℤ → ℤ → RetryStrategy
fixed_backoff backoff max_retries attempt =
    let delay = if leb_ℤ backoff (pos 0) then default_backoff else backoff in
    if ltb_ℤ max_retries (pos 0)
    then (pos 0, false)
    else if ltb_ℤ max_retries attempt
    then (pos 0, false)
    else (delay, true)

unfoldable pub linear_backoff : ℤ → ℤ → RetryStrategy
linear_backoff step max_retries attempt =
    let unit = if leb_ℤ step (pos 0) then default_backoff else step in
    if ltb_ℤ max_retries (pos 0)
    then (pos 0, false)
    else if ltb_ℤ max_retries attempt
    then (pos 0, false)
    else (mul64 attempt unit, true)

unfoldable pub default_options : LockOptions
default_options = record {
  retry_strategy = none;
  max_retries = default_max_retries;
  backoff = default_backoff;
  auto_refresh = false;
}

-- The loop of `Acquire` over its options.
unfoldable pub apply_options : List LockOption → LockOptions → LockOptions
apply_options [] o = o
apply_options (none ∷ opts) o = apply_options opts o
apply_options (some opt ∷ opts) o = apply_options opts (opt o)

unfoldable pub retry : LockOptions → RetryStrategy
unfolding fixed_backoff
retry o = elim o.retry_strategy [
  | some strategy ↦ strategy
  | none ↦ fixed_backoff o.backoff o.max_retries
]
