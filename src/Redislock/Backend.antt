-- ===== src/Redislock/Backend.antt =====
-- `Backend` and `RedisBackend` of redislock/manager.go. The world `W` is what the calls change
-- outside the process; go-redis is a parameter, with the documented commands that are used of it.
pub mod Ownership
use go_infra.Prelude.{ℕ, zero, suc, ◌/◌, Bool, true, false, Option, none, some, if◌then◌else◌, ◌==◌}
use go_infra.Prelude.Text.{Text, text_eq}
use go_infra.Prelude.Int.{ℤ, pos, negsuc}
use go_infra.Redislock.Errors.{Error, lock_not_held, Result, ok, err}

-- The interface `Backend`; an error that may be nil is an `Option`.
pub record Backend (W : Type 0) : Type 0 where
  pub acquire : Text → Text → ℤ → W → W × Result Bool
  pub release : Text → Text → W → W × Option Error
  pub refresh : Text → Text → ℤ → W → W × Option Error

-- What the package uses of go-redis and of the commands of Redis: `SetNX` with a time to live, and
-- `Run`, which has the server execute a script over `get`, `del` and `pexpire` in one piece.
pub record RedisClient (W : Type 0) : Type 0 where
  pub set_nx : Text → Text → ℤ → W → W × Result Bool
  pub get : Text → W → Option Text
  pub del : Text → W → W × ℕ
  pub pexpire : Text → ℤ → W → W × ℕ
  pub run : (W → W × ℕ) → W → W × Result ℕ

-- `ttl.Milliseconds()`: the quotient is truncated towards zero.
unfoldable pub milliseconds : ℤ → ℤ
milliseconds (pos n) = pos (n / 1_000_000)
milliseconds (negsuc n) = elim (suc n / 1_000_000) [ zero ↦ pos 0 | suc k ↦ negsuc k ]

-- `redis.call("get", KEYS[1]) == ARGV[1]`
abbrev pub holds : Option Text → Text → Bool
holds none token = false
holds (some value) token = text_eq value token

-- The count of a script as the error of its caller.
abbrev pub count_error : Result ℕ → Option Error
count_error (err e) = some e
count_error (ok n) = if n == 0 then some lock_not_held else none

module _ {W : Type 0} (c : RedisClient W) where
  unfoldable pub release_script : Text → Text → W → W × ℕ
  release_script key token w = if holds (c.get key w) token then c.del key w else (w, 0)

  unfoldable pub refresh_script : Text → Text → ℤ → W → W × ℕ
  refresh_script key token ms w = if holds (c.get key w) token then c.pexpire key ms w else (w, 0)

  unfoldable pub redis_acquire : Text → Text → ℤ → W → W × Result Bool
  redis_acquire key token ttl w = c.set_nx key token ttl w

  unfoldable pub redis_release : Text → Text → W → W × Option Error
  redis_release key token w =
      let (w', deleted) = c.run (release_script key token) w in (w', count_error deleted)

  unfoldable pub redis_refresh : Text → Text → ℤ → W → W × Option Error
  redis_refresh key token ttl w =
      let (w', updated) = c.run (refresh_script key token (milliseconds ttl)) w in
      (w', count_error updated)

  unfoldable pub redis_backend : Backend W
  unfolding redis_acquire redis_release redis_refresh
  redis_backend = record {
    acquire = redis_acquire;
    release = redis_release;
    refresh = redis_refresh;
  }
