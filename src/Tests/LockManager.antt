-- ===== src/Tests/LockManager.antt =====
-- The manager and the locks of redislock/manager.go over the small store.
use go_infra.Prelude.{false, true, List, Option, none, some, [], ◌∷◌, ◌≡◌, refl, arith}
use go_infra.Prelude.Text.{Text, codes}
use go_infra.Prelude.Int.{ℤ, pos, negsuc}
use go_infra.Redislock.Errors.{Error, external, is_lock_not_held, Result, ok}
use go_infra.Redislock.Queue.{cancelled}
use go_infra.Redislock.Queue.Laws.{IsTidy, new-IsTidy}
use go_infra.Redislock.Retry.{
  LockOption, default_options, apply_options, retry, fixed_backoff, with_retry_strategy,
}
use go_infra.Redislock.Retry.Bounds.{backoffs_stop}
use go_infra.Redislock.Backend.{Backend, redis_backend}
use go_infra.Redislock.Lock.{Shared, Lock, new_lock}
use go_infra.Redislock.Lock.Once.{IsSound, new_lock-IsSound}
use go_infra.Redislock.Lock.History.{Call, run, Left, run-Left}
use go_infra.Redislock.Manager.{
  Host, Manager, new_manager, try_lock, acquire_local, acquire, returned, works, fires, during,
  with_lock_run,
}
use go_infra.Redislock.Manager.TryLock.{Leaves, try_lock-Leaves}
use go_infra.Redislock.Manager.Acquire.{Follows, acquire_total}
use go_infra.Redislock.Manager.WithLock.{
  IsStage, Settles, with_lock_run-Settles, worked, with_lock_run_stuck,
}
use go_infra.Tests.LockBackend.{Store, small}

abbrev host : Host Store
host = record {
  random = λ w. (w, ok (codes "r"));
  hex = λ raw. raw;
  backend = redis_backend small;
  turn = λ key c s. (s, cancelled);
  context_error = λ w. external (codes "canceled");
  pause = λ d w. (w, none);
  meanwhile = λ s. s;
}

-- A backend whose server cannot be reached.
abbrev down : Backend Store
down = record {
  acquire = λ key token ttl w. (w, ok false);
  release = λ key token w. (w, some (external (codes "eof")));
  refresh = λ key token ttl w. (w, some (external (codes "eof")));
}

abbrev job : Text
job = codes "job"

abbrev fresh : Manager Store
fresh = new_manager []

fresh-IsTidy : IsTidy fresh.shared.queue
unfolding new_manager
fresh-IsTidy = new-IsTidy

abbrev lock : Lock
lock = new_lock job (codes "r") (pos 10)

live : lock.finalized ≡ false
unfolding new_lock
live = refl

sound : IsSound lock
sound = new_lock-IsSound job (codes "r") (pos 10)

run-Left_example :
    (l' : Lock) × (s' : Shared Store) × (run down
        (Call.ticks ∷ Call.releases ∷ [])
        lock
        fresh.shared
      ≡ some (l', s'))
    × Left lock fresh.shared l' s'
run-Left_example = run-Left down (Call.ticks ∷ Call.releases ∷ []) lock fresh.shared sound live

try_lock-Leaves_example :
    let o = try_lock host job (pos 10) fresh in Leaves host job (pos 10) fresh o.0 o.1
try_lock-Leaves_example = try_lock-Leaves host job (pos 10) fresh fresh-IsTidy

-- The options of a caller who wants no retry.
abbrev impatient : List LockOption
impatient = with_retry_strategy (fixed_backoff (pos 5) (negsuc 0)) ∷ []

impatient_stops : (retry (apply_options impatient default_options) (pos 1)).1 ≡ false
unfolding apply_options with_retry_strategy retry
impatient_stops = (backoffs_stop (pos 5) (negsuc 0)).0

acquire_total_example :
    (r : Manager Store × Result (Lock × Option ℤ)) × (acquire host 1 job (pos 10) impatient fresh
      ≡ some r)
    × Follows host job (pos 10) (acquire_local host job fresh) r
acquire_total_example =
    acquire_total host job (pos 10) impatient fresh 0 1 impatient_stops (omega arith) (omega arith)

-- The watchdog fires while the callback runs, and the callback fails.
with_lock_run-Settles_example :
    (l1 : Lock) × (m1 : Manager Store) × (during host true (fires ∷ works (λ m. m) ∷ []) lock fresh
      ≡ some (l1, m1))
    × IsStage host lock l1
    × Settles host lock l1 m1 (returned none) (
        with_lock_run host
          (fires ∷ works (λ m. m) ∷ [])
          (returned none)
          fresh
          (ok (lock, some (pos 5))))
with_lock_run-Settles_example =
    with_lock_run-Settles host (fires ∷ works (λ m. m) ∷ []) (returned none) fresh lock
      (some (pos 5)) sound live

with_lock_run_stuck_example :
    (m' : Manager Store) × (x : Error) × (with_lock_run
        (record host { backend = down })
        (works (λ m. m) ∷ [])
        (returned none)
        fresh
        (ok (lock, none))
      ≡ some (m', returned (some x)))
    × (m'.shared.queue ≡ fresh.shared.queue)
unfolding is_lock_not_held worked
with_lock_run_stuck_example =
    with_lock_run_stuck (record host { backend = down }) (works (λ m. m) ∷ []) none fresh lock
      (external (codes "eof")) sound live refl refl
