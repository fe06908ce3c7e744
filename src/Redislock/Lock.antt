-- ===== src/Redislock/Lock.antt =====
-- `Lock` of redislock/manager.go. A method is a function of the lock, the local queue of its
-- manager and the world; `none` is a panic, from closing a closed channel. The two sections under
-- `l.mu` in `Release` and `Refresh` and the call of the backend between them are one step here;
-- Redislock.Overlap has them as steps of their own.
pub mod Once
pub mod History
use go_infra.Prelude.{ℕ, ◌/◌, Bool, true, false, Option, none, some, List, [], ◌∷◌, if◌then◌else◌}
use go_infra.Prelude.Text.{Text}
use go_infra.Prelude.Int.{ℤ, pos, negsuc, leb_ℤ}
use go_infra.Redislock.Errors.{
  Op, Error, lock_not_held, lock_released, lock_error, is_lock_not_held,
}
use go_infra.Redislock.Errors
use go_infra.Redislock.Queue
use go_infra.Redislock.Queue.{LocalKeyQueue}
use go_infra.Redislock.Backend.{Backend}

-- What the methods change besides the lock: the local queue, the channels of waiters that were
-- closed, last first, and the world behind the backend.
pub record Shared (W : Type 0) : Type 0 where
  pub queue : LocalKeyQueue
  pub closed : List ℕ
  pub world : W

-- `local_done` is the `once` of the release function, `finalized` that of `finalizeOnce`.
pub record Lock : Type 0 where
  pub key : Text
  pub token : Text
  pub ttl : ℤ
  pub has_release_local : Bool
  pub local_done : Bool
  pub watchdog_closed : Bool
  pub finalized : Bool
  pub released : Bool

unfoldable pub new_lock : Text → Text → ℤ → Lock
new_lock key token ttl = record {
  key = key;
  token = token;
  ttl = ttl;
  has_release_local = true;
  local_done = false;
  watchdog_closed = false;
  finalized = false;
  released = false;
}

abbrev pub close_next : Option ℕ → List ℕ → List ℕ
close_next none cs = cs
close_next (some c) cs = c ∷ cs

-- `close(l.watchdogStop)`
unfoldable pub close_watchdog : Lock → Option Lock
close_watchdog l = if l.watchdog_closed then none else some (record l { watchdog_closed = true })

module _ {W : Type 0} where
  -- `release` of the queue, with the channel that it closes.
  unfoldable pub release_key : Text → Shared W → Shared W
  release_key key s =
      let (q, next) = Queue.release key s.queue in
      record s { queue = q; closed = close_next next s.closed }

  -- A call of the function that `releaseFunc` returns.
  unfoldable pub release_local : Lock → Shared W → Lock × Shared W
  release_local l s =
      if l.local_done then (l, s) else (record l { local_done = true }, release_key l.key s)

  abbrev release_if_any : Lock → Shared W → Lock × Shared W
  release_if_any l s = if l.has_release_local then release_local l s else (l, s)

  -- The body that `finalizeOnce` runs.
  finalize_body : Lock → Shared W → Option (Lock × Shared W)
  unfolding close_watchdog
  finalize_body l s = elim (close_watchdog (record l { released = true })) [
    | none ↦ none
    | some l' ↦ some (release_if_any l' s)
  ]

  unfoldable pub finalize : Lock → Shared W → Option (Lock × Shared W)
  unfolding finalize_body
  finalize l s =
      if l.finalized then some (l, s) else finalize_body (record l { finalized = true }) s

  -- `finalize`, and then the error of the method.
  finish : Option Error → Option (Lock × Shared W) → Option (Lock × Shared W × Option Error)
  finish e none = none
  finish e (some (l, s)) = some (l, s, e)

  -- The branches of `Release` and of `Refresh` on the error of the backend.
  after_release : Lock → Shared W → Option Error → Option (Lock × Shared W × Option Error)
  unfolding finish
  after_release l s none = finish none (finalize l s)
  after_release l s (some e) =
      if is_lock_not_held e
      then finish (some (lock_error Op.release l.key lock_not_held)) (finalize l s)
      else some (l, s, some (lock_error Op.release l.key e))

  after_refresh : Lock → Shared W → Option Error → Option (Lock × Shared W × Option Error)
  unfolding finish
  after_refresh l s none = some (l, s, none)
  after_refresh l s (some e) =
      if is_lock_not_held e
      then finish (some (lock_error Op.refresh l.key lock_not_held)) (finalize l s)
      else some (l, s, some (lock_error Op.refresh l.key e))

  module _ (b : Backend W) where
    unfoldable pub release : Lock → Shared W → Option (Lock × Shared W × Option Error)
    unfolding after_release
    release l s =
        let (w, e) = b.release l.key l.token s.world in
        if l.released
        then some (l, s, some lock_released)
        else after_release l (record s { world = w }) e

    unfoldable pub refresh : ℤ → Lock → Shared W → Option (Lock × Shared W × Option Error)
    unfolding after_refresh
    refresh ttl l s =
        let (w, e) = b.refresh l.key l.token ttl s.world in
        if l.released
        then some (l, s, some lock_released)
        else after_refresh l (record s { world = w }) e

    -- A tick of the watchdog's ticker: the error of the refresh is dropped.
    unfoldable pub watchdog_tick : Lock → Shared W → Option (Lock × Shared W × Option Error)
    watchdog_tick l s = refresh l.ttl l s

-- The period of the watchdog, if it starts. A quotient of positive durations is not negative.
unfoldable pub watchdog_interval : ℤ → Option ℤ
watchdog_interval (negsuc n) = none
watchdog_interval (pos n) =
    let half : ℤ = pos (n / 2) in
    let interval = if leb_ℤ half (pos 0) then pos n else half in
    if leb_ℤ (pos n) (pos 0)
    then none
    else some (if leb_ℤ interval (pos 0) then pos 50_000_000 else interval)
