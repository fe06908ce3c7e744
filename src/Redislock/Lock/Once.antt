-- ===== src/Redislock/Lock/Once.antt =====
-- `Lock` of redislock/manager.go: what its methods do on every branch, and that a lock is finalized
-- once, whatever calls are made of it.
use go_infra.Prelude.{
  ℕ, zero, suc, ◌+◌, ◌/◌, ◌<◌, ◌≤◌, true, false, Option, none, some, ◌≡◌, refl, arith,
  if◌then◌else◌,
}
use go_infra.Prelude.Text.{Text}
use go_infra.Prelude.Int.{ℤ, pos, negsuc, pos_part, leb_ℤ}
use go_infra.Redislock.Errors.{
  Op, Error, lock_not_held, lock_released, lock_error, is_lock_not_held,
}
use go_infra.Redislock.Backend.{Backend}
use go_infra.Redislock.Lock.{
  Shared, Lock, new_lock, release_key, release_local, finalize, release, refresh, watchdog_tick,
  watchdog_interval,
}

-- The four flags of a lock that its manager made agree.
pub record IsSound (l : Lock) : Type 0 where
  pub with_local : l.has_release_local ≡ true
  pub local_once : l.local_done ≡ l.finalized
  pub stopped_once : l.watchdog_closed ≡ l.finalized
  pub marked : l.released ≡ l.finalized

pub new_lock-IsSound : (key token : Text) (ttl : ℤ) → IsSound (new_lock key token ttl)
unfolding new_lock
new_lock-IsSound key token ttl = record {
  with_local = refl;
  local_once = refl;
  stopped_once = refl;
  marked = refl;
}

-- A lock after its end.
abbrev pub ended : Lock → Lock
ended l = record l { local_done = true; watchdog_closed = true; finalized = true; released = true }

pub ended-IsSound : (l : Lock) → IsSound l → IsSound (ended l)
ended-IsSound l v = record {
  with_local = v.with_local;
  local_once = refl;
  stopped_once = refl;
  marked = refl;
}

module _ {W : Type 0} where
  -- The end of a lock gives the local key back, and does not panic.
  finalize_live :
      (l : Lock) (s : Shared W)
      → IsSound l
      → l.finalized ≡ false
      → finalize l s ≡ some (ended l, release_key l.key s)
  unfolding finalize release_local
  finalize_live l s v h = ground arith

  -- What `Release` returns when the backend answers `e`.
  abbrev pub spec_end : Op → Lock → Shared W → Option Error → Lock × Shared W × Option Error
  spec_end op l s none = (ended l, release_key l.key s, none)
  spec_end op l s (some e) =
      if is_lock_not_held e
      then (ended l, release_key l.key s, some (lock_error op l.key lock_not_held))
      else (l, s, some (lock_error op l.key e))

  -- `Release` on every branch of a lock that has not ended: it gives the local key back if the
  -- backend deleted the key or did not hold it, and else leaves the lock as it is.
  pub release_live :
      (b : Backend W) (l : Lock) (s : Shared W)
      → IsSound l
      → l.finalized ≡ false
      → let answer = b.release l.key l.token s.world in
        release b l s ≡ some (spec_end Op.release l (record s { world = answer.0 }) answer.1)
  unfolding release
  release_live b l s v h =
      ground (arith, finalize_live l (record s { world = (b.release l.key l.token s.world).0 }) v h)

  -- What `Refresh` returns when the backend answers `e`.
  abbrev pub spec_refresh : Lock → Shared W → Option Error → Lock × Shared W × Option Error
  spec_refresh l s none = (l, s, none)
  spec_refresh l s (some e) = spec_end Op.refresh l s (some e)

  -- `Refresh` on every branch of a lock that has not ended: where the backend prolonged the key it
  -- changes nothing else, where the key is not held the lock ends and gives the local key back, and
  -- another error leaves the lock as it is.
  pub refresh_live :
      (b : Backend W) (ttl : ℤ) (l : Lock) (s : Shared W)
      → IsSound l
      → l.finalized ≡ false
      → let answer = b.refresh l.key l.token ttl s.world in
        refresh b ttl l s ≡ some (spec_refresh l (record s { world = answer.0 }) answer.1)
  unfolding refresh
  refresh_live b ttl l s v h =
      ground
        (arith, finalize_live l (record s { world = (b.refresh l.key l.token ttl s.world).0 }) v h)

  -- After its end a lock answers `ErrLockReleased` to every method, and changes nothing: the
  -- backend is not called, and the watchdog prolongs no key.
  pub ended_refuses :
      (b : Backend W) (ttl : ℤ) (l : Lock) (s : Shared W)
      → l.released ≡ true
      → (release b l s ≡ some (l, s, some lock_released))
        × (refresh b ttl l s ≡ some (l, s, some lock_released))
        × (watchdog_tick b l s ≡ some (l, s, some lock_released))
  unfolding release refresh watchdog_tick
  ended_refuses b ttl l s h = ground arith

-- The watchdog starts exactly for a positive time to live. Its period is positive and no longer
-- than that time, and fits twice in it from two nanoseconds on.
pub watchdog_interval_lem :
    (ttl : ℤ)
    → (leb_ℤ ttl (pos 0) ≡ true → watchdog_interval ttl ≡ none)
      × (leb_ℤ ttl (pos 0) ≡ false
          → (i : ℕ) × (watchdog_interval ttl ≡ some (pos i))
            × (0 < i)
            × (i ≤ pos_part ttl)
            × (2 ≤ pos_part ttl → i + i ≤ pos_part ttl))
unfolding watchdog_interval
watchdog_interval_lem (negsuc n) = ground arith
watchdog_interval_lem (pos zero) = ground arith
watchdog_interval_lem (pos (suc zero)) =
    (λ e. ground arith, λ e. (1, ground arith, ground arith, ground arith, ground arith))
watchdog_interval_lem (pos (suc (suc n))) = (
  λ e. ground arith,
  λ e. (suc (suc n) / 2, ground arith, ground arith, ground arith, ground arith),
)
