-- ===== src/Redislock/Manager.antt =====
-- `Manager` of redislock/manager.go. `TryLock`, `Acquire` and `WithLock` are functions of the
-- state that one goroutine sees; what it waits for comes from a `Host`.
-- `TryLock` is one step: no other goroutine comes between its call of the backend and what is around
-- it. In `Acquire` and during the callback of `WithLock` others do.
pub mod Local
pub mod TryLock
pub mod Attempts
pub mod Acquire
pub mod WithLock
use go_infra.Prelude.{
  ℕ, zero, suc, ◌+◌, Bool, true, false, Option, none, some, List, [], ◌∷◌, if◌then◌else◌,
}
use go_infra.Prelude.Text.{Text, is_empty}
use go_infra.Prelude.Int.{ℤ, pos, leb_ℤ, add64}
use go_infra.Redislock.Errors
use go_infra.Redislock.Errors.{
  Op, Error, lock_not_acquired, lock_error, lock_message, key_required, ttl_required,
  callback_required, Result, ok, err,
}
use go_infra.Redislock.Queue
use go_infra.Redislock.Queue.{
  LocalKeyQueue, new_local_key_queue, Turn, taken, waiting, Wakeup, granted, cancelled,
}
use go_infra.Redislock.Retry.{
  RetryStrategy, LockOptions, LockOption, default_options, apply_options, retry,
}
use go_infra.Redislock.Backend.{Backend}
use go_infra.Redislock.Lock
use go_infra.Redislock.Lock.{Shared, Lock, new_lock, release_key, watchdog_interval}

-- What the package does not implement: the random bytes of a token and their hexadecimal text, the
-- backend, and the two waits of `Acquire`. `turn` is the wait for the local key: other goroutines work
-- on what they share until the channel is closed or the context is done. The wait before a retry ends by
-- the timer, or with the error of the context. `meanwhile` is what other goroutines do to the shared
-- state during the loop of `Acquire`, which does not read the queue.
pub record Host (W : Type 0) : Type 0 where
  pub random : W → W × Result Text
  pub hex : Text → Text
  pub backend : Backend W
  pub turn : Text → ℕ → Shared W → Shared W × Wakeup
  pub context_error : W → Error
  pub pause : ℤ → W → W × Option Error
  pub meanwhile : Shared W → Shared W

-- A manager: what its locks share with it, and the number of the next channel.
pub record Manager (W : Type 0) : Type 0 where
  pub shared : Shared W
  pub next_chan : ℕ

module _ {W : Type 0} where
  unfoldable pub new_manager : W → Manager W
  new_manager w = record {
    shared = record { queue = new_local_key_queue; closed = []; world = w };
    next_chan = 0;
  }

  abbrev pub set_world : Manager W → W → Manager W
  set_world m w = record m { shared = record m.shared { world = w } }

  abbrev pub set_queue : Manager W → LocalKeyQueue → Manager W
  set_queue m q = record m { shared = record m.shared { queue = q } }

  -- `releaseLocal()` in a method of the manager; each of them calls it once at most.
  abbrev pub give_back : Text → Manager W → Manager W
  give_back key m = record m { shared = release_key key m.shared }

-- A call that gives no lock and no error is `ok none`.
abbrev pub Outcome : Type 0
Outcome = Result (Option Lock)

-- How a callback ends, and `WithLock` with it: it returns an error or none, or panics.
pub data Ending : Type 0 where
  returned : Option Error → Ending
  panicked : Ending

-- What happens from the start of a callback of `WithLock` to `Release`, in order: the callback or
-- another goroutine works on the manager, or the ticker of the watchdog fires.
pub data Event (W : Type 0) : Type 0 where
  works : (Manager W → Manager W) → Event W
  fires : Event W

abbrev pub is_watched : Option ℤ → Bool
is_watched none = false
is_watched (some period) = true

abbrev pub first_error : Option Error → Option Error → Option Error
first_error none e = e
first_error (some c) e = some c

module _ {W : Type 0} (h : Host W) where
  hex_token : W × Result Text → W × Result Text
  hex_token (w, ok raw) = (w, ok (h.hex raw))
  hex_token (w, err e) = (w, err e)

  unfoldable pub new_token : W → W × Result Text
  unfolding hex_token
  new_token w = hex_token (h.random w)

  -- `TryLock` after the call of the backend.
  try_lock_end : Text → Text → ℤ → Manager W → Result Bool → Manager W × Outcome
  try_lock_end key token ttl m (err e) = (give_back key m, err (lock_error Op.try_lock key e))
  try_lock_end key token ttl m (ok false) = (give_back key m, ok none)
  try_lock_end key token ttl m (ok true) = (m, ok (some (new_lock key token ttl)))

  -- `TryLock` after `newToken`.
  try_lock_token : Text → ℤ → Manager W → Result Text → Manager W × Outcome
  unfolding try_lock_end
  try_lock_token key ttl m (err e) = (give_back key m, err (lock_error Op.try_lock key e))
  try_lock_token key ttl m (ok token) =
      let (w, acquired) = h.backend.acquire key token ttl m.shared.world in
      try_lock_end key token ttl (set_world m w) acquired

  -- `TryLock` with the local key.
  try_lock_held : Text → ℤ → Manager W → Manager W × Outcome
  unfolding try_lock_token new_token
  try_lock_held key ttl m =
      let (w, token) = new_token m.shared.world in try_lock_token key ttl (set_world m w) token

  unfoldable pub try_lock : Text → ℤ → Manager W → Manager W × Outcome
  unfolding try_lock_held
  try_lock key ttl m =
      let (q, got) = Queue.try_acquire key m.shared.queue in
      if is_empty key
      then (m, err (lock_message Op.try_lock key key_required))
      else if leb_ℤ ttl (pos 0)
      then (m, err (lock_message Op.try_lock key ttl_required))
      else if got
      then try_lock_held key ttl (set_queue m q)
      else (set_queue m q, ok none)

  -- `m.queue.acquire(ctx, key)`: the error where the context is done before the turn comes.
  acquire_wait : Text → ℕ → Manager W → Manager W × Result (Unit {0})
  acquire_wait key chan m =
      let (s, wakeup) = h.turn key chan m.shared in
      let (q, got) = Queue.acquire_end key chan wakeup s.queue in
      let m' = record m { shared = record s { queue = q } } in
      if got then (m', ok tt) else (m', err (h.context_error s.world))

  unfoldable pub acquire_local : Text → Manager W → Manager W × Result (Unit {0})
  unfolding acquire_wait
  acquire_local key m = elim (Queue.acquire_begin key m.next_chan m.shared.queue).1 [
    | taken ↦ (set_queue m (Queue.acquire_begin key m.next_chan m.shared.queue).0, ok tt)
    | waiting ↦
        let q = (Queue.acquire_begin key m.next_chan m.shared.queue).0 in
        acquire_wait key m.next_chan (record (set_queue m q) { next_chan = suc m.next_chan })
  ]

  -- One round of the loop of `Acquire`, at the number that `attempt++` gives; `again` goes on.
  unfoldable pub round :
      Text
      → Text
      → ℤ
      → RetryStrategy
      → ℤ
      → (W → Option (W × Result (Unit {0})))
      → W
      → Option (W × Result (Unit {0}))
  round key token ttl next attempt again w =
      let (w1, acquired) = h.backend.acquire key token ttl w in
      let (delay, more) = next attempt in
      let (w2, stop) = h.pause delay w1 in
      elim acquired [
        | err e ↦ some (w1, err (lock_error Op.acquire key e))
        | ok got ↦ elim got [
          | true ↦ some (w1, ok tt)
          | false ↦ elim more [
            | false ↦ some (w1, err (lock_error Op.acquire key lock_not_acquired))
            | true ↦ elim stop [
              | some e ↦ some (w2, err (lock_error Op.acquire key e))
              | none ↦ again w2
            ]
          ]
        ]
      ]

  -- The loop, with fuel for its rounds; `none` means that the fuel ran out. `attempt` is an int,
  -- which wraps.
  unfoldable pub attempts :
      Text → Text → ℤ → RetryStrategy → ℕ → ℤ → W → Option (W × Result (Unit {0}))
  unfolding round
  attempts key token ttl next zero attempt w = none
  attempts key token ttl next (suc fuel) attempt w =
      let attempt' = add64 attempt (pos 1) in
      round key token ttl next attempt' (attempts key token ttl next fuel attempt') w

  -- The manager when the loop of `Acquire` has ended in the world `w`.
  abbrev pub after_loop : Manager W → W → Manager W
  after_loop m w = record m { shared = h.meanwhile (record m.shared { world = w }) }

  -- The rest of `Acquire`: the deferred function gives the local key back unless there is a lock.
  -- With the lock comes the period of its watchdog, where that was started.
  acquire_end :
      Text
      → Text
      → ℤ
      → LockOptions
      → Manager W
      → Option (W × Result (Unit {0}))
      → Option (Manager W × Result (Lock × Option ℤ))
  acquire_end key token ttl o m none = none
  acquire_end key token ttl o m (some (w, err e)) = some (give_back key (after_loop m w), err e)
  acquire_end key token ttl o m (some (w, ok u)) = some (
    after_loop m w,
    ok (new_lock key token ttl, if o.auto_refresh then watchdog_interval ttl else none),
  )

  acquire_token :
      ℕ
      → Text
      → ℤ
      → LockOptions
      → Manager W
      → Result Text
      → Option (Manager W × Result (Lock × Option ℤ))
  unfolding acquire_end
  acquire_token fuel key ttl o m (err e) = some (give_back key m, err (lock_error Op.acquire key e))
  acquire_token fuel key ttl o m (ok token) =
      acquire_end key token ttl o m (attempts key token ttl (retry o) fuel (pos 0) m.shared.world)

  -- `Acquire` after its local key, or after the context was done first.
  acquire_held :
      ℕ
      → Text
      → ℤ
      → LockOptions
      → Manager W
      → Result (Unit {0})
      → Option (Manager W × Result (Lock × Option ℤ))
  unfolding acquire_token
  acquire_held fuel key ttl o m (err e) = some (m, err (lock_error Op.acquire key e))
  acquire_held fuel key ttl o m (ok u) =
      let (w, token) = new_token m.shared.world in
      acquire_token fuel key ttl o (set_world m w) token

  unfoldable pub acquire :
      ℕ → Text → ℤ → List LockOption → Manager W → Option (Manager W × Result (Lock × Option ℤ))
  unfolding acquire_held acquire_local new_token
  acquire fuel key ttl opts m =
      let (m', turn) = acquire_local key m in
      if is_empty key
      then some (m, err (lock_message Op.acquire key key_required))
      else if leb_ℤ ttl (pos 0)
      then some (m, err (lock_message Op.acquire key ttl_required))
      else acquire_held fuel key ttl (apply_options opts default_options) m' turn

  -- The events, where `watched` says whether there is a watchdog.
  unfoldable pub during : Bool → List (Event W) → Lock → Manager W → Option (Lock × Manager W)
  during watched [] l m = some (l, m)
  during watched (works f ∷ es) l m = during watched es l (f m)
  during watched (fires ∷ es) l m =
      elim (if watched then Lock.watchdog_tick h.backend l m.shared else some (l, m.shared, none)) [
        | none ↦ none
        | some (l', s', e) ↦ during watched es l' (record m { shared = s' })
      ]

  with_lock_end :
      Option Error
      → Manager W
      → Option (Lock × Shared W × Option Error)
      → Option (Manager W × Ending)
  with_lock_end c m none = none
  with_lock_end c m (some (l, s, e)) = some (record m { shared = s }, returned (first_error c e))

  -- `WithLock` when the callback has ended. `Release` is not deferred.
  with_lock_release : Ending → Option (Lock × Manager W) → Option (Manager W × Ending)
  unfolding with_lock_end
  with_lock_release c none = none
  with_lock_release panicked (some (l, m)) = some (m, panicked)
  with_lock_release (returned c) (some (l, m)) =
      with_lock_end c m (Lock.release h.backend l m.shared)

  -- `WithLock` after `Acquire`, with the events during the callback and how it ends. `none` is a
  -- panic from closing a closed channel.
  unfoldable pub with_lock_run :
      List (Event W) → Ending → Manager W → Result (Lock × Option ℤ) → Option (Manager W × Ending)
  unfolding with_lock_release during
  with_lock_run es c m (err e) = some (m, returned (some e))
  with_lock_run es c m (ok (l, period)) = with_lock_release c (during (is_watched period) es l m)

  with_lock_acquired :
      List (Event W)
      → Ending
      → Option (Manager W × Result (Lock × Option ℤ))
      → Option (Manager W × Ending)
  with_lock_acquired es c none = none
  with_lock_acquired es c (some (m, r)) = with_lock_run es c m r

  -- `WithLock`; the callback is `none` where it is nil.
  unfoldable pub with_lock :
      ℕ
      → Text
      → ℤ
      → Option (List (Event W) × Ending)
      → List LockOption
      → Manager W
      → Option (Manager W × Ending)
  unfolding with_lock_acquired with_lock_run
  with_lock fuel key ttl none opts m =
      some (m, returned (some (lock_message Op.with_lock key callback_required)))
  with_lock fuel key ttl (some (es, c)) opts m =
      with_lock_acquired es c (acquire fuel key ttl opts m)
