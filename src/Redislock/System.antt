-- ===== src/Redislock/System.antt =====
-- Many goroutines at the `localKeyQueue` of redislock/manager.go. An index is one call of `acquire` or
-- `tryAcquire` with the release function that it returns; the channel that the call makes has the
-- number of the call. A step is one critical section, one branch of the `select`, or one `close`.
pub mod Steps
pub mod Slots
pub mod Invariant
pub mod Safety
pub mod Lost
use go_infra.Prelude.{ℕ, ◌==◌, Bool, true, false, Option, none, some, ◌≡◌, if◌then◌else◌}
use go_infra.Prelude.Text.{Text}
use go_infra.Redislock.Queue.{
  LocalKeyQueue, new_local_key_queue, try_acquire, taken, waiting, acquire_begin, remove_waiter,
  release,
}

-- Where a call stands.
pub data Pc : Type 0 where
  idle : Pc  -- not yet called
  selecting : Text → Pc  -- in the `select` of `acquire`
  cancelling : Text → Pc  -- after `<-ctx.Done()`, before `removeWaiter`
  holding : Text → Pc  -- returned a release function, which was not called
  closing : ℕ → Pc  -- in `release`, before `close(next)`
  done : Pc

pub record System : Type 0 where
  pub queue : LocalKeyQueue
  pub closed : ℕ → Bool
  pub pc : ℕ → Pc

abbrev pub update {ℓ} : {A : Type ℓ} → (ℕ → A) → ℕ → A → ℕ → A
update f i a j = if i == j then a else f j

-- A step of call `i`: what it does to the queue, to the closed channels and to the call.
pub data Move (i : ℕ) (q : LocalKeyQueue) (closed : ℕ → Bool)
    : Pc → LocalKeyQueue → (ℕ → Bool) → Pc → Type 0 where
  try_takes :
      (k : Text)
      → (try_acquire k q).1 ≡ true
      → Move i q closed idle (try_acquire k q).0 closed (holding k)
  try_misses :
      (k : Text)
      → (try_acquire k q).1 ≡ false
      → Move i q closed idle (try_acquire k q).0 closed done
  takes :
      (k : Text)
      → (acquire_begin k i q).1 ≡ taken
      → Move i q closed idle (acquire_begin k i q).0 closed (holding k)
  queues :
      (k : Text)
      → (acquire_begin k i q).1 ≡ waiting
      → Move i q closed idle (acquire_begin k i q).0 closed (selecting k)
  granted : {k : Text} → closed i ≡ true → Move i q closed (selecting k) q closed (holding k)
  cancelled : {k : Text} → Move i q closed (selecting k) q closed (cancelling k)
  leaves : {k : Text} → Move i q closed (cancelling k) (remove_waiter k i q) closed done
  frees :
      {k : Text} → (release k q).1 ≡ none → Move i q closed (holding k) (release k q).0 closed done
  hands_over :
      {k : Text} {c : ℕ}
      → (release k q).1 ≡ some c
      → Move i q closed (holding k) (release k q).0 closed (closing c)
  closes : {c : ℕ} → Move i q closed (closing c) q (update closed c true) done

pub data Step (s : System) : System → Type 0 where
  pick :
      (i : ℕ) {q : LocalKeyQueue} {closed : ℕ → Bool} {p : Pc}
      → Move i s.queue s.closed (s.pc i) q closed p
      → Step s (record { queue = q; closed = closed; pc = update s.pc i p })

abbrev pub init : System
init = record { queue = new_local_key_queue; closed = λ c. false; pc = λ i. idle }

-- Any number of steps, in any order of the calls.
pub data Reach (s : System) : System → Type 0 where
  here : Reach s s
  later : {t u : System} → Reach s t → Step t u → Reach s u
