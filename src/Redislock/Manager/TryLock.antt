-- ===== src/Redislock/Manager/TryLock.antt =====
-- `Manager.TryLock` of redislock/manager.go.
use go_infra.Prelude.{Bool, true, false, none, some, ◌≡◌, refl, Bool-cases, inl, inr}
use go_infra.Prelude.Text.{Text, is_empty}
use go_infra.Prelude.Int.{ℤ, pos, leb_ℤ}
use go_infra.Redislock.Errors.{Error, Result, ok, err}
use go_infra.Redislock.Queue
use go_infra.Redislock.Queue.{LocalKeyQueue}
use go_infra.Redislock.Queue.Laws.{IsTidy}
use go_infra.Redislock.Lock.{Lock, new_lock, release_key}
use go_infra.Redislock.Lock.Once.{IsSound, new_lock-IsSound}
use go_infra.Redislock.Manager.{Host, Manager, Outcome, try_lock_end, try_lock_token, try_lock}
use go_infra.Redislock.Manager.Local.{Took, Same, Took-release, try_acquire-Took, try_acquire-Same}

-- What `TryLock` leaves. With no lock the local queue is as it was, and no waiter was woken. With a
-- lock, the key and the time to live are valid, the local key was free and is taken, the backend
-- accepted the token of the lock, and the lock is live.
pub data Leaves {W : Type 0} (h : Host W) (key : Text) (ttl : ℤ) (m m' : Manager W) (r : Outcome)
    : Type 0 where
  refused :
      (e : Error)
      → r ≡ err e
      → Same m.shared.queue m'.shared.queue
      → m'.shared.closed ≡ m.shared.closed
      → Leaves h key ttl m m' r
  missed :
      r ≡ ok none
      → Same m.shared.queue m'.shared.queue
      → m'.shared.closed ≡ m.shared.closed
      → Leaves h key ttl m m' r
  locked :
      (l : Lock) (w : W)
      → r ≡ ok (some l)
      → (is_empty key ≡ false) × (leb_ℤ ttl (pos 0) ≡ false)
      → Took key m.shared.queue m'.shared.queue
      → m'.shared.closed ≡ m.shared.closed
      → (h.backend.acquire key l.token ttl w).1 ≡ ok true
      → (l.key ≡ key) × IsSound l × (l.finalized ≡ false)
      → Leaves h key ttl m m' r

module _ {W : Type 0} (h : Host W) (key : Text) (ttl : ℤ) (m : Manager W) where
  module _ (valid : (is_empty key ≡ false) × (leb_ℤ ttl (pos 0) ≡ false)) where
    try_lock_end-Leaves :
        (token : Text) (w : W) (m1 : Manager W) (r : Result Bool)
        → (h.backend.acquire key token ttl w).1 ≡ r
        → Took key m.shared.queue m1.shared.queue
        → m1.shared.closed ≡ m.shared.closed
        → let o = try_lock_end h key token ttl m1 r in Leaves h key ttl m o.0 o.1
    unfolding try_lock_end release_key new_lock
    try_lock_end-Leaves token w m1 (err e) a t c =
        refused _ refl (Took-release key _ _ t).0 (rw ((Took-release key _ _ t).1) c)
    try_lock_end-Leaves token w m1 (ok false) a t c =
        missed refl (Took-release key _ _ t).0 (rw ((Took-release key _ _ t).1) c)
    try_lock_end-Leaves token w m1 (ok true) a t c =
        locked (new_lock key token ttl) w refl valid t c a
          (refl, new_lock-IsSound key token ttl, refl)

    try_lock_token-Leaves :
        (m1 : Manager W) (r : Result Text)
        → Took key m.shared.queue m1.shared.queue
        → m1.shared.closed ≡ m.shared.closed
        → let o = try_lock_token h key ttl m1 r in Leaves h key ttl m o.0 o.1
    unfolding try_lock_token release_key
    try_lock_token-Leaves m1 (err e) t c =
        refused _ refl (Took-release key _ _ t).0 (rw ((Took-release key _ _ t).1) c)
    try_lock_token-Leaves m1 (ok token) t c = try_lock_end-Leaves token m1.shared.world _ _ refl t c

  -- Whatever the host answers, `TryLock` leaves the local queue as it was unless it gives a lock;
  -- then the local key was free and is taken, and the backend accepted the token of the live lock.
  pub try_lock-Leaves :
      IsTidy m.shared.queue → let o = try_lock h key ttl m in Leaves h key ttl m o.0 o.1
  unfolding try_lock
  try_lock-Leaves t = elim (Bool-cases (is_empty key)) [
    | inl e ↦ rw (e, try_lock) (refused _ refl (λ j. refl) refl)
    | inr e ↦ elim (Bool-cases (leb_ℤ ttl (pos 0))) [
      | inl e' ↦ rw (e, e', try_lock) (refused _ refl (λ j. refl) refl)
      | inr e' ↦ elim (Bool-cases (Queue.try_acquire key m.shared.queue).1) [
        | inl got ↦
            rw (e, e', got, try_lock)
              (try_lock_token-Leaves (e, e') _ _ (try_acquire-Took key _ t got) refl)
        | inr got ↦ rw (e, e', got, try_lock) (missed refl (try_acquire-Same key _ t got) refl)
      ]
    ]
  ]
