-- ===== src/Redislock/Manager/Acquire.antt =====
-- `Manager.Acquire` of redislock/manager.go: it ends, and it keeps the local key for a lock only.
use go_infra.Prelude.{
  ℕ, suc, ◌^◌, ◌<◌, true, false, Option, some, List, ◌≡◌, refl, arith, Bool-cases, if◌then◌else◌,
  inl, inr,
}
use go_infra.Prelude.Text.{Text, is_empty}
use go_infra.Prelude.Int.{ℤ, pos, leb_ℤ}
use go_infra.Redislock.Errors.{
  Op, Error, lock_error, lock_message, key_required, ttl_required, Result, ok, err,
}
use go_infra.Redislock.Retry.{LockOptions, LockOption, default_options, apply_options, retry}
use go_infra.Redislock.Lock.{Lock, new_lock, release_key}
use go_infra.Redislock.Lock.Once.{IsSound, new_lock-IsSound}
use go_infra.Redislock.Manager.{
  Host, Manager, set_world, new_token, attempts, acquire_local, acquire_end, acquire_token,
  acquire_held, acquire,
}
use go_infra.Redislock.Manager.Attempts.{attempts_total, attempts_acquired}

abbrev Return : Type 0 → Type 0
Return W = Manager W × Result (Lock × Option ℤ)

-- What `Acquire` returns and leaves once it has the local key, where that left it the manager `m`:
-- with an error it gives the key back, once, after all that others did meanwhile; with a lock it gives
-- nothing back, the backend accepted the token in its last call, and the lock is live.
pub data Ends {W : Type 0} (h : Host W) (key : Text) (ttl : ℤ) (m : Manager W) (r : Return W)
    : Type 0 where
  no_token :
      (e : Error) (w : W)
      → r.1 ≡ err (lock_error Op.acquire key e)
      → r.0.shared ≡ release_key key (record m.shared { world = w })
      → Ends h key ttl m r
  failed :
      (e : Error) (w : W)
      → r.1 ≡ err e
      → r.0.shared ≡ release_key key (h.meanwhile (record m.shared { world = w }))
      → Ends h key ttl m r
  locked :
      (l : Lock) (period : Option ℤ) (w w' : W)
      → r.1 ≡ ok (l, period)
      → h.backend.acquire key l.token ttl w ≡ (w', ok true)
      → r.0.shared ≡ h.meanwhile (record m.shared { world = w' })
      → (l.key ≡ key) × IsSound l × (l.finalized ≡ false)
      → Ends h key ttl m r

-- What `Acquire` returns where it asks for the local key, by what that wait gave.
abbrev pub Follows :
    {W : Type 0} → Host W → Text → ℤ → Manager W × Result (Unit {0}) → Return W → Type 0
Follows h key ttl (m, err e) r = r ≡ (m, err (lock_error Op.acquire key e))
Follows h key ttl (m, ok u) r = Ends h key ttl m r

module _ {W : Type 0} (h : Host W) (key : Text) (ttl : ℤ) (o : LockOptions) (j fuel : ℕ)
    (stops : (retry o (pos (suc j))).1 ≡ false) (small : suc j < 2 ^ 63) (enough : j < fuel) where
  acquire_end-Ends :
      (token : Text) (m : Manager W) (w : W) (x : W × Result (Unit {0}))
      → attempts h key token ttl (retry o) fuel (pos 0) w ≡ some x
      → (r : Return W) × (acquire_end h key token ttl o m (some x) ≡ some r) × Ends h key ttl m r
  unfolding acquire_end new_lock
  acquire_end-Ends token m w (w', err x) ran = (_, refl, failed x w' refl refl)
  acquire_end-Ends token m w (w', ok u) ran =
      let (w0, accepted) = attempts_acquired h key token ttl (retry o) fuel (pos 0) w w' ran in
      (
        _,
        refl,
        locked (new_lock key token ttl) _ w0 w' refl accepted refl
            (refl, new_lock-IsSound key token ttl, refl),
      )

  Ends-world :
      (m : Manager W) (w : W) (r : Return W) → Ends h key ttl (set_world m w) r → Ends h key ttl m r
  Ends-world m w r (no_token e w' p q) = no_token e w' p q
  Ends-world m w r (failed e w' p q) = failed e w' p q
  Ends-world m w r (locked l i w' w2 p a q v) = locked l i w' w2 p a q v

  acquire_token-Ends :
      (t : Result Text) (m : Manager W)
      → (r : Return W) × (acquire_token h fuel key ttl o m t ≡ some r) × Ends h key ttl m r
  unfolding acquire_token
  acquire_token-Ends (err x) m = (_, refl, no_token x m.shared.world refl refl)
  acquire_token-Ends (ok token) m =
      let w = m.shared.world in
      let (x, ran) =
        attempts_total h key token ttl (retry o) j fuel 0 w stops small (omega arith)
          (omega arith) in
      let (r, e, ends) = acquire_end-Ends token m w x ran in (r, rw (ran, acquire_token) e, ends)

  acquire_held-Follows :
      (m : Manager W) (t : Result (Unit {0}))
      → (r : Return W) × (acquire_held h fuel key ttl o m t ≡ some r) × Follows h key ttl (m, t) r
  unfolding acquire_held
  acquire_held-Follows m (err x) = (_, refl, refl)
  acquire_held-Follows m (ok u) =
      let w = (new_token h m.shared.world).0 in
      let (r, e, ends) = acquire_token-Ends (new_token h m.shared.world).1 (set_world m w) in
      (r, e, Ends-world m w r ends)

module _ {W : Type 0} (h : Host W) (key : Text) (ttl : ℤ) (opts : List LockOption)
    (m : Manager W) where
  -- Where the strategy of the options refuses some retry, and the wait for the local key ends by its
  -- turn or by the context, `Acquire` ends, whatever the host answers: as many attempts as the number
  -- of that retry, which an int holds, are enough. It refuses an empty key and a time to live that is not positive
  -- and changes nothing; it returns the error of a wait that was cut short; and with the local key it
  -- returns an error, and has given that key back once, or a live lock that the backend granted, and
  -- has kept it. Other goroutines may change the queue during both waits.
  pub acquire_total :
      (j fuel : ℕ)
      → (retry (apply_options opts default_options) (pos (suc j))).1 ≡ false
      → suc j < 2 ^ 63
      → j < fuel
      → (r : Return W) × (acquire h fuel key ttl opts m ≡ some r)
        × (if is_empty key
            then r ≡ (m, err (lock_message Op.acquire key key_required))
            else if leb_ℤ ttl (pos 0)
            then r ≡ (m, err (lock_message Op.acquire key ttl_required))
            else Follows h key ttl (acquire_local h key m) r)
  acquire_total j fuel stops small enough = elim (Bool-cases (is_empty key)) [
    | inl e ↦ unfold acquire in rw (e, acquire) (_, refl, refl)
    | inr e ↦ elim (Bool-cases (leb_ℤ ttl (pos 0))) [
      | inl e' ↦ unfold acquire in rw (e, e', acquire) (_, refl, refl)
      | inr e' ↦
          unfold acquire in
          rw (e, e', acquire)
            (acquire_held-Follows h key ttl (apply_options opts default_options) j fuel stops small
              enough (acquire_local h key m).0 (acquire_local h key m).1)
    ]
  ]
