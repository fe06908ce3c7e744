-- ===== src/Redislock/Manager/Attempts.antt =====
-- The retry loop of `Manager.Acquire` (redislock/manager.go).
use go_infra.Prelude.{
  ℕ, zero, suc, ◌+◌, ◌^◌, ◌≤◌, ◌<◌, ◌==◌, true, false, Option, none, some, ◌≡◌, ◌⊎◌, refl, ap, ◌∙◌,
  arith, Bool-cases, Option-cases, inl, inr,
}
use go_infra.Prelude.Text.{Text}
use go_infra.Prelude.Int.{ℤ, pos, add64, add64-pos}
use go_infra.Redislock.Errors.{Op, Error, lock_not_acquired, lock_error, Result, ok, err}
use go_infra.Redislock.Retry.{RetryStrategy}
use go_infra.Redislock.Retry.Bounds.{Allows}
use go_infra.Redislock.Manager.{Host, round, attempts}

Result-cases : {A : Type 0} (r : Result A) → ((e : Error) × (r ≡ err e)) ⊎ ((a : A) × (r ≡ ok a))
Result-cases (err e) = inl (e, refl)
Result-cases (ok a) = inr (a, refl)

module _ {W : Type 0} (h : Host W) (key token : Text) (ttl : ℤ) (next : RetryStrategy) where
  next_attempt : (k : ℕ) → suc k < 2 ^ 63 → add64 (pos k) (pos 1) ≡ pos (suc k)
  next_attempt k small = add64-pos k 1 (omega arith) ∙ ap pos (omega arith)

  loop : ℕ → ℕ → W → Option (W × Result (Unit {0}))
  loop fuel k = attempts h key token ttl next fuel (pos k)

  attempts_step :
      (fuel k : ℕ) (w : W)
      → suc k < 2 ^ 63
      → loop (suc fuel) k w ≡ round h key token ttl next (pos (suc k)) (loop fuel (suc k)) w
  unfolding attempts loop
  attempts_step fuel k w small =
      ap (λ (a : ℤ). round h key token ttl next a (attempts h key token ttl next fuel a) w)
        (next_attempt k small)

  -- A round whose continuation gives a result gives one, unless it has to go on where it must stop.
  round_total :
      (k : ℕ) (again : W → Option (W × Result (Unit {0}))) (w : W)
      → ((next (pos k)).1 ≡ true → (w' : W) → (r : W × Result (Unit {0})) × (again w' ≡ some r))
      → (r : W × Result (Unit {0})) × (round h key token ttl next (pos k) again w ≡ some r)
  unfolding round
  round_total k again w rest =
      let w1 = (h.backend.acquire key token ttl w).0 in
      let w2 = (h.pause (next (pos k)).0 w1).0 in
      elim (Result-cases (h.backend.acquire key token ttl w).1) [
        | inl (e, p) ↦ ((w1, err (lock_error Op.acquire key e)), rw (p, round))
        | inr (true, p) ↦ ((w1, ok tt), rw (p, round))
        | inr (false, p) ↦ elim (Bool-cases (next (pos k)).1) [
          | inr q ↦ ((w1, err (lock_error Op.acquire key lock_not_acquired)), rw (p, q, round))
          | inl q ↦ elim (Option-cases (h.pause (next (pos k)).0 w1).1) [
            | inr (e, s) ↦ ((w2, err (lock_error Op.acquire key e)), rw (p, q, s, round))
            | inl s ↦ let r = rest q w2 in (r.0, rw (p, q, s, round) r.1)
          ]
        ]
      ]

  -- The loop ends: where the strategy refuses the retry `j + 1`, it needs `j + 1` rounds at most.
  pub attempts_total :
      (j fuel k : ℕ) (w : W)
      → (next (pos (suc j))).1 ≡ false
      → suc j < 2 ^ 63
      → k ≤ j
      → j < fuel + k
      → (r : W × Result (Unit {0})) × (attempts h key token ttl next fuel (pos k) w ≡ some r)
  unfolding loop
  attempts_total j zero k w stops small below enough = absurd (omega arith)
  attempts_total j (suc fuel) k w stops small below enough =
      rw (attempts_step fuel k w (omega arith)) (
        round_total (suc k) _ w
          λ more w'. attempts_total j fuel (suc k) w' stops small (goes more) (omega arith))
    where
      goes : (next (pos (suc k))).1 ≡ true → suc k ≤ j
      goes more = elim (Bool-cases (k == j)) [
        | inl y ↦ let same : k ≡ j = ground arith in cc
        | inr n ↦ ground arith
      ]

  -- The world after the refused attempts and the pauses of `r` retries, from the attempt `k` on.
  abbrev pub refused_world : ℕ → ℕ → W → W
  refused_world zero k w = (h.backend.acquire key token ttl w).0
  refused_world (suc r) k w =
      refused_world r (suc k)
        (h.pause (next (pos (suc k))).0 (h.backend.acquire key token ttl w).0).0

  -- Where the backend always refuses and no pause is cut short, the loop makes the first attempt
  -- and each retry that the strategy allows, waits as long as it says before each retry, and then
  -- returns `ErrLockNotAcquired`.
  pub attempts_refused :
      (n fuel k r : ℕ) (w : W)
      → Allows n next
      → suc n < 2 ^ 63
      → k + r ≡ n
      → r < fuel
      → ((w' : W) → (h.backend.acquire key token ttl w').1 ≡ ok false)
      → ((d : ℤ) (w' : W) → (h.pause d w').1 ≡ none)
      → attempts h key token ttl next fuel (pos k) w
        ≡ some (refused_world r k w, err (lock_error Op.acquire key lock_not_acquired))
  unfolding loop round
  attempts_refused n zero k r w a small e enough deny calm = absurd (omega arith)
  attempts_refused n (suc fuel) k zero w a small e enough deny calm =
      rw (attempts_step fuel k w (omega arith)) (rw (deny w, a.stops (suc k) (omega arith), round))
  attempts_refused n (suc fuel) k (suc r) w a small e enough deny calm =
      rw (attempts_step fuel k w (omega arith)) (
        rw (deny w, a.goes_on (suc k) (omega arith), calm _ _, round)
          (attempts_refused n fuel (suc k) r _ a small (omega arith) (omega arith) deny calm))

  round_acquired :
      (a : ℤ) (again : W → Option (W × Result (Unit {0}))) (w w' : W)
      → round h key token ttl next a again w ≡ some (w', ok tt)
      → (h.backend.acquire key token ttl w ≡ (w', ok true))
        ⊎ ((w2 : W) × (again w2 ≡ some (w', ok tt)))
  unfolding round
  round_acquired a again w w' e =
      let w1 = (h.backend.acquire key token ttl w).0 in
      let w2 = (h.pause (next a).0 w1).0 in
      elim (Result-cases (h.backend.acquire key token ttl w).1) [
        | inl (x, p) ↦ cc (rw (p, round) at e)
        | inr (true, p) ↦ inl (cc (rw (p, round) at e))
        | inr (false, p) ↦ elim (Bool-cases (next a).1) [
          | inr q ↦ cc (rw (p, q, round) at e)
          | inl q ↦ elim (Option-cases (h.pause (next a).0 w1).1) [
            | inr (x, s) ↦ cc (rw (p, q, s, round) at e)
            | inl s ↦ inr (w2, rw (p, q, s, round) at e)
          ]
        ]
      ]

  -- The loop reports the lock only after the backend accepted the token, and calls it no more.
  pub attempts_acquired :
      (fuel : ℕ) (a : ℤ) (w w' : W)
      → attempts h key token ttl next fuel a w ≡ some (w', ok tt)
      → (w0 : W) × (h.backend.acquire key token ttl w0 ≡ (w', ok true))
  unfolding attempts
  attempts_acquired zero a w w' e = cc
  attempts_acquired (suc fuel) a w w' e =
      elim (round_acquired (add64 a (pos 1)) (attempts h key token ttl next fuel (add64 a (pos 1)))
        w w' e) [ inl p ↦ (w, p) | inr (w2, p) ↦ attempts_acquired fuel (add64 a (pos 1)) w2 w' p ]
