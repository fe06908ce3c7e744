-- ===== src/Redislock/Overlap/Once.antt =====
-- A lock of redislock/manager.go ends once, however the calls of it overlap.
use go_infra.Prelude.{ℕ, ◌≤◌, true, false, ◌≡◌, refl, arith, if◌then◌else◌, inl, inr, Bool-cases}
use go_infra.Redislock.Lock.{Lock}
use go_infra.Redislock.Overlap.{OnceState, fresh, running, finished, Calls, begin, Interleaved}
use go_infra.Redislock.Overlap.Invariant.{is_finished, is_fresh, is_ending}
use go_infra.Redislock.Overlap.Invariant.Ending.{IsBegun, Interleaved-Inv}

fresh-finished : (o : OnceState) → is_finished o ≡ true → is_fresh o ≡ false
fresh-finished fresh h = cc
fresh-finished (running j) h = refl
fresh-finished finished h = refl

-- However the calls of a live lock overlap, no channel is closed twice, and the local key is given
-- back at most once, and not before the backend has answered that the key in it is released or is
-- not held by the lock.
pub overlap_once :
    {l : Lock} {s : Calls}
    → IsBegun l
    → Interleaved (begin l) s
    → (s.core.crashed ≡ false) × (s.core.given ≤ (if s.core.let_go then 1 else 0))
overlap_once {l} {s} h r =
    let inv = Interleaved-Inv h r in
    (inv.sound, ground (arith, inv.once_given, inv.gone_once, fresh-finished s.core.once))

-- However the calls of a live lock overlap, once no call stands between an answer of the backend
-- that ends the lock and its own return, the local key was given back exactly once if the backend
-- has answered that the key in it is released or is not held, and else not at all.
pub settled_once :
    {l : Lock} {s : Calls}
    → IsBegun l
    → Interleaved (begin l) s
    → ((j : ℕ) → is_ending (s.place j) ≡ false)
    → s.core.given ≡ (if s.core.let_go then 1 else 0)
settled_once {l} {s} h r quiet =
    let inv = Interleaved-Inv h r in
    elim (Bool-cases s.core.let_go) [
      | inr stays ↦ ground (arith, inv.once_given, inv.gone_once, fresh-finished s.core.once)
      | inl went ↦ elim (inv.pending went) [
        | inl f ↦ ground (arith, inv.once_given)
        | inr (j, e) ↦ cc (quiet j)
      ]
    ]
