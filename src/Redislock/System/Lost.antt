-- ===== src/Redislock/System/Lost.antt =====
-- A key of the local queue of redislock/manager.go that no call owns any more.
use go_infra.Prelude.{ℕ, Bool, false, ◌≡◌, refl, arith}
use go_infra.Prelude.Text.{Text, text_eq_iff}
use go_infra.Redislock.Queue.Laws.{View, view}
use go_infra.Redislock.System.{Pc, System, update, pick, init, Reach, here, later}
use go_infra.Redislock.System.Steps.{
  Acts, a_takes, a_misses, a_queues, a_granted, a_cancelled, a_leaves, a_frees, a_hands_over,
  a_closes, Move-Acts,
}
use go_infra.Redislock.System.Slots.{
  waiters_of, is_free, owns, is_in-append, spec_remove_waiter_lem,
}
use go_infra.Redislock.System.Invariant.{Inv}
use go_infra.Redislock.System.Safety.{init-Inv, Reach-Inv}

-- A taken key that no call owns.
abbrev pub IsLost : Text → System → Type 0
IsLost k s =
    (is_free (view k s.queue) ≡ false)
    × ((i : ℕ) → owns k (waiters_of (view k s.queue)) i (s.pc i) ≡ false)

module _ {v v' : Text → View} {closed : ℕ → Bool} {pc : ℕ → Pc} (inv : Inv v closed pc)
    (i : ℕ) where
  open inv use {queued, simple, unclosed}

  Acts-lost :
      {closed' : ℕ → Bool} {p p' : Pc}
      → Acts i v v' closed p closed' p'
      → pc i ≡ p
      → (n : Text) → is_free (v n) ≡ false
      → ((a : ℕ) → owns n (waiters_of (v n)) a (pc a) ≡ false)
      → (is_free (v' n) ≡ false)
        × ((a : ℕ) → owns n (waiters_of (v' n)) a (update pc i p' a) ≡ false)
  Acts-lost (a_takes k f e) h n b o =
      (ground (arith, e n, text_eq_iff k n), λ a. ground (arith, e n, o a, text_eq_iff k n))
  Acts-lost (a_misses e) h n b o = (rw (e n) b, λ a. ground (arith, e n, o a))
  Acts-lost (a_queues k ws w e) h n b o = (
    ground (arith, e n, text_eq_iff k n),
    λ a. ground (arith, e n, o a, text_eq_iff k n, is_in-append a i ws),
  )
  Acts-lost (a_granted {k} c e) h n b o =
      (rw (e n) b, λ a. ground (arith, e n, o a, o i, unclosed n i))
  Acts-lost (a_cancelled e) h n b o = (rw (e n) b, λ a. ground (arith, e n, o a))
  Acts-lost (a_leaves {k} e) h n b o = (
    ground (arith, e n, text_eq_iff k n, spec_remove_waiter_lem i i (v k) (simple k)),
    λ a. ground (arith, e n, o a, text_eq_iff k n, spec_remove_waiter_lem a i (v k) (simple k)),
  )
  Acts-lost (a_frees {k} f e) h n b o =
      (ground (arith, e n, o i), λ a. ground (arith, e n, o a, o i))
  Acts-lost (a_hands_over {k} {c} ws w e) h n b o =
      (ground (arith, e n, o i), λ a. ground (arith, e n, o a, o i))
  Acts-lost (a_closes e) h n b o = (rw (e n) b, λ a. ground (arith, e n, o a))

-- In a state that is reached, a key that is taken and that no call owns is never given to anybody
-- again: it stays taken and without an owner, whatever steps follow.
pub abandoned_forever :
    {s t : System} → Reach init s → (k : Text) → IsLost k s → Reach s t → IsLost k t
abandoned_forever r k lost here = lost
abandoned_forever r k lost (later {t} r' (pick i mv)) =
    let before = abandoned_forever r k lost r' in
    let (tidy, inv) = Reach-Inv (Reach-Inv init-Inv r) r' in
    Acts-lost inv i (Move-Acts i t.queue tidy mv).0 refl k before.0 before.1
