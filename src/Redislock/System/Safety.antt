-- ===== src/Redislock/System/Safety.antt =====
-- What the local queue of redislock/manager.go promises its callers, in every interleaving.
use go_infra.Prelude.{ℕ, ◌==◌, Bool, true, false, ◌≡◌, ◌⊎◌, refl, arith, inl, inr, Bool-cases}
use go_infra.Prelude.Text.{Text, text_eq, text_eq_refl, text_eq_iff}
use go_infra.Prelude.Dict.{lookup}
use go_infra.Redislock.Queue.{new_local_key_queue}
use go_infra.Redislock.Queue.Laws.{View, view, new-IsTidy}
use go_infra.Redislock.System.{
  Pc, selecting, cancelling, holding, closing, done, System, update, Step, pick, init, Reach, here,
  later,
}
use go_infra.Redislock.System.Steps.{
  views, Acts, a_takes, a_misses, a_queues, a_granted, a_cancelled, a_leaves, a_frees, a_hands_over,
  a_closes, Move-Acts,
}
use go_infra.Redislock.System.Slots.{
  is_in, waiters_of, is_free, owns, is_in-append, spec_remove_waiter_lem,
}
use go_infra.Redislock.System.Invariant.{Inv, SystemInv}
use go_infra.Redislock.System.Invariant.Owners.{Acts-Inv}

pub init-Inv : SystemInv init
unfolding new_local_key_queue view lookup
init-Inv = (
  new-IsTidy,
  record {
    queued = λ k i h. cc;
    simple = λ k. tt {0};
    unclosed = λ k i h. cc;
    unclosing = λ k i j h. cc;
    begun_closed = λ i h. cc;
    begun_closing = λ i j h. cc;
    unique = λ k i j h. cc;
    unowned = λ k i h. refl;
    handed = λ k i h. cc;
  },
)

pub Step-Inv : {s t : System} → Step s t → SystemInv s → SystemInv t
Step-Inv {s} (pick i mv) (tidy, inv) =
    let (acts, tidy') = Move-Acts i s.queue tidy mv in (tidy', Acts-Inv inv i acts)

pub Reach-Inv : {s t : System} → SystemInv s → Reach s t → SystemInv t
Reach-Inv h here = h
Reach-Inv h (later r st) = Step-Inv st (Reach-Inv h r)

-- Two calls never hold the same key, however the steps of any number of calls are interleaved.
pub mutual_exclusion :
    {s : System}
    → Reach init s
    → (k : Text) (i j : ℕ) → s.pc i ≡ holding k
    → s.pc j ≡ holding k
    → i ≡ j
mutual_exclusion {s} r k i j hi hj =
    (Reach-Inv init-Inv r).1.unique k i j (ground (arith, text_eq_refl k))
      (ground (arith, text_eq_refl k))

-- A key is free, or some call owns it: it holds the key, or was handed it.
abbrev pub IsServed : Text → (Text → View) → (ℕ → Pc) → Type 0
IsServed k v pc = (is_free (v k) ≡ true) ⊎ ((i : ℕ) × (owns k (waiters_of (v k)) i (pc i) ≡ true))

-- Call `i` gives up key `k` after it was handed it: it is no longer queued when it leaves.
abbrev pub Abandons : Text → (Text → View) → (ℕ → Pc) → (ℕ → Pc) → Type 0
Abandons k v pc pc' =
    (i : ℕ) × (pc i ≡ cancelling k) × (is_in i (waiters_of (v k)) ≡ false) × (pc' i ≡ done)

module _ {v v' : Text → View} {closed : ℕ → Bool} {pc : ℕ → Pc} (inv : Inv v closed pc)
    (i : ℕ) where
  open inv use {queued, simple, unowned}

  -- The owner of `n` stays its owner where the step is not its own, and keeps it queued nowhere.
  Acts-IsServed :
      {closed' : ℕ → Bool} {p p' : Pc}
      → Acts i v v' closed p closed' p'
      → pc i ≡ p
      → (n : Text) → IsServed n v pc
      → IsServed n v' (update pc i p') ⊎ Abandons n v pc (update pc i p')
  Acts-IsServed (a_takes k f e) h n (inl g) = elim (Bool-cases (text_eq k n)) [
    | inl y ↦ inl (inr (i, ground (arith, e n)))
    | inr y ↦ inl (inl (ground (arith, e n)))
  ]
  Acts-IsServed (a_takes k f e) h n (inr (o, g)) =
      inl (inr (o, ground (arith, e n, unowned n o, text_eq_iff k n)))
  Acts-IsServed (a_misses e) h n (inl g) = inl (inl (rw (e n) g))
  Acts-IsServed (a_misses e) h n (inr (o, g)) = inl (inr (o, ground (arith, e n)))
  Acts-IsServed (a_queues k ws b e) h n (inl g) = inl (inl (ground (arith, e n, text_eq_iff k n)))
  Acts-IsServed (a_queues k ws b e) h n (inr (o, g)) =
      inl (inr (o, ground (arith, e n, text_eq_iff k n, is_in-append o i ws)))
  Acts-IsServed (a_granted c e) h n (inl g) = inl (inl (rw (e n) g))
  Acts-IsServed (a_granted c e) h n (inr (o, g)) = inl (inr (o, ground (arith, e n)))
  Acts-IsServed (a_cancelled e) h n (inl g) = inl (inl (rw (e n) g))
  Acts-IsServed (a_cancelled e) h n (inr (o, g)) = inl (inr (o, ground (arith, e n)))
  Acts-IsServed (a_leaves {k} e) h n (inl g) =
      inl (inl (ground (arith, e n, text_eq_iff k n, spec_remove_waiter_lem i i (v k) (simple k))))
  Acts-IsServed (a_leaves {k} e) h n (inr (o, g)) = elim (Bool-cases (i == o)) [
    | inl y ↦ inr (i, ground (arith, text_eq_iff k n), ground arith, ground arith)
    | inr y ↦
        inl (
          inr
            (o, ground (arith, e n, text_eq_iff k n, spec_remove_waiter_lem o i (v k) (simple k))))
  ]
  Acts-IsServed (a_frees {k} f e) h n (inl g) = inl (inl (ground (arith, e n)))
  Acts-IsServed (a_frees {k} f e) h n (inr (o, g)) = elim (Bool-cases (text_eq k n)) [
    | inl y ↦ inl (inl (ground (arith, e n)))
    | inr y ↦ inl (inr (o, ground (arith, e n)))
  ]
  Acts-IsServed (a_hands_over {k} {c} ws b e) h n (inl g) =
      inl (inl (ground (arith, e n, text_eq_iff k n)))
  Acts-IsServed (a_hands_over {k} {c} ws b e) h n (inr (o, g)) = elim (Bool-cases (text_eq k n)) [
    | inl y ↦ inl (inr (c, ground (arith, e n, text_eq_iff k n, queued k c, simple k)))
    | inr y ↦ inl (inr (o, ground (arith, e n)))
  ]
  Acts-IsServed (a_closes e) h n (inl g) = inl (inl (rw (e n) g))
  Acts-IsServed (a_closes e) h n (inr (o, g)) = inl (inr (o, ground (arith, e n)))

-- A key that is taken keeps an owner through every step of a state that is reached, but for one:
-- the step by which a call whose context is done leaves the queue after the key was handed to it.
pub Step-IsServed :
    {s t : System}
    → Reach init s
    → Step s t
    → (k : Text) → IsServed k (views s.queue) s.pc
    → IsServed k (views t.queue) t.pc ⊎ Abandons k (views s.queue) s.pc t.pc
Step-IsServed {s} r (pick i mv) k g =
    let (tidy, inv) = Reach-Inv init-Inv r in
    Acts-IsServed inv i (Move-Acts i s.queue tidy mv).0 refl k g

-- What the owner of a key waits for: its caller to release it, its channel, which is closed, the
-- `close` of its channel, which a call is about to make, or its own cancellation.
pub data CanGoOn (k : Text) (s : System) (j : ℕ) : Type 0 where
  holds : s.pc j ≡ holding k → CanGoOn k s j
  wakes : s.pc j ≡ selecting k → s.closed j ≡ true → CanGoOn k s j
  woken_by : (m : ℕ) → s.pc j ≡ selecting k → s.pc m ≡ closing j → CanGoOn k s j
  leaves : s.pc j ≡ cancelling k → CanGoOn k s j

owner-CanGoOn :
    (k : Text) (s : System) (j : ℕ) (p : Pc)
    → SystemInv s
    → s.pc j ≡ p
    → owns k (waiters_of (view k s.queue)) j p ≡ true
    → CanGoOn k s j
owner-CanGoOn k s j (holding n) inv e o = holds (ground (arith, text_eq_iff n k))
owner-CanGoOn k s j (cancelling n) inv e o = leaves (ground (arith, text_eq_iff n k))
owner-CanGoOn k s j (selecting n) inv e o =
    let at_k : s.pc j ≡ selecting k = ground (arith, text_eq_iff n k) in
    elim (inv.1.handed k j at_k (ground arith)) [
      | inl c ↦ wakes at_k c
      | inr (m, c) ↦ woken_by m at_k c
    ]
owner-CanGoOn k s j _ inv e o = cc

-- No deadlock: over any interleaving, where a call waits for a key that is free or has an owner,
-- some call owns the key, which it holds or was handed, and this call can go on.
pub no_deadlock :
    {s : System}
    → Reach init s
    → (k : Text) (i : ℕ) → s.pc i ≡ selecting k
    → IsServed k (views s.queue) s.pc
    → (j : ℕ) × (owns k (waiters_of (views s.queue k)) j (s.pc j) ≡ true) × CanGoOn k s j
no_deadlock {s} r k i e (inr (j, o)) =
    (j, o, owner-CanGoOn k s j (s.pc j) (Reach-Inv init-Inv r) refl o)
no_deadlock {s} r k i e (inl g) =
    let inv = Reach-Inv init-Inv r in absurd (ground (arith, text_eq_refl k, inv.1.unowned k i g))
