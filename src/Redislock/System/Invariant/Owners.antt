-- ===== src/Redislock/System/Invariant/Owners.antt =====
-- The fields of the invariant on who owns a key, through a step between views, and all of them.
use go_infra.Prelude.{ℕ, ◌==◌, Bool, true, false, ◌≡◌, ◌⊎◌, refl, arith, inl, inr, Bool-cases}
use go_infra.Prelude.Text.{Text, text_eq_refl, text_eq_iff}
use go_infra.Redislock.Queue.Laws.{View}
use go_infra.Redislock.System.{Pc, selecting, cancelling, holding, closing, done, update}
use go_infra.Redislock.System.Steps.{
  Acts, a_takes, a_misses, a_queues, a_granted, a_cancelled, a_leaves, a_frees, a_hands_over,
  a_closes,
}
use go_infra.Redislock.System.Slots.{
  is_in, waiters_of, is_free, owns, is_in-append, spec_remove_waiter_lem,
}
use go_infra.Redislock.System.Invariant.{Inv}
use go_infra.Redislock.System.Invariant.Moves.{
  Acts-queued, Acts-IsSimple, Acts-unclosed, Acts-unclosing, Acts-begun_closed, Acts-begun_closing,
}

-- A step of a call that is not in `release` leaves the channels that others are about to close.
still_closing :
    (closed : ℕ → Bool) (pc : ℕ → Pc) (i x : ℕ) (p' : Pc)
    → ((y : ℕ) → pc i ≡ closing y → ⊥)
    → (closed x ≡ true) ⊎ ((j : ℕ) × (pc j ≡ closing x))
    → (closed x ≡ true) ⊎ ((j : ℕ) × (update pc i p' j ≡ closing x))
still_closing closed pc i x p' h (inl c) = inl c
still_closing closed pc i x p' h (inr (j, c)) = elim (Bool-cases (i == j)) [
  | inl e ↦ absurd (h x (ground arith))
  | inr e ↦ inr (j, rw e c)
]

module _ {v v' : Text → View} {closed : ℕ → Bool} {pc : ℕ → Pc} (inv : Inv v closed pc)
    (i : ℕ) where
  open inv use {
    queued, simple, unclosed, unclosing, begun_closed, begun_closing, unique, unowned, handed,
  }

  -- What the owner of `n` after the step was before it: an owner, or call `i` with a key that was
  -- free, or the call that `i` hands its key to.
  Acts-unique :
      {closed' : ℕ → Bool} {p p' : Pc}
      → Acts i v v' closed p closed' p'
      → pc i ≡ p
      → (n : Text) (a b : ℕ) → owns n (waiters_of (v' n)) a (update pc i p' a) ≡ true
      → owns n (waiters_of (v' n)) b (update pc i p' b) ≡ true
      → a ≡ b
  Acts-unique (a_takes k f e) h n a b oa ob =
      ground (arith, e n, unique n a b, unowned n a, unowned n b, text_eq_iff k n)
  Acts-unique (a_misses e) h n a b oa ob = ground (arith, e n, unique n a b)
  Acts-unique (a_queues k ws w e) h n a b oa ob =
      ground (arith, e n, unique n a b, text_eq_iff k n, is_in-append a i ws, is_in-append b i ws)
  Acts-unique (a_granted {k} g e) h n a b oa ob = ground (arith, e n, unique n a b, unclosed n i)
  Acts-unique (a_cancelled e) h n a b oa ob = ground (arith, e n, unique n a b)
  Acts-unique (a_leaves {k} e) h n a b oa ob = ground (
    arith,
    e n,
    unique n a b,
    text_eq_iff k n,
    spec_remove_waiter_lem a i (v k) (simple k),
    spec_remove_waiter_lem b i (v k) (simple k),
  )
  Acts-unique (a_frees {k} f e) h n a b oa ob = ground (arith, e n, unique n a b, text_eq_iff k n)
  Acts-unique (a_hands_over {k} {c} ws w e) h n a b oa ob =
      ground (arith, e n, unique n a b, unique n a i, unique n b i, text_eq_iff k n)
  Acts-unique (a_closes e) h n a b oa ob = ground (arith, e n, unique n a b)

  Acts-unowned :
      {closed' : ℕ → Bool} {p p' : Pc}
      → Acts i v v' closed p closed' p'
      → pc i ≡ p
      → (n : Text) (a : ℕ) → is_free (v' n) ≡ true
      → owns n (waiters_of (v' n)) a (update pc i p' a) ≡ false
  Acts-unowned (a_takes k f e) h n a g = ground (arith, e n, unowned n a, text_eq_iff k n)
  Acts-unowned (a_misses e) h n a g = ground (arith, e n, unowned n a)
  Acts-unowned (a_queues k ws w e) h n a g = ground (arith, e n, unowned n a, text_eq_iff k n)
  Acts-unowned (a_granted {k} c e) h n a g = ground (arith, e n, unowned n a, unclosed n i)
  Acts-unowned (a_cancelled e) h n a g = ground (arith, e n, unowned n a)
  Acts-unowned (a_leaves {k} e) h n a g =
      ground (arith, e n, unowned n a, text_eq_iff k n, spec_remove_waiter_lem a i (v k) (simple k))
  Acts-unowned (a_frees {k} f e) h n a g =
      ground (arith, e n, unowned n a, unique n a i, text_eq_iff k n)
  Acts-unowned (a_hands_over {k} ws w e) h n a g = ground (arith, e n, unowned n a, text_eq_iff k n)
  Acts-unowned (a_closes e) h n a g = ground (arith, e n, unowned n a)

  Acts-handed :
      {closed' : ℕ → Bool} {p p' : Pc}
      → Acts i v v' closed p closed' p'
      → pc i ≡ p
      → (n : Text) (x : ℕ) → update pc i p' x ≡ selecting n
      → is_in x (waiters_of (v' n)) ≡ false
      → (closed' x ≡ true) ⊎ ((j : ℕ) × (update pc i p' j ≡ closing x))
  Acts-handed (a_takes k f e) h n x s w =
      still_closing closed pc i x (holding k) (λ y c. cc)
        (handed n x (ground arith) (ground (arith, e n, text_eq_iff k n)))
  Acts-handed (a_misses e) h n x s w =
      still_closing closed pc i x done (λ y c. cc) (handed n x (ground arith) (ground (arith, e n)))
  Acts-handed (a_queues k ws b e) h n x s w =
      still_closing closed pc i x (selecting k) (λ y c. cc)
        (handed n x (ground (arith, e n, text_eq_refl n, is_in-append x i ws))
          (ground (arith, e n, text_eq_iff k n, is_in-append x i ws)))
  Acts-handed (a_granted {k} g e) h n x s w =
      still_closing closed pc i x (holding k) (λ y c. cc)
        (handed n x (ground arith) (ground (arith, e n)))
  Acts-handed (a_cancelled {k} e) h n x s w =
      still_closing closed pc i x (cancelling k) (λ y c. cc)
        (handed n x (ground arith) (ground (arith, e n)))
  Acts-handed (a_leaves {k} e) h n x s w =
      still_closing closed pc i x done (λ y c. cc)
        (handed n x (ground arith)
          (ground (arith, e n, text_eq_iff k n, spec_remove_waiter_lem x i (v k) (simple k))))
  Acts-handed (a_frees {k} f e) h n x s w =
      still_closing closed pc i x done (λ y c. cc)
        (handed n x (ground arith) (ground (arith, e n, text_eq_iff k n)))
  Acts-handed (a_hands_over {k} {c} ws b e) h n x s w = elim (Bool-cases (c == x)) [
    | inl y ↦ inr (i, ground arith)
    | inr y ↦
        still_closing closed pc i x (closing c) (λ y c. cc)
          (handed n x (ground arith) (ground (arith, e n, text_eq_iff k n)))
  ]
  Acts-handed (a_closes {c} e) h n x s w = elim (Bool-cases (c == x)) [
    | inl y ↦ inl (ground arith)
    | inr y ↦ elim (handed n x (ground arith) (ground (arith, e n))) [
      | inl g ↦ inl (ground arith)
      | inr (j, g) ↦ inr (j, ground arith)
    ]
  ]

  -- Every step keeps the invariant.
  pub Acts-Inv :
      {closed' : ℕ → Bool} {p' : Pc}
      → Acts i v v' closed (pc i) closed' p'
      → Inv v' closed' (update pc i p')
  Acts-Inv a = record {
    queued = Acts-queued inv i a refl;
    simple = Acts-IsSimple inv i a refl;
    unclosed = Acts-unclosed inv i a refl;
    unclosing = Acts-unclosing inv i a refl;
    begun_closed = Acts-begun_closed inv i a refl;
    begun_closing = Acts-begun_closing inv i a refl;
    unique = Acts-unique a refl;
    unowned = Acts-unowned a refl;
    handed = Acts-handed a refl;
  }
