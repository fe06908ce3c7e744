-- ===== src/Redislock/System/Invariant/Moves.antt =====
-- The fields of the invariant on what is queued and closed, through a step between views.
use go_infra.Prelude.{ℕ, Bool, true, false, ◌≡◌, arith}
use go_infra.Prelude.Text.{Text, text_eq_refl, text_eq_iff}
use go_infra.Redislock.Queue.Laws.{View}
use go_infra.Redislock.System.{Pc, closing, update}
use go_infra.Redislock.System.Steps.{
  Acts, a_takes, a_misses, a_queues, a_granted, a_cancelled, a_leaves, a_frees, a_hands_over,
  a_closes,
}
use go_infra.Redislock.System.Slots.{
  is_in, waiters_of, IsSimple, is_at, is_idle, is_in-append, IsSimple-append,
  spec_remove_waiter_lem, is_at_once,
}
use go_infra.Redislock.System.Invariant.{Inv}

module _ {v v' : Text → View} {closed : ℕ → Bool} {pc : ℕ → Pc} (inv : Inv v closed pc)
    (i : ℕ) where
  open inv use {
    queued, simple, unclosed, unclosing, begun_closed, begun_closing, unique, unowned, handed,
  }

  pub Acts-queued :
      {closed' : ℕ → Bool} {p p' : Pc}
      → Acts i v v' closed p closed' p'
      → pc i ≡ p
      → (k : Text) (j : ℕ) → is_in j (waiters_of (v' k)) ≡ true
      → is_at k (update pc i p' j) ≡ true
  Acts-queued (a_takes k f e) h n j w = ground (arith, e n, queued n j, text_eq_iff k n)
  Acts-queued (a_misses e) h n j w = ground (arith, e n, queued n j)
  Acts-queued (a_queues k ws b e) h n j w =
      ground (arith, e n, queued n j, text_eq_iff k n, is_in-append j i ws)
  Acts-queued (a_granted {k} g e) h n j w = ground (arith, e n, queued n j, unclosed n i)
  Acts-queued (a_cancelled e) h n j w = ground (arith, e n, queued n j)
  Acts-queued (a_leaves {k} e) h n j w =
      ground (arith, e n, queued n j, text_eq_iff k n, spec_remove_waiter_lem j i (v k) (simple k))
  Acts-queued (a_frees {k} f e) h n j w = ground (arith, e n, queued n j, text_eq_iff k n)
  Acts-queued (a_hands_over {k} {c} ws b e) h n j w =
      ground (arith, e n, queued n j, text_eq_iff k n)
  Acts-queued (a_closes e) h n j w = ground (arith, e n, queued n j)

  pub Acts-IsSimple :
      {closed' : ℕ → Bool} {p p' : Pc}
      → Acts i v v' closed p closed' p'
      → pc i ≡ p
      → (n : Text) → IsSimple (waiters_of (v' n))
  Acts-IsSimple (a_takes k f e) h n = ground (arith, e n, simple n)
  Acts-IsSimple (a_queues k ws b e) h n =
      ground (arith, e n, simple n, simple k, queued k i, IsSimple-append i ws)
  Acts-IsSimple (a_leaves {k} e) h n =
      ground (arith, e n, simple n, spec_remove_waiter_lem i i (v k) (simple k))
  Acts-IsSimple (a_frees {k} f e) h n = ground (arith, e n, simple n)
  Acts-IsSimple (a_hands_over {k} {c} ws b e) h n = ground (arith, e n, simple n, simple k)
  Acts-IsSimple (a_misses e) h n = rw (e n) (simple n)
  Acts-IsSimple (a_granted g e) h n = rw (e n) (simple n)
  Acts-IsSimple (a_cancelled e) h n = rw (e n) (simple n)
  Acts-IsSimple (a_closes e) h n = rw (e n) (simple n)

  pub Acts-unclosed :
      {closed' : ℕ → Bool} {p p' : Pc}
      → Acts i v v' closed p closed' p'
      → pc i ≡ p
      → (n : Text) (j : ℕ) → closed' j ≡ true
      → is_in j (waiters_of (v' n)) ≡ false
  Acts-unclosed (a_takes k f e) h n j c = ground (arith, e n, unclosed n j)
  Acts-unclosed (a_misses e) h n j c = ground (arith, e n, unclosed n j)
  Acts-unclosed (a_queues k ws b e) h n j c =
      ground (arith, e n, unclosed n j, unclosed k j, begun_closed j, is_in-append j i ws)
  Acts-unclosed (a_granted g e) h n j c = ground (arith, e n, unclosed n j)
  Acts-unclosed (a_cancelled e) h n j c = ground (arith, e n, unclosed n j)
  Acts-unclosed (a_leaves {k} e) h n j c =
      ground (arith, e n, unclosed n j, unclosed k j, spec_remove_waiter_lem j i (v k) (simple k))
  Acts-unclosed (a_frees {k} f e) h n j c = ground (arith, e n, unclosed n j)
  Acts-unclosed (a_hands_over {k} ws b e) h n j g = ground (arith, e n, unclosed n j, unclosed k j)
  Acts-unclosed (a_closes {c} e) h n j g = ground (arith, e n, unclosed n j, unclosing n c i)

  pub Acts-unclosing :
      {closed' : ℕ → Bool} {p p' : Pc}
      → Acts i v v' closed p closed' p'
      → pc i ≡ p
      → (n : Text) (x j : ℕ) → update pc i p' j ≡ closing x
      → is_in x (waiters_of (v' n)) ≡ false
  Acts-unclosing (a_takes k f e) h n x j g = ground (arith, e n, unclosing n x j)
  Acts-unclosing (a_misses e) h n x j g = ground (arith, e n, unclosing n x j)
  Acts-unclosing (a_queues k ws b e) h n x j g =
      ground (arith, e n, unclosing n x j, unclosing k x j, begun_closing x j, is_in-append x i ws)
  Acts-unclosing (a_granted g' e) h n x j g = ground (arith, e n, unclosing n x j)
  Acts-unclosing (a_cancelled e) h n x j g = ground (arith, e n, unclosing n x j)
  Acts-unclosing (a_leaves {k} e) h n x j g =
      ground
        (arith, e n, unclosing n x j, unclosing k x j, spec_remove_waiter_lem x i (v k) (simple k))
  Acts-unclosing (a_frees {k} f e) h n x j g = ground (arith, e n, unclosing n x j)
  Acts-unclosing (a_hands_over {k} {c} ws b e) h n x j g = ground (
    arith,
    e n,
    unclosing n x j,
    unclosing k x j,
    simple k,
    queued k c,
    queued n c,
    is_at_once k n (pc c),
    text_eq_refl k,
  )
  Acts-unclosing (a_closes e) h n x j g = ground (arith, e n, unclosing n x j)

  pub Acts-begun_closed :
      {closed' : ℕ → Bool} {p p' : Pc}
      → Acts i v v' closed p closed' p'
      → pc i ≡ p
      → (j : ℕ) → closed' j ≡ true
      → is_idle (update pc i p' j) ≡ false
  Acts-begun_closed (a_closes {c} e) h j g = ground (arith, begun_closed j, begun_closing c i)
  Acts-begun_closed mv h j g = ground (arith, begun_closed j)

  pub Acts-begun_closing :
      {closed' : ℕ → Bool} {p p' : Pc}
      → Acts i v v' closed p closed' p'
      → pc i ≡ p
      → (x j : ℕ) → update pc i p' j ≡ closing x
      → is_idle (update pc i p' x) ≡ false
  Acts-begun_closing (a_hands_over {k} {c} ws b e) h x j g =
      ground (arith, begun_closing x j, queued k c)
  Acts-begun_closing mv h x j g = ground (arith, begun_closing x j)
