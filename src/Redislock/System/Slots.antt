-- ===== src/Redislock/System/Slots.antt =====
-- Who owns a key in the queue: the call that holds it, or the one that it was handed to.
use go_infra.Prelude.{
  ℕ, ◌==◌, Bool, true, false, not, ◌&&◌, ◌||◌, List, [], ◌∷◌, ◌++◌, ◌≡◌, refl, arith,
}
use go_infra.Prelude.Text.{Text, text_eq, text_eq_iff}
use go_infra.Redislock.Queue.{remove_first}
use go_infra.Redislock.Queue.Laws.{View, free, busy, spec_remove_waiter}
use go_infra.Redislock.System.{Pc, idle, selecting, cancelling, holding}

-- Whether a channel is among those that wait.
abbrev pub is_in : ℕ → List ℕ → Bool
is_in c [] = false
is_in c (x ∷ xs) = x == c || is_in c xs

abbrev pub waiters_of : View → List ℕ
waiters_of free = []
waiters_of (busy ws) = ws

abbrev pub is_free : View → Bool
is_free free = true
is_free (busy ws) = false

-- No channel waits twice.
abbrev pub IsSimple : List ℕ → Type 0
IsSimple [] = Unit
IsSimple (x ∷ xs) = (is_in x xs ≡ false) × IsSimple xs

-- Call `i` at `p` owns key `k`, whose waiters are `ws`.
abbrev pub owns : Text → List ℕ → ℕ → Pc → Bool
owns k ws i (holding j) = text_eq j k
owns k ws i (selecting j) = text_eq j k && not (is_in i ws)
owns k ws i (cancelling j) = text_eq j k && not (is_in i ws)
owns k ws i _ = false

-- Call `i` at `p` may be queued at `k`.
abbrev pub is_at : Text → Pc → Bool
is_at k (selecting j) = text_eq j k
is_at k (cancelling j) = text_eq j k
is_at k _ = false

abbrev pub is_idle : Pc → Bool
is_idle idle = true
is_idle _ = false

pub is_in-append : (c x : ℕ) (xs : List ℕ) → is_in c (xs ++ x ∷ []) ≡ (is_in c xs || x == c)
is_in-append c x [] = ground arith
is_in-append c x (y ∷ ys) = ground (arith, is_in-append c x ys)

pub IsSimple-append :
    (x : ℕ) (xs : List ℕ) → IsSimple xs → is_in x xs ≡ false → IsSimple (xs ++ x ∷ [])
IsSimple-append x [] s h = (refl, tt)
IsSimple-append x (y ∷ ys) s h =
    (ground (arith, is_in-append y x ys), IsSimple-append x ys s.1 (ground arith))

pub is_in-remove_first :
    (c x : ℕ) (xs : List ℕ)
    → IsSimple xs
    → is_in c (remove_first x xs) ≡ (not (x == c) && is_in c xs)
unfolding remove_first
is_in-remove_first c x [] s = ground arith
is_in-remove_first c x (y ∷ ys) s = ground (arith, is_in-remove_first c x ys)

pub IsSimple-remove_first : (x : ℕ) (xs : List ℕ) → IsSimple xs → IsSimple (remove_first x xs)
unfolding remove_first
IsSimple-remove_first x [] s = tt
IsSimple-remove_first x (y ∷ ys) s =
    ground (arith, IsSimple-remove_first x ys, is_in-remove_first y x ys)

-- `removeWaiter` at the view of its key.
pub spec_remove_waiter_lem :
    (c x : ℕ) (y : View)
    → IsSimple (waiters_of y)
    → (is_in c (waiters_of (spec_remove_waiter x y)) ≡ (not (x == c) && is_in c (waiters_of y)))
      × (is_free (spec_remove_waiter x y) ≡ is_free y)
      × IsSimple (waiters_of (spec_remove_waiter x y))
spec_remove_waiter_lem c x free s = (ground arith, refl, tt)
spec_remove_waiter_lem c x (busy ws) s =
    (is_in-remove_first c x ws s, refl, IsSimple-remove_first x ws s)

pub is_at_once : (k n : Text) (p : Pc) → is_at k p ≡ true → is_at n p ≡ true → k ≡ n
is_at_once k n (selecting j) a b = ground (arith, text_eq_iff j k, text_eq_iff j n)
is_at_once k n (cancelling j) a b = ground (arith, text_eq_iff j k, text_eq_iff j n)
is_at_once k n _ a b = cc
