-- ===== src/Redislock/Overlap/Invariant.antt =====
-- The one call in `finalizeOnce`, in every state that overlapping calls of a lock reach.
pub mod Inside
pub mod Ending
use go_infra.Prelude.{
  ℕ, zero, suc, ◌==◌, Bool, true, false, not, ◌&&◌, Option, none, some, ◌≡◌, ◌⊎◌, refl, arith, inl,
  inr, Bool-cases, if◌then◌else◌,
}
use go_infra.Redislock.Errors.{Error, is_lock_not_held}
use go_infra.Redislock.Lock.{Lock, close_watchdog}
use go_infra.Redislock.Overlap.{
  OnceState, fresh, running, finished, Method, Place, waits, asks, ends, marks, stops, gives,
  returns, is_end, after_answer, Core, give, Section, refused, passes, answered, enters, skips,
  marked, stopped, panics, gave, Calls, moved, Turn, turn, begin, Interleaved, here, later,
}

abbrev pub is_inside : Place → Bool
is_inside (marks r) = true
is_inside (stops r) = true
is_inside (gives r) = true
is_inside _ = false

-- A call that has an end of the lock to report, or reports it.
abbrev pub is_ending : Place → Bool
is_ending (ends r) = true
is_ending (marks r) = true
is_ending (stops r) = true
is_ending (gives r) = true
is_ending _ = false

abbrev pub is_finished : OnceState → Bool
is_finished finished = true
is_finished _ = false

abbrev pub is_fresh : OnceState → Bool
is_fresh fresh = true
is_fresh _ = false

-- The flags of the lock at a place inside `finalizeOnce`.
abbrev pub agrees : Place → Lock → Bool
agrees (marks r) l = not l.released && not l.watchdog_closed
agrees (stops r) l = l.released && not l.watchdog_closed
agrees (gives r) l = l.released && l.watchdog_closed
agrees _ l = true

pub record Inv (c : Core) (place : ℕ → Place) : Type 0 where
  pub owner : (j : ℕ) → is_inside (place j) ≡ true → c.once ≡ running j
  pub inside : (j : ℕ) → c.once ≡ running j → is_inside (place j) ≡ true
  pub flags : (j : ℕ) → agrees (place j) c.lock ≡ true
  pub untouched :
      is_fresh c.once ≡ true → (c.lock.released ≡ false) × (c.lock.watchdog_closed ≡ false)
  pub once_local : c.lock.local_done ≡ is_finished c.once
  pub once_given : c.given ≡ (if is_finished c.once then 1 else 0)
  pub sound : c.crashed ≡ false
  pub gone : (j : ℕ) → is_ending (place j) ≡ true → c.let_go ≡ true
  pub gone_once : is_fresh c.once ≡ false → c.let_go ≡ true
  pub pending :
      c.let_go ≡ true → (is_finished c.once ≡ true) ⊎ ((j : ℕ) × (is_ending (place j) ≡ true))

pub is_ending-answer :
    (m : Method) (l : Lock) (e : Option Error) → is_ending (after_answer m l e) ≡ is_end m e
unfolding after_answer is_end
is_ending-answer Method.releases l none = refl
is_ending-answer Method.refreshes l none = refl
is_ending-answer m l (some e) = ground arith

pub is_inside-answer :
    (m : Method) (l : Lock) (e : Option Error) → is_inside (after_answer m l e) ≡ false
unfolding after_answer
is_inside-answer Method.releases l none = refl
is_inside-answer Method.refreshes l none = refl
is_inside-answer m l (some e) = ground arith

pub agrees-answer :
    (m : Method) (l l' : Lock) (e : Option Error) → agrees (after_answer m l e) l' ≡ true
unfolding after_answer
agrees-answer Method.releases l l' none = refl
agrees-answer Method.refreshes l l' none = refl
agrees-answer m l l' (some e) = ground arith
