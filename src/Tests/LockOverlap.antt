-- ===== src/Tests/LockOverlap.antt =====
-- A `Release` of a lock that overlaps with a tick of its watchdog.
use go_infra.Prelude.{ℕ, ◌≤◌, ◌==◌, Bool-cases, inl, inr, false, none, some, ◌≡◌, refl}
use go_infra.Prelude.Text.{codes}
use go_infra.Prelude.Int.{pos}
use go_infra.Redislock.Errors.{lock_not_held, is_lock_not_held}
use go_infra.Redislock.Lock.{Lock, new_lock, close_watchdog}
use go_infra.Redislock.Overlap.{
  releases, refreshes, passes, answered, enters, skips, marked, stopped, gave, Calls, turn, begin,
  Interleaved, here, later, is_end, after_answer,
}
use go_infra.Redislock.Overlap.Invariant.{is_ending}
use go_infra.Redislock.Overlap.Invariant.Ending.{IsBegun}
use go_infra.Redislock.Overlap.Once.{overlap_once, settled_once}

abbrev live : Lock
unfolding new_lock
live = new_lock (codes "job") (codes "token") (pos 60)

live-IsBegun : IsBegun live
unfolding live
live-IsBegun = (refl, refl, refl)

record Run : Type 0 where
  last : Calls
  reach : Interleaved (begin live) last

-- Call 0 releases, call 1 refreshes; both are at the backend, and both learn that the lock is over.
abbrev both : Run
unfolding close_watchdog after_answer is_end live is_lock_not_held
both = record {
  last = _;
  reach =
      later
        (later
          (later
            (later
              (later
                (later
                  (later
                    (later (later here (turn 0 (passes releases refl)))
                      (turn 1 (passes refreshes refl)))
                    (turn 0 (answered releases none)))
                  (turn 1 (answered refreshes (some lock_not_held))))
                (turn 1 (enters _ refl)))
              (turn 1 (marked _)))
            (turn 1 (stopped _ _ refl)))
          (turn 1 (gave _)))
        (turn 0 (skips _ refl));
}

overlap_once_example : (both.last.core.crashed ≡ false) × (both.last.core.given ≤ 1)
unfolding both close_watchdog after_answer is_end live is_lock_not_held
overlap_once_example = overlap_once live-IsBegun both.reach

both-settled : (j : ℕ) → is_ending (both.last.place j) ≡ false
unfolding both close_watchdog after_answer is_end live is_lock_not_held
both-settled j = elim (Bool-cases (0 == j)) [
  | inl h ↦ rw h
  | inr h ↦ elim (Bool-cases (1 == j)) [ inl g ↦ rw (h, g) | inr g ↦ rw (h, g) ]
]

settled_once_example : both.last.core.given ≡ 1
unfolding both close_watchdog after_answer is_end live is_lock_not_held
settled_once_example = settled_once live-IsBegun both.reach both-settled
