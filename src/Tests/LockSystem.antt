-- ===== src/Tests/LockSystem.antt =====
-- Interleavings of two calls for one key, and the promises of the local queue in them.
use go_infra.Prelude.{ℕ, true, ◌≡◌, ◌⊎◌, refl, arith, inr}
use go_infra.Prelude.Text.{Text, codes, text_eq}
use go_infra.Prelude.Dict.{lookup, insert, delete}
use go_infra.Redislock.Queue.{
  new_local_key_queue, acquire_begin, remove_waiter, remove_first, release,
}
use go_infra.Redislock.Queue.Laws.{view}
use go_infra.Redislock.System.{
  System, init, Reach, here, later, pick, takes, queues, cancelled, leaves, hands_over, closes,
}
use go_infra.Redislock.System.Slots.{waiters_of, owns}
use go_infra.Redislock.System.Steps.{views}
use go_infra.Redislock.System.Safety.{
  mutual_exclusion, IsServed, Abandons, Step-IsServed, CanGoOn, no_deadlock,
}
use go_infra.Redislock.System.Lost.{IsLost, abandoned_forever}

abbrev job : Text
job = codes "job"

record Run : Type 0 where
  last : System
  reach : Reach init last

-- Call 0 holds the key, and call 1 waits for it.
abbrev contended : Run
unfolding new_local_key_queue acquire_begin lookup insert text_eq
contended = record {
  last = _;
  reach = later (later here (pick 0 (takes job refl))) (pick 1 (queues job refl));
}

-- Call 1 gives up at its `select` while call 0 hands it the key.
abbrev handed : Run
unfolding contended release remove_waiter lookup insert delete text_eq
handed = record {
  last = _;
  reach =
      later (later (later contended.reach (pick 0 (hands_over {c = 1} refl))) (pick 0 closes))
        (pick 1 cancelled);
}

abbrev lost : Run
unfolding handed release remove_waiter remove_first lookup insert delete text_eq
lost = record { last = _; reach = later handed.reach (pick 1 leaves) }

mutual_exclusion_example : ◌≡◌ {A = ℕ} 0 0
unfolding contended
mutual_exclusion_example = mutual_exclusion contended.reach job 0 0 refl refl

no_deadlock_example :
    (j : ℕ) × (owns job (waiters_of (views contended.last.queue job)) j (contended.last.pc j)
      ≡ true)
    × CanGoOn job contended.last j
unfolding contended view lookup text_eq
no_deadlock_example = no_deadlock contended.reach job 1 refl (inr (0, refl))

Step-IsServed_example :
    IsServed job (views lost.last.queue) lost.last.pc
    ⊎ Abandons job (views handed.last.queue) handed.last.pc lost.last.pc
unfolding contended handed lost view lookup text_eq remove_waiter remove_first
Step-IsServed_example = Step-IsServed handed.reach (pick 1 leaves) job (inr (1, refl))

last-IsLost : IsLost job lost.last
unfolding contended handed lost view lookup text_eq remove_waiter remove_first
last-IsLost = (refl, λ i. ground arith)

record After : Type 0 where
  last : System
  reach : Reach lost.last last

-- One more call for the abandoned key.
abbrev after : After
unfolding contended handed lost acquire_begin release remove_waiter remove_first lookup insert
    delete text_eq
after = record { last = _; reach = later here (pick 2 (queues job refl)) }

abandoned_forever_example : IsLost job after.last
abandoned_forever_example = abandoned_forever lost.reach job last-IsLost after.reach
