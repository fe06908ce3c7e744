-- ===== src/Redislock/Queue.antt =====
-- `localKeyQueue` of redislock/manager.go: the queue of the goroutines of one process at each key.
-- Each function is one critical section under `q.mu`. A channel is a number; the caller makes the
-- fresh one, and closes the one that `release` hands back.
pub mod Laws
pub mod Fifo
use go_infra.Prelude.{
  ℕ, Bool, true, false, not, ◌&&◌, Option, none, some, List, [], ◌∷◌, ◌++◌, ◌==◌, if◌then◌else◌,
}
use go_infra.Prelude.Text.{Text}
use go_infra.Prelude.Dict.{Dict, lookup, insert, delete}

pub record KeyQueueState : Type 0 where
  pub held : Bool
  pub waiters : List ℕ

pub record LocalKeyQueue : Type 0 where
  pub keys : Dict KeyQueueState

unfoldable pub new_local_key_queue : LocalKeyQueue
new_local_key_queue = record { keys = [] }

abbrev pub zero_state : KeyQueueState
zero_state = record { held = false; waiters = [] }

-- `state := q.keys[key]`, and the zero state where that is nil
abbrev pub state_or_zero : Option KeyQueueState → KeyQueueState
state_or_zero none = zero_state
state_or_zero (some state) = state

abbrev pub put : Text → KeyQueueState → LocalKeyQueue → LocalKeyQueue
put key state q = record q { keys = insert key state q.keys }

abbrev pub remove : Text → LocalKeyQueue → LocalKeyQueue
remove key q = record q { keys = delete key q.keys }

unfoldable pub try_acquire : Text → LocalKeyQueue → LocalKeyQueue × Bool
try_acquire key q =
    let state = state_or_zero (lookup key q.keys) in
    if state.held
    then (put key state q, false)
    else (put key (record state { held = true }) q, true)

-- What a caller of `acquire` gets under the mutex: the key, or a place in the queue.
pub data Turn : Type 0 where
  taken waiting : Turn

-- `acquire` up to its `select`; `waiter` is the channel that it makes.
unfoldable pub acquire_begin : Text → ℕ → LocalKeyQueue → LocalKeyQueue × Turn
acquire_begin key waiter q =
    let state = state_or_zero (lookup key q.keys) in
    if not state.held
    then (put key (record state { held = true }) q, taken)
    else (put key (record state { waiters = state.waiters ++ waiter ∷ [] }) q, waiting)

-- the loop of `removeWaiter`: the first place where `waiter` is queued
unfoldable pub remove_first : ℕ → List ℕ → List ℕ
remove_first waiter [] = []
remove_first waiter (queued ∷ rest) =
    if queued == waiter then rest else queued ∷ remove_first waiter rest

abbrev no_waiters : List ℕ → Bool
no_waiters [] = true
no_waiters (w ∷ ws) = false

unfoldable pub remove_waiter : Text → ℕ → LocalKeyQueue → LocalKeyQueue
remove_waiter key waiter q = elim (lookup key q.keys) [
  | none ↦ q
  | some state ↦
      let rest = remove_first waiter state.waiters in
      if not state.held && no_waiters rest
      then remove key q
      else put key (record state { waiters = rest }) q
]

-- The branches of the `select` in `acquire`: the channel was closed, or the context is done.
pub data Wakeup : Type 0 where
  granted cancelled : Wakeup

-- The rest of `acquire`; the flag says whether it returns a release function.
unfoldable pub acquire_end : Text → ℕ → Wakeup → LocalKeyQueue → LocalKeyQueue × Bool
acquire_end key waiter granted q = (q, true)
acquire_end key waiter cancelled q = (remove_waiter key waiter q, false)

release_state : Text → KeyQueueState → List ℕ → LocalKeyQueue → LocalKeyQueue × Option ℕ
release_state key state [] q = (remove key q, none)
release_state key state (next ∷ rest) q = (put key (record state { waiters = rest }) q, some next)

-- The result holds the channel that is closed after the mutex is left.
unfoldable pub release : Text → LocalKeyQueue → LocalKeyQueue × Option ℕ
unfolding release_state
release key q = elim (lookup key q.keys) [
  | none ↦ (q, none)
  | some state ↦ release_state key state state.waiters q
]
