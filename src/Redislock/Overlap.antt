-- ===== src/Redislock/Overlap.antt =====
-- Calls of one lock of redislock/manager.go that overlap: any number of calls of `Release` and of
-- `Refresh`, a tick of the watchdog being one of `Refresh`, step by step. A step is a section under
-- `l.mu`, an answer of the backend, or a part of `finalize`.
pub mod Invariant
pub mod Once
use go_infra.Prelude.{ℕ, zero, suc, ◌==◌, Bool, true, false, Option, none, some, ◌≡◌, if◌then◌else◌}
use go_infra.Redislock.Errors.{
  Op, Error, lock_not_held, lock_released, lock_error, is_lock_not_held,
}
use go_infra.Redislock.Lock.{Lock, close_watchdog}

-- `finalizeOnce`: nobody has entered it, a call is in it, or it is done.
pub data OnceState : Type 0 where
  fresh : OnceState
  running : ℕ → OnceState
  finished : OnceState

pub data Method : Type 0 where
  releases refreshes : Method

-- Where a call stands.
pub data Place : Type 0 where
  waits : Place  -- not yet called
  asks : Method → Place  -- at the backend
  ends : Option Error → Place  -- before `finalizeOnce.Do`, with the result of the method
  marks : Option Error → Place  -- in `finalizeOnce`, before `l.released = true`
  stops : Option Error → Place  -- before `close(l.watchdogStop)`
  gives : Option Error → Place  -- before `l.releaseLocal()`
  returns : Option Error → Place

abbrev op_of : Method → Op
op_of releases = Op.release
op_of refreshes = Op.refresh

-- Whether an answer of the backend ends the lock: it is released, or not held.
unfoldable pub is_end : Method → Option Error → Bool
is_end releases none = true
is_end refreshes none = false
is_end m (some e) = is_lock_not_held e

-- Where a method goes on after the answer of the backend.
unfoldable pub after_answer : Method → Lock → Option Error → Place
after_answer releases l none = ends none
after_answer refreshes l none = returns none
after_answer m l (some e) =
    if is_lock_not_held e
    then ends (some (lock_error (op_of m) l.key lock_not_held))
    else returns (some (lock_error (op_of m) l.key e))

-- `given` counts the calls of the release function that had an effect; `let_go` says whether the
-- backend has answered that the key is released or not held, and `crashed` whether a channel was
-- closed twice.
pub record Core : Type 0 where
  pub lock : Lock
  pub once : OnceState
  pub given : ℕ
  pub let_go : Bool
  pub crashed : Bool

-- `l.releaseLocal()`, whose own `once` lets the first call through.
abbrev pub give : Core → Core
give c = record c {
  lock = record c.lock { local_done = true };
  given = if c.lock.local_done then c.given else suc c.given;
  once = finished;
}

-- A step of call `i`.
pub data Section (i : ℕ) (c : Core) : Place → Core → Place → Type 0 where
  refused : c.lock.released ≡ true → Section i c waits c (returns (some lock_released))
  passes : (m : Method) → c.lock.released ≡ false → Section i c waits c (asks m)
  answered :
      (m : Method) (e : Option Error)
      → Section i c
          (asks m)
          (record c { let_go = if is_end m e then true else c.let_go })
          (after_answer m c.lock e)
  enters :
      (r : Option Error)
      → c.once ≡ fresh
      → Section i c (ends r) (record c { once = running i }) (marks r)
  skips : (r : Option Error) → c.once ≡ finished → Section i c (ends r) c (returns r)
  marked :
      (r : Option Error)
      → Section i c (marks r) (record c { lock = record c.lock { released = true } }) (stops r)
  stopped :
      (r : Option Error) (l : Lock)
      → close_watchdog c.lock ≡ some l
      → Section i c (stops r) (record c { lock = l }) (gives r)
  panics :
      (r : Option Error)
      → close_watchdog c.lock ≡ none
      → Section i c (stops r) (record c { crashed = true }) (returns r)
  gave : (r : Option Error) → Section i c (gives r) (give c) (returns r)

pub record Calls : Type 0 where
  pub core : Core
  pub place : ℕ → Place

abbrev pub moved : (ℕ → Place) → ℕ → Place → ℕ → Place
moved place i p j = if i == j then p else place j

pub data Turn (s : Calls) : Calls → Type 0 where
  turn :
      (i : ℕ) {c : Core} {p : Place}
      → Section i s.core (s.place i) c p
      → Turn s (record { core = c; place = moved s.place i p })

-- A lock that its manager has just made.
abbrev pub begin : Lock → Calls
begin l = record {
  core = record { lock = l; once = fresh; given = 0; let_go = false; crashed = false };
  place = λ i. waits;
}

-- Any number of steps, in any order of the calls.
pub data Interleaved (s : Calls) : Calls → Type 0 where
  here : Interleaved s s
  later : {t u : Calls} → Interleaved s t → Turn t u → Interleaved s u
