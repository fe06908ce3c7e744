-- ===== src/Redislock/Manager/WithLock.antt =====
-- `Manager.WithLock` of redislock/manager.go: the callback runs under the lock, and what becomes of
-- the lock and of the local key afterwards.
use go_infra.Prelude.{
  Bool, true, false, Option, none, some, List, [], ◌∷◌, ◌≡◌, ◌⊎◌, refl, Bool-cases, Option-cases,
  inl, inr, ◌∙◌,
}
use go_infra.Prelude.Int.{ℤ}
use go_infra.Redislock.Errors.{
  Op, Error, lock_error, lock_released, lock_not_held, is_lock_not_held, ok,
}
use go_infra.Redislock.Lock
use go_infra.Redislock.Lock.{Shared, Lock, release_key, watchdog_tick}
use go_infra.Redislock.Lock.Once.{
  IsSound, ended, spec_refresh, spec_end, release_live, refresh_live, ended_refuses,
}
use go_infra.Redislock.Manager.{
  Host, Manager, Ending, returned, panicked, Event, works, fires, during, first_error, is_watched,
  with_lock_end, with_lock_release, with_lock_run,
}

module _ {W : Type 0} (h : Host W) where
  -- The lock is as it was, or a tick has ended it.
  abbrev pub IsStage : Lock → Lock → Type 0
  IsStage l l1 = (l1 ≡ l) ⊎ (l1 ≡ ended l)

  spec_refresh-IsStage :
      (l : Lock) (s : Shared W) (e : Option Error) → IsStage l (spec_refresh l s e).0
  spec_refresh-IsStage l s none = inl refl
  spec_refresh-IsStage l s (some e) = elim (Bool-cases (is_lock_not_held e)) [
    | inl y ↦ rw y (inr refl)
    | inr n ↦ rw n (inl refl)
  ]

  tick-IsStage :
      (l l1 : Lock) (s : Shared W)
      → IsSound l
      → l.finalized ≡ false
      → IsStage l l1
      → (r : Lock × Shared W × Option Error) × (watchdog_tick h.backend l1 s ≡ some r)
        × IsStage l r.0
  unfolding watchdog_tick
  tick-IsStage l l1 s v f (inl e) =
      let answer = h.backend.refresh l.key l.token l.ttl s.world in
      let s' : Shared W = record s { world = answer.0 } in
      (
        spec_refresh l s' answer.1,
        rw e (refresh_live h.backend l.ttl l s v f),
        spec_refresh-IsStage l s' answer.1,
      )
  tick-IsStage l l1 s v f (inr e) = (
    (ended l, s, some lock_released),
    rw e (ended_refuses h.backend l.ttl (ended l) s refl).2,
    inr refl,
  )

  during-IsStage :
      (watched : Bool) (es : List (Event W)) (l l1 : Lock) (m : Manager W)
      → IsSound l
      → l.finalized ≡ false
      → IsStage l l1
      → (l2 : Lock) × (m2 : Manager W) × (during h watched es l1 m ≡ some (l2, m2)) × IsStage l l2
  unfolding during
  during-IsStage watched [] l l1 m v f at = (l1, m, refl, at)
  during-IsStage watched (works g ∷ es) l l1 m v f at = during-IsStage watched es l l1 (g m) v f at
  during-IsStage false (fires ∷ es) l l1 m v f at = during-IsStage false es l l1 m v f at
  during-IsStage true (fires ∷ es) l l1 m v f at =
      let ((l2, s2, e), ran, at2) = tick-IsStage l l1 m.shared v f at in
      let (l3, m3, rest, at3) = during-IsStage true es l l2 (record m { shared = s2 }) v f at2 in
      (l3, m3, rw (ran, during) rest, at3)

  -- What `WithLock` leaves where the callback of the lock `l` has left the manager `m` and the lock
  -- `l1`, and has ended so.
  pub data Settles (l l1 : Lock) (m : Manager W)
      : Ending → Option (Manager W × Ending) → Type 0 where
    leaks : Settles l l1 m panicked (some (m, panicked))
    over :
        {c : Option Error}
        → l1 ≡ ended l
        → Settles l l1 m (returned c) (some (m, returned (first_error c (some lock_released))))
    gives_back :
        {c : Option Error} (w : W)
        → l1 ≡ l
        → h.backend.release l.key l.token m.shared.world ≡ (w, none)
        → Settles l l1 m (returned c) (
            some (
              record m { shared = release_key l.key (record m.shared { world = w }) },
              returned (first_error c none),
            ))
    lost :
        {c : Option Error} (w : W) (x : Error)
        → l1 ≡ l
        → h.backend.release l.key l.token m.shared.world ≡ (w, some x)
        → is_lock_not_held x ≡ true
        → Settles l l1 m (returned c) (
            some (
              record m { shared = release_key l.key (record m.shared { world = w }) },
              returned (first_error c (some (lock_error Op.release l.key lock_not_held))),
            ))
    keeps :
        {c : Option Error} (w : W) (x : Error)
        → l1 ≡ l
        → h.backend.release l.key l.token m.shared.world ≡ (w, some x)
        → is_lock_not_held x ≡ false
        → Settles l l1 m (returned c) (
            some (
              record m { shared = record m.shared { world = w } },
              returned (first_error c (some (lock_error Op.release l.key x))),
            ))

  release-Settles :
      (l l1 : Lock) (m : Manager W) (c : Ending)
      → IsSound l
      → l.finalized ≡ false
      → IsStage l l1
      → Settles l l1 m c (with_lock_release h c (some (l1, m)))
  unfolding with_lock_release with_lock_end
  release-Settles l l1 m panicked v f at = leaks
  release-Settles l l1 m (returned c) v f (inr e) =
      rw (e, (ended_refuses h.backend l.ttl (ended l) m.shared refl).0) (over refl)
  release-Settles l l1 m (returned c) v f (inl e) =
      let (w, answer) = h.backend.release l.key l.token m.shared.world in
      rw (e, release_live h.backend l m.shared v f)
        (elim (Option-cases answer) [
          | inl none_ ↦ rw none_ (gives_back w refl (rw none_ refl))
          | inr (x, some_) ↦ elim (Bool-cases (is_lock_not_held x)) [
            | inl y ↦ rw (some_, y) (lost w x refl (rw some_ refl) y)
            | inr n ↦ rw (some_, n) (keeps w x refl (rw some_ refl) n)
          ]
        ])

  -- With a live lock, whatever happens while the callback runs and however it ends: `WithLock` calls
  -- `Release` once where the callback returned. Where no tick has ended the lock, `Release` gives the
  -- local key back if the backend deletes the key or does not hold it, and keeps it with any other
  -- error; where a tick has ended it, nothing more is given back. The error of the callback comes
  -- first, then that of `Release`. Where the callback panics, the lock is left as it is.
  pub with_lock_run-Settles :
      (es : List (Event W)) (c : Ending) (m : Manager W) (l : Lock) (period : Option ℤ)
      → IsSound l
      → l.finalized ≡ false
      → (l1 : Lock) × (m1 : Manager W) × (during h (is_watched period) es l m ≡ some (l1, m1))
        × IsStage l l1
        × Settles l l1 m1 c (with_lock_run h es c m (ok (l, period)))
  unfolding with_lock_run
  with_lock_run-Settles es c m l period v f =
      let (l1, m1, ran, at) = during-IsStage (is_watched period) es l l m v f (inl refl) in
      (l1, m1, ran, at, rw (ran, with_lock_run) (release-Settles l l1 m1 c v f at))

  -- What the callback and the other goroutines make of a manager.
  unfoldable pub worked : List (Event W) → Manager W → Manager W
  worked [] m = m
  worked (works f ∷ es) m = worked es (f m)
  worked (fires ∷ es) m = worked es m

  during-worked :
      (es : List (Event W)) (l : Lock) (m : Manager W)
      → during h false es l m ≡ some (l, worked es m)
  unfolding during worked
  during-worked [] l m = refl
  during-worked (works f ∷ es) l m = during-worked es l (f m)
  during-worked (fires ∷ es) l m = during-worked es l m

  -- Without a watchdog, where the callback returns and the backend fails to release with an error
  -- that is not `ErrLockNotHeld`, `WithLock` returns an error and leaves the local queue as the
  -- callback left it. (The caller has no lock to release again, so the local key stays taken.)
  pub with_lock_run_stuck :
      (es : List (Event W)) (c : Option Error) (m : Manager W) (l : Lock) (e : Error)
      → IsSound l
      → l.finalized ≡ false
      → (h.backend.release l.key l.token (worked es m).shared.world).1 ≡ some e
      → is_lock_not_held e ≡ false
      → (m' : Manager W) × (x : Error) × (with_lock_run h es (returned c) m (ok (l, none))
          ≡ some (m', returned (some x)))
        × (m'.shared.queue ≡ (worked es m).shared.queue)
  unfolding with_lock_run with_lock_release with_lock_end
  with_lock_run_stuck es c m l e v f fails other =
      let m1 = worked es m in
      let s' : Shared W = record m1.shared {
        world = (h.backend.release l.key l.token m1.shared.world).0;
      } in
      let failed : Lock.release h.backend l m1.shared
          ≡ some (l, s', some (lock_error Op.release l.key e)) =
        release_live h.backend l m1.shared v f ∙ rw (fails, spec_end) (rw other) in
      elim (Option-cases c) [
        | inl n ↦ (
          record m1 { shared = s' },
          lock_error Op.release l.key e,
          rw (during-worked es l m, failed, n, with_lock_end),
          refl,
        )
        | inr (x, n) ↦ (
          record m1 { shared = s' },
          x,
          rw (during-worked es l m, failed, n, with_lock_end),
          refl,
        )
      ]
