-- ===== src/Redislock/Lock/History.antt =====
-- Histories of one lock of redislock/manager.go: any calls of `Release`, of `Refresh` and ticks of
-- the watchdog, one after another.
use go_infra.Prelude.{
  true, false, Option, none, some, List, [], ◌∷◌, ◌≡◌, inl, inr, refl, sym, ap, subst, ◌∙◌,
  Bool-cases,
}
use go_infra.Prelude.Int.{ℤ}
use go_infra.Redislock.Errors.{Op, Error, is_lock_not_held}
use go_infra.Redislock.Backend.{Backend}
use go_infra.Redislock.Queue
use go_infra.Redislock.Queue.{LocalKeyQueue}
use go_infra.Redislock.Lock.{Shared, Lock, close_next, release_key, release, refresh, watchdog_tick}
use go_infra.Redislock.Lock.Once.{
  IsSound, ended, spec_end, spec_refresh, release_live, refresh_live, ended_refuses,
}

pub data Call : Type 0 where
  releases ticks : Call
  refreshes : ℤ → Call

module _ {W : Type 0} (b : Backend W) where
  abbrev pub call : Call → Lock → Shared W → Option (Lock × Shared W × Option Error)
  call releases l s = release b l s
  call ticks l s = watchdog_tick b l s
  call (refreshes ttl) l s = refresh b ttl l s

  unfoldable pub run : List Call → Lock → Shared W → Option (Lock × Shared W)
  run [] l s = some (l, s)
  run (c ∷ cs) l s = elim (call c l s) [ none ↦ none | some (l', s', e) ↦ run cs l' s' ]

-- What a history leaves of a lock and of the local queue: the lock lives and the queue is as it
-- was, or the lock has ended and the key was given back once.
pub data Left {W : Type 0} (l : Lock) (s : Shared W) (l' : Lock) (s' : Shared W) : Type 0 where
  alive : l' ≡ l → l.finalized ≡ false → s'.queue ≡ s.queue → s'.closed ≡ s.closed → Left l s l' s'
  over :
      l' ≡ ended l
      → s'.queue ≡ (Queue.release l.key s.queue).0
      → s'.closed ≡ close_next (Queue.release l.key s.queue).1 s.closed
      → Left l s l' s'

module _ {W : Type 0} (b : Backend W) where
  spec_end-Left :
      (op : Op) (l : Lock) (s : Shared W) (w : W) (e : Option Error)
      → l.finalized ≡ false
      → let r = spec_end op l (record s { world = w }) e in Left l s r.0 r.1
  unfolding release_key
  spec_end-Left op l s w none h = over refl refl refl
  spec_end-Left op l s w (some e) h = elim (Bool-cases (is_lock_not_held e)) [
    | inl y ↦ rw y (over refl refl refl)
    | inr n ↦ rw n (alive refl h refl refl)
  ]

  spec_refresh-Left :
      (l : Lock) (s : Shared W) (w : W) (e : Option Error)
      → l.finalized ≡ false
      → let r = spec_refresh l (record s { world = w }) e in Left l s r.0 r.1
  spec_refresh-Left l s w none h = alive refl h refl refl
  spec_refresh-Left l s w (some e) h = spec_end-Left Op.refresh l s w (some e) h

  -- One call on a live lock.
  call_live :
      (c : Call) (l : Lock) (s : Shared W)
      → IsSound l
      → l.finalized ≡ false
      → (l' : Lock) × (s' : Shared W) × (e : Option Error) × (call b c l s ≡ some (l', s', e))
        × Left l s l' s'
  unfolding watchdog_tick
  call_live releases l s v h = (_, _, _, release_live b l s v h, spec_end-Left Op.release l s _ _ h)
  call_live ticks l s v h = (_, _, _, refresh_live b l.ttl l s v h, spec_refresh-Left l s _ _ h)
  call_live (refreshes ttl) l s v h =
      (_, _, _, refresh_live b ttl l s v h, spec_refresh-Left l s _ _ h)

  -- After the end no call does anything.
  run_ended :
      (cs : List Call) (l : Lock) (s : Shared W) → l.released ≡ true → run b cs l s ≡ some (l, s)
  unfolding run watchdog_tick
  run_ended [] l s h = refl
  run_ended (releases ∷ cs) l s h = rw ((ended_refuses b l.ttl l s h).0, run) (run_ended cs l s h)
  run_ended (ticks ∷ cs) l s h = rw ((ended_refuses b l.ttl l s h).2, run) (run_ended cs l s h)
  run_ended (refreshes ttl ∷ cs) l s h =
      rw ((ended_refuses b ttl l s h).1, run) (run_ended cs l s h)

  alive_then :
      (l : Lock) (s : Shared W) (l1 : Lock) (s1 : Shared W) (l' : Lock) (s' : Shared W)
      → l1 ≡ l
      → s1.queue ≡ s.queue
      → s1.closed ≡ s.closed
      → Left l1 s1 l' s'
      → Left l s l' s'
  alive_then l s l1 s1 l' s' p q r (alive e f g k) = alive (e ∙ p) (cc) (g ∙ q) (k ∙ r)
  alive_then l s l1 s1 l' s' p q r (over e g k) = over (e ∙ ap ended p) (cc) (cc)

  -- No history of a live lock panics, and its local key is given back at most once: the lock is as
  -- it was and so is the local queue, or the lock has ended and the queue saw one `release`.
  pub run-Left :
      (cs : List Call) (l : Lock) (s : Shared W)
      → IsSound l
      → l.finalized ≡ false
      → (l' : Lock) × (s' : Shared W) × (run b cs l s ≡ some (l', s')) × Left l s l' s'
  unfolding run
  run-Left [] l s v h = (l, s, refl, alive refl h refl refl)
  run-Left (c ∷ cs) l s v h =
      let (l1, s1, e, called, left) = call_live c l s v h in
      rw (called, run) (go l1 s1 left (run-Left cs l1 s1))
    where
      go :
          (l1 : Lock) (s1 : Shared W)
          → Left l s l1 s1
          → (IsSound l1
              → l1.finalized ≡ false
              → (l' : Lock) × (s' : Shared W) × (run b cs l1 s1 ≡ some (l', s')) × Left l1 s1 l' s')
          → (l' : Lock) × (s' : Shared W) × (run b cs l1 s1 ≡ some (l', s')) × Left l s l' s'
      go l1 s1 (alive p f q r) rest =
          let (l', s', ran, left) =
            rest (subst IsSound (sym p) v) (ap (λ (x : Lock). x.finalized) p ∙ h) in
          (l', s', ran, alive_then l s l1 s1 l' s' p q r left)
      go l1 s1 (over p q r) rest =
          (l1, s1, run_ended cs l1 s1 (ap (λ (x : Lock). x.released) p), over p q r)
