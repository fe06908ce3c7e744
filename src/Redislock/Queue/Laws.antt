-- ===== src/Redislock/Queue/Laws.antt =====
-- The local queue of redislock/manager.go against its promise: what each operation does to the
-- view of its key, and that it leaves the other keys alone.
use go_infra.Prelude.{
  ℕ, Bool, true, false, Option, none, some, List, [], ◌∷◌, ◌++◌, ◌≡◌, ◌⊎◌, refl, ap, arith,
  if◌then◌else◌, Option-cases, inl, inr,
}
use go_infra.Prelude.Text.{Text, text_eq, text_eq_iff}
use go_infra.Prelude.Dict.{lookup, lookup-insert, lookup-delete}
use go_infra.Redislock.Queue.{
  KeyQueueState, LocalKeyQueue, new_local_key_queue, put, remove, try_acquire, Turn, taken, waiting,
  acquire_begin, remove_first, remove_waiter, release,
}

-- The promise of the queue: a key is free, or held with its waiters in order of arrival.
pub data View : Type 0 where
  free : View
  busy : List ℕ → View

abbrev pub view_of : Option KeyQueueState → View
view_of none = free
view_of (some state) = busy state.waiters

unfoldable pub view : Text → LocalKeyQueue → View
view key q = view_of (lookup key q.keys)

-- Every entry is a held key.
abbrev pub IsTidy : LocalKeyQueue → Type 0
IsTidy q = (key : Text) (state : KeyQueueState) → lookup key q.keys ≡ some state → state.held ≡ true

pub new-IsTidy : IsTidy new_local_key_queue
unfolding new_local_key_queue lookup
new-IsTidy key state e = cc

view-put :
    (key j : Text) (s : KeyQueueState) (q : LocalKeyQueue)
    → view j (put key s q) ≡ (if text_eq key j then busy s.waiters else view j q)
unfolding view
view-put key j s q = ground (arith, lookup-insert key j s q.keys)

view-remove :
    (key j : Text) (q : LocalKeyQueue)
    → view j (remove key q) ≡ (if text_eq key j then free else view j q)
unfolding view
view-remove key j q = ground (arith, lookup-delete key j q.keys)

view-same :
    (key j : Text) (v : View) (q : LocalKeyQueue)
    → view key q ≡ v
    → view j q ≡ (if text_eq key j then v else view j q)
view-same key j v q e = ground (arith, text_eq_iff key j)

put-IsTidy :
    (key : Text) (s : KeyQueueState) (q : LocalKeyQueue)
    → s.held ≡ true
    → IsTidy q
    → IsTidy (put key s q)
put-IsTidy key s q h t j state e = ground (arith, lookup-insert key j s q.keys, t j state)

remove-IsTidy : (key : Text) (q : LocalKeyQueue) → IsTidy q → IsTidy (remove key q)
remove-IsTidy key q t j state e = ground (arith, lookup-delete key j q.keys, t j state)

-- A key is there or not; where it is, it is held.
abbrev Entry : Text → LocalKeyQueue → Type 0
Entry key q =
    (lookup key q.keys ≡ none)
    ⊎ ((ws : List ℕ) × (lookup key q.keys ≡ some (record { held = true; waiters = ws })))

entry : (key : Text) (q : LocalKeyQueue) → IsTidy q → Entry key q
entry key q t = elim (Option-cases (lookup key q.keys)) [
  | inl e ↦ inl e
  | inr (s, e) ↦ inr (s.waiters, ground (arith, t key s e))
]

-- The specification of each operation.
abbrev pub spec_try_acquire : View → View × Bool
spec_try_acquire free = (busy [], true)
spec_try_acquire (busy ws) = (busy ws, false)

abbrev pub spec_acquire_begin : ℕ → View → View × Turn
spec_acquire_begin waiter free = (busy [], taken)
spec_acquire_begin waiter (busy ws) = (busy (ws ++ waiter ∷ []), waiting)

abbrev pub spec_remove_waiter : ℕ → View → View
spec_remove_waiter waiter free = free
spec_remove_waiter waiter (busy ws) = busy (remove_first waiter ws)

abbrev pub spec_release : View → View × Option ℕ
spec_release free = (free, none)
spec_release (busy []) = (free, none)
spec_release (busy (w ∷ ws)) = (busy ws, some w)

module _ (key j : Text) (q : LocalKeyQueue) (t : IsTidy q) where
  -- In a tidy queue `tryAcquire` acts on the view of its key as specified, takes the key exactly
  -- where that is free, and leaves every other key alone.
  pub try_acquire-view :
      (view j (try_acquire key q).0
        ≡ (if text_eq key j then (spec_try_acquire (view key q)).0 else view j q))
      × ((try_acquire key q).1 ≡ (spec_try_acquire (view key q)).1)
  unfolding try_acquire view
  try_acquire-view = elim (entry key q t) [
    | inl e ↦ rw (e, try_acquire) (view-put key j _ q, refl)
    | inr (ws, e) ↦ rw (e, try_acquire) (view-put key j _ q, refl)
  ]

  -- In a tidy queue `acquire` takes its key where that is free, else puts its channel last among
  -- those that wait, and leaves every other key alone.
  pub acquire_begin-view :
      (waiter : ℕ)
      → (view j (acquire_begin key waiter q).0
          ≡ (if text_eq key j then (spec_acquire_begin waiter (view key q)).0 else view j q))
        × ((acquire_begin key waiter q).1 ≡ (spec_acquire_begin waiter (view key q)).1)
  unfolding acquire_begin view
  acquire_begin-view waiter = elim (entry key q t) [
    | inl e ↦ rw (e, acquire_begin) (view-put key j _ q, refl)
    | inr (ws, e) ↦ rw (e, acquire_begin) (view-put key j _ q, refl)
  ]

  -- In a tidy queue `removeWaiter` removes the first place of the channel from those that wait for
  -- its key, and leaves the other keys alone.
  pub remove_waiter-view :
      (waiter : ℕ)
      → view j (remove_waiter key waiter q)
        ≡ (if text_eq key j then spec_remove_waiter waiter (view key q) else view j q)
  unfolding remove_waiter view
  remove_waiter-view waiter = elim (entry key q t) [
    | inl e ↦ rw (e, remove_waiter) (view-same key j free q (ap view_of e))
    | inr (ws, e) ↦ rw (e, remove_waiter) (view-put key j _ q)
  ]

  -- In a tidy queue `release` makes its key free where nobody waits, else hands it to the first that
  -- waits, whose channel it returns; it leaves every other key alone.
  pub release-view :
      (view j (release key q).0
        ≡ (if text_eq key j then (spec_release (view key q)).0 else view j q))
      × ((release key q).1 ≡ (spec_release (view key q)).1)
  unfolding release view
  release-view = elim (entry key q t) [
    | inl e ↦ rw (e, release) (view-same key j free q (ap view_of e), refl)
    | inr ([], e) ↦ rw (e, release) (view-remove key j q, refl)
    | inr (w ∷ ws, e) ↦ rw (e, release) (view-put key j _ q, refl)
  ]

-- Every operation keeps the queue tidy.
module _ (key : Text) (q : LocalKeyQueue) (t : IsTidy q) where
  pub try_acquire-IsTidy : IsTidy (try_acquire key q).0
  unfolding try_acquire
  try_acquire-IsTidy = elim (entry key q t) [
    | inl e ↦ rw (e, try_acquire) (put-IsTidy key _ q refl t)
    | inr (ws, e) ↦ rw (e, try_acquire) (put-IsTidy key _ q refl t)
  ]

  pub acquire_begin-IsTidy : (waiter : ℕ) → IsTidy (acquire_begin key waiter q).0
  unfolding acquire_begin
  acquire_begin-IsTidy waiter = elim (entry key q t) [
    | inl e ↦ rw (e, acquire_begin) (put-IsTidy key _ q refl t)
    | inr (ws, e) ↦ rw (e, acquire_begin) (put-IsTidy key _ q refl t)
  ]

  pub remove_waiter-IsTidy : (waiter : ℕ) → IsTidy (remove_waiter key waiter q)
  unfolding remove_waiter
  remove_waiter-IsTidy waiter = elim (entry key q t) [
    | inl e ↦ rw (e, remove_waiter) t
    | inr (ws, e) ↦ rw (e, remove_waiter) (put-IsTidy key _ q refl t)
  ]

  pub release-IsTidy : IsTidy (release key q).0
  unfolding release
  release-IsTidy = elim (entry key q t) [
    | inl e ↦ rw (e, release) t
    | inr ([], e) ↦ rw (e, release) (remove-IsTidy key q t)
    | inr (w ∷ ws, e) ↦ rw (e, release) (put-IsTidy key _ q refl t)
  ]
