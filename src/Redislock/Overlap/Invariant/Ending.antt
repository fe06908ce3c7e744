-- ===== src/Redislock/Overlap/Invariant/Ending.antt =====
-- The fields of the invariant on the calls that end the lock, through a step, and all of them.
use go_infra.Prelude.{ℕ, ◌==◌, true, false, ◌≡◌, ◌⊎◌, refl, arith, inl, inr, Bool-cases}
use go_infra.Redislock.Lock.{Lock}
use go_infra.Redislock.Overlap.{
  OnceState, running, Place, is_end, Core, Section, refused, passes, answered, enters, skips,
  marked, stopped, panics, gave, Calls, moved, turn, begin, Interleaved, here, later,
}
use go_infra.Redislock.Overlap.Invariant.{is_ending, is_finished, is_fresh, Inv, is_ending-answer}
use go_infra.Redislock.Overlap.Invariant.Inside.{
  no_panic, Section-owner, Section-inside, Section-flags, Section-untouched, Section-once_local,
  Section-once_given, Section-sound,
}

module _ {c : Core} {place : ℕ → Place} (inv : Inv c place) (i : ℕ) where
  open inv use {
    owner, inside, flags, untouched, once_local, once_given, sound, gone, gone_once, pending,
  }

  Section-gone :
      {c' : Core} {p p' : Place}
      → Section i c p c' p'
      → place i ≡ p
      → (j : ℕ) → is_ending (moved place i p' j) ≡ true
      → c'.let_go ≡ true
  Section-gone (refused k) h j g = ground (arith, gone j, gone i)
  Section-gone (passes m k) h j g = ground (arith, gone j, gone i)
  Section-gone (answered m e) h j g = ground (arith, gone j, is_ending-answer m c.lock e)
  Section-gone (enters r k) h j g = ground (arith, gone j, gone i)
  Section-gone (skips r k) h j g = ground (arith, gone j, gone i)
  Section-gone (marked r) h j g = ground (arith, gone j, gone i)
  Section-gone (stopped r l k) h j g = ground (arith, gone j, gone i)
  Section-gone (panics r k) h j g = absurd (no_panic inv i r h k)
  Section-gone (gave r) h j g = ground (arith, gone j, gone i)

  Section-gone_once :
      {c' : Core} {p p' : Place}
      → Section i c p c' p'
      → place i ≡ p
      → is_fresh c'.once ≡ false
      → c'.let_go ≡ true
  Section-gone_once (refused k) h g = ground (arith, gone_once, gone i)
  Section-gone_once (passes m k) h g = ground (arith, gone_once, gone i)
  Section-gone_once (answered m e) h g = ground (arith, gone_once, gone i)
  Section-gone_once (enters r k) h g = ground (arith, gone_once, gone i)
  Section-gone_once (skips r k) h g = ground (arith, gone_once, gone i)
  Section-gone_once (marked r) h g = ground (arith, gone_once, gone i)
  Section-gone_once (stopped r l k) h g = ground (arith, gone_once, gone i)
  Section-gone_once (panics r k) h g = absurd (no_panic inv i r h k)
  Section-gone_once (gave r) h g = ground (arith, gone_once, gone i)

  -- A call that ends the lock keeps doing so while it moves from its answer to its result.
  still_pending :
      (o' : OnceState) (p' : Place)
      → ((j : ℕ)
          → place i ≡ place j
          → is_ending (place j) ≡ true
          → (is_finished o' ≡ true) ⊎ (is_ending p' ≡ true))
      → (is_finished c.once ≡ true → is_finished o' ≡ true)
      → (is_finished c.once ≡ true) ⊎ ((j : ℕ) × (is_ending (place j) ≡ true))
      → (is_finished o' ≡ true) ⊎ ((j : ℕ) × (is_ending (moved place i p' j) ≡ true))
  still_pending o' p' mine stays (inl f) = inl (stays f)
  still_pending o' p' mine stays (inr (j, e)) = elim (Bool-cases (i == j)) [
    | inr other ↦ inr (j, rw other e)
    | inl same ↦ elim (mine j (ground arith) e) [ inl f ↦ inl f | inr e' ↦ inr (i, ground arith) ]
  ]

  Section-pending :
      {c' : Core} {p p' : Place}
      → Section i c p c' p'
      → place i ≡ p
      → c'.let_go ≡ true
      → (is_finished c'.once ≡ true) ⊎ ((j : ℕ) × (is_ending (moved place i p' j) ≡ true))
  Section-pending (refused k) h g = still_pending c.once _ (λ j same e. cc) (λ f. f) (pending g)
  Section-pending (passes m k) h g = still_pending c.once _ (λ j same e. cc) (λ f. f) (pending g)
  Section-pending (answered m e) h g = elim (Bool-cases (is_end m e)) [
    | inl y ↦ inr (i, ground (arith, is_ending-answer m c.lock e))
    | inr n ↦ still_pending c.once _ (λ j same f. cc) (λ f. f) (pending (ground arith))
  ]
  Section-pending (enters r k) h g =
      still_pending (running i) _ (λ j same e. inr refl) (λ f. cc) (pending g)
  Section-pending (skips r k) h g = inl (ground arith)
  Section-pending (marked r) h g =
      still_pending c.once _ (λ j same e. inr refl) (λ f. f) (pending g)
  Section-pending (stopped r l k) h g =
      still_pending c.once _ (λ j same e. inr refl) (λ f. f) (pending g)
  Section-pending (panics r k) h g = absurd (no_panic inv i r h k)
  Section-pending (gave r) h g = inl refl

  -- Every step keeps the invariant.
  pub Section-Inv :
      {c' : Core} {p' : Place} → Section i c (place i) c' p' → Inv c' (moved place i p')
  Section-Inv st = record {
    owner = Section-owner inv i st refl;
    inside = Section-inside inv i st refl;
    flags = Section-flags inv i st refl;
    untouched = Section-untouched inv i st refl;
    once_local = Section-once_local inv i st refl;
    once_given = Section-once_given inv i st refl;
    sound = Section-sound inv i st refl;
    gone = Section-gone st refl;
    gone_once = Section-gone_once st refl;
    pending = Section-pending st refl;
  }

-- A lock that is live, with no call of it begun.
abbrev pub IsBegun : Lock → Type 0
IsBegun l = (l.released ≡ false) × (l.watchdog_closed ≡ false) × (l.local_done ≡ false)

begin-Inv : (l : Lock) → IsBegun l → Inv (begin l).core (begin l).place
begin-Inv l (live, unclosed, unlocal) = record {
  owner = λ j h. cc;
  inside = λ j h. cc;
  flags = λ j. refl;
  untouched = λ h. (live, unclosed);
  once_local = unlocal;
  once_given = refl;
  sound = refl;
  gone = λ j h. cc;
  gone_once = λ h. cc;
  pending = λ h. cc;
}

pub Interleaved-Inv :
    {l : Lock} {s : Calls} → IsBegun l → Interleaved (begin l) s → Inv s.core s.place
Interleaved-Inv {l} h here = begin-Inv l h
Interleaved-Inv h (later r (turn i st)) = Section-Inv (Interleaved-Inv h r) i st
