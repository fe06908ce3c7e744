-- ===== src/Redislock/Overlap/Invariant/Inside.antt =====
-- The fields of the invariant on the call in `finalizeOnce` and on the flags, through a step.
use go_infra.Prelude.{ℕ, true, false, Option, none, ◌≡◌, arith, if◌then◌else◌}
use go_infra.Redislock.Errors.{Error}
use go_infra.Redislock.Lock.{close_watchdog}
use go_infra.Redislock.Overlap.{
  running, Place, stops, Core, Section, refused, passes, answered, enters, skips, marked, stopped,
  panics, gave, moved,
}
use go_infra.Redislock.Overlap.Invariant.{
  is_inside, is_finished, is_fresh, agrees, Inv, is_inside-answer, agrees-answer,
}

module _ {c : Core} {place : ℕ → Place} (inv : Inv c place) (i : ℕ) where
  open inv use {
    owner, inside, flags, untouched, once_local, once_given, sound, gone, gone_once, pending,
  }

  -- No channel is closed twice.
  pub no_panic : (r : Option Error) → place i ≡ stops r → close_watchdog c.lock ≡ none → ⊥
  unfolding close_watchdog
  no_panic r h k = ground (arith, flags i)

  pub Section-owner :
      {c' : Core} {p p' : Place}
      → Section i c p c' p'
      → place i ≡ p
      → (j : ℕ) → is_inside (moved place i p' j) ≡ true
      → c'.once ≡ running j
  Section-owner (refused k) h j g = ground (arith, owner j, owner i)
  Section-owner (passes m k) h j g = ground (arith, owner j, owner i)
  Section-owner (answered m e) h j g = ground (arith, owner j, owner i, is_inside-answer m c.lock e)
  Section-owner (enters r k) h j g = ground (arith, owner j)
  Section-owner (skips r k) h j g = ground (arith, owner j, owner i)
  Section-owner (marked r) h j g = ground (arith, owner j, owner i)
  Section-owner (stopped r l k) h j g = ground (arith, owner j, owner i)
  Section-owner (panics r k) h j g = absurd (no_panic r h k)
  Section-owner (gave r) h j g = ground (arith, owner j, owner i)

  pub Section-inside :
      {c' : Core} {p p' : Place}
      → Section i c p c' p'
      → place i ≡ p
      → (j : ℕ) → c'.once ≡ running j
      → is_inside (moved place i p' j) ≡ true
  Section-inside (refused k) h j g = ground (arith, inside j, inside i)
  Section-inside (passes m k) h j g = ground (arith, inside j, inside i)
  Section-inside (answered m e) h j g = ground (arith, inside j, inside i)
  Section-inside (enters r k) h j g = ground (arith, inside j, inside i)
  Section-inside (skips r k) h j g = ground (arith, inside j, inside i)
  Section-inside (marked r) h j g = ground (arith, inside j, inside i)
  Section-inside (stopped r l k) h j g = ground (arith, inside j, inside i)
  Section-inside (panics r k) h j g = absurd (no_panic r h k)
  Section-inside (gave r) h j g = ground (arith, inside j, inside i)

  pub Section-flags :
      {c' : Core} {p p' : Place}
      → Section i c p c' p'
      → place i ≡ p
      → (j : ℕ) → agrees (moved place i p' j) c'.lock ≡ true
  unfolding close_watchdog
  Section-flags (refused k) h j = ground (arith, flags j, flags i, owner j, owner i)
  Section-flags (passes m k) h j = ground (arith, flags j, flags i, owner j, owner i)
  Section-flags (answered m e) h j = ground (arith, flags j, agrees-answer m c.lock c.lock e)
  Section-flags (enters r k) h j = ground (arith, flags j, flags i, owner j, owner i)
  Section-flags (skips r k) h j = ground (arith, flags j, flags i, owner j, owner i)
  Section-flags (marked r) h j = ground (arith, flags j, flags i, owner j, owner i)
  Section-flags (stopped r l k) h j = ground (arith, flags j, flags i, owner j, owner i)
  Section-flags (panics r k) h j = absurd (no_panic r h k)
  Section-flags (gave r) h j = ground (arith, flags j, flags i, owner j, owner i)

  pub Section-untouched :
      {c' : Core} {p p' : Place}
      → Section i c p c' p'
      → place i ≡ p
      → is_fresh c'.once ≡ true
      → (c'.lock.released ≡ false) × (c'.lock.watchdog_closed ≡ false)
  unfolding close_watchdog
  Section-untouched (refused k) h g = ground (arith, untouched, owner i)
  Section-untouched (passes m k) h g = ground (arith, untouched, owner i)
  Section-untouched (answered m e) h g = ground (arith, untouched, owner i)
  Section-untouched (enters r k) h g = ground (arith, untouched, owner i)
  Section-untouched (skips r k) h g = ground (arith, untouched, owner i)
  Section-untouched (marked r) h g = ground (arith, untouched, owner i)
  Section-untouched (stopped r l k) h g = ground (arith, untouched, owner i)
  Section-untouched (panics r k) h g = absurd (no_panic r h k)
  Section-untouched (gave r) h g = ground (arith, untouched, owner i)

  pub Section-once_local :
      {c' : Core} {p p' : Place}
      → Section i c p c' p'
      → place i ≡ p
      → c'.lock.local_done ≡ is_finished c'.once
  unfolding close_watchdog
  Section-once_local (refused k) h = ground (arith, once_local, owner i)
  Section-once_local (passes m k) h = ground (arith, once_local, owner i)
  Section-once_local (answered m e) h = ground (arith, once_local, owner i)
  Section-once_local (enters r k) h = ground (arith, once_local, owner i)
  Section-once_local (skips r k) h = ground (arith, once_local, owner i)
  Section-once_local (marked r) h = ground (arith, once_local, owner i)
  Section-once_local (stopped r l k) h = ground (arith, once_local, owner i)
  Section-once_local (panics r k) h = absurd (no_panic r h k)
  Section-once_local (gave r) h = ground (arith, once_local, owner i)

  pub Section-once_given :
      {c' : Core} {p p' : Place}
      → Section i c p c' p'
      → place i ≡ p
      → c'.given ≡ (if is_finished c'.once then 1 else 0)
  Section-once_given (refused k) h = ground (arith, once_given, once_local, owner i)
  Section-once_given (passes m k) h = ground (arith, once_given, once_local, owner i)
  Section-once_given (answered m e) h = ground (arith, once_given, once_local, owner i)
  Section-once_given (enters r k) h = ground (arith, once_given, once_local, owner i)
  Section-once_given (skips r k) h = ground (arith, once_given, once_local, owner i)
  Section-once_given (marked r) h = ground (arith, once_given, once_local, owner i)
  Section-once_given (stopped r l k) h = ground (arith, once_given, once_local, owner i)
  Section-once_given (panics r k) h = absurd (no_panic r h k)
  Section-once_given (gave r) h = ground (arith, once_given, once_local, owner i)

  pub Section-sound :
      {c' : Core} {p p' : Place} → Section i c p c' p' → place i ≡ p → c'.crashed ≡ false
  Section-sound (refused k) h = sound
  Section-sound (passes m k) h = sound
  Section-sound (answered m e) h = sound
  Section-sound (enters r k) h = sound
  Section-sound (skips r k) h = sound
  Section-sound (marked r) h = sound
  Section-sound (stopped r l k) h = sound
  Section-sound (panics r k) h = absurd (no_panic r h k)
  Section-sound (gave r) h = sound
