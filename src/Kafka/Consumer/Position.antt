-- ===== src/Kafka/Consumer/Position.antt =====
-- Where a consumer group of kafka/client.go goes on after its commits.
use go_infra.Prelude.{
  ℕ, zero, suc, ◌<◌, ◌==◌, true, false, Option, none, some, List, [], ◌∷◌, ◌++◌, ◌≡◌, refl, arith,
  if◌then◌else◌,
}
use go_infra.Prelude.Int.{ℤ, pos, negsuc, ltb_ℤ}
use go_infra.Kafka.Client.{Record}
use go_infra.Kafka.Consumer.{Pipeline, receives, begins, succeeds, fails, commits, Reach, later}
use go_infra.Kafka.Consumer.Worker.{Reach-is_single, Reach-Steps, begun}

abbrev pub next_offset : ℤ → ℤ
next_offset (pos n) = pos (suc n)
next_offset (negsuc zero) = pos zero
next_offset (negsuc (suc n)) = negsuc n

-- A commit of a message moves the position of its partition to the offset behind it; the last
-- commit counts.
pub resume_at : ℕ → List Record → Option ℤ
resume_at p [] = none
resume_at p (r ∷ rs) = elim (resume_at p rs) [
  | some x ↦ some x
  | none ↦ if r.partition == p then some (next_offset r.offset) else none
]

resume_at-append :
    (p : ℕ) (rs : List Record) (r : Record)
    → resume_at p (rs ++ r ∷ [])
      ≡ (if r.partition == p then some (next_offset r.offset) else resume_at p rs)
unfolding resume_at
resume_at-append p [] r = ground arith
resume_at-append p (x ∷ xs) r = ground (arith, resume_at-append p xs r)

free_hands :
    {capacity : ℕ} {s : Pipeline} {m : Record}
    → Reach capacity s
    → s.working ≡ some m
    → s.committing ≡ none
free_hands {s = s} r w = ground (arith, Reach-is_single r)

-- Where a consumer that is not closed handles a message and the next one in its queue is of the same
-- partition and has a later offset, it can go on so that the handler of the first returns an error and
-- that of the second does not, the second alone is committed, both have left the queue and the hands
-- of the goroutine that handles, and the position of the group in that partition is past the first:
-- the message whose handler failed is neither tried again nor read again.
pub failed_skipped :
    {capacity : ℕ} {s : Pipeline} (m m2 : Record) (ms : List Record) (a b : ℕ)
    → Reach capacity s
    → s.working ≡ some m
    → s.queue ≡ m2 ∷ ms
    → s.worker_done ≡ false
    → s.closed ≡ false
    → m2.partition ≡ m.partition
    → m.offset ≡ pos a
    → m2.offset ≡ pos b
    → a < b
    → (t : Pipeline) × Reach capacity t
      × (t.handled ≡ (s.handled ++ m ∷ []) ++ m2 ∷ [])
      × (t.failed ≡ s.failed ++ m ∷ [])
      × (t.committed ≡ s.committed ++ m2 ∷ [])
      × (t.queue ≡ ms)
      × (t.working ≡ none)
      × (t.committing ≡ none)
      × ((n : ℤ) × (resume_at m.partition t.committed ≡ some n) × (ltb_ℤ m.offset n ≡ true))
failed_skipped {s = s} m m2 ms a b r w q d open_ same ma mb lt =
    let running = Reach-Steps r (begun m w) in
    let failed = later running (fails m w refl) in
    let received = later failed (receives m2 ms q (refl, free_hands r w, d)) in
    let handled = later (later received (begins m2 refl refl)) (succeeds m2 refl refl) in
    (
      _,
      later handled (commits m2 refl open_),
      refl,
      refl,
      refl,
      refl,
      refl,
      refl,
      (pos (suc b), ground (arith, resume_at-append m.partition s.committed m2), ground arith),
    )
