-- ===== src/Kafka/Consumer/Await/Settled.antt =====
-- What `AwaitTermination` of kafka/client.go has waited for.
use go_infra.Prelude.{
  ◌⊎◌, ℕ, Bool, true, false, ◌&&◌, none, ◌≡◌, refl, arith, ◌∙◌, Option-cases, Bool-cases, inl, inr,
}
use go_infra.Kafka.Consumer.{
  Pipeline, Step, cancels, closes, polls, buffers, hands_over, poller_returns, receives,
  worker_returns, worker_drained, begins, succeeds, fails, commits, commit_fails, Reach, later,
}
use go_infra.Kafka.Consumer.Worker.{
  is_none, Reach-is_single, Steps, here, then_step, begun, Reach-Steps,
}
use go_infra.Kafka.Consumer.Await.{
  Waiter, counts, waits, finished, gave_up, is_waiting, Shutdown, AwaitStep, works, counts_none,
  joins, gives_up, AwaitRun, after, awaiting,
}

-- Both goroutines have returned, and there is nothing in their hands.
abbrev is_settled : Pipeline → Bool
is_settled s =
    s.queue_closed
    && s.worker_done
    && is_none s.sending
    && is_none s.working
    && is_none s.committing

-- What was polled, handled and committed is the same.
abbrev pub IsSame : Pipeline → Pipeline → Type 0
IsSame s t = (t.polled ≡ s.polled) × (t.handled ≡ s.handled) × (t.committed ≡ s.committed)

Step-is_settled :
    {capacity : ℕ} {s t : Pipeline}
    → Step capacity s t
    → is_settled s ≡ true
    → (is_settled t ≡ true) × IsSame s t
Step-is_settled cancels b = (b, (refl, refl, refl))
Step-is_settled (closes c) b = (b, (refl, refl, refl))
Step-is_settled {s} (polls m o i) b = ground arith
Step-is_settled {s} (buffers m e r) b = ground arith
Step-is_settled {s} (hands_over m e q (w, f, d)) b = ground arith
Step-is_settled {s} (poller_returns c) b = ground arith
Step-is_settled {s} (receives m ms q (w, f, d)) b = ground arith
Step-is_settled {s} (worker_returns (w, f, d) c) b = ground arith
Step-is_settled {s} (worker_drained (w, f, d) q c) b = ground arith
Step-is_settled {s} (begins m w r) b = ground arith
Step-is_settled {s} (succeeds m w r) b = ground arith
Step-is_settled {s} (fails m w r) b = ground arith
Step-is_settled {s} (commits m f c) b = ground arith
Step-is_settled {s} (commit_fails m f) b = ground arith

Steps-is_settled :
    {capacity : ℕ} {s t : Pipeline}
    → Steps capacity s t
    → is_settled s ≡ true
    → (is_settled t ≡ true) × IsSame s t
Steps-is_settled here b = (b, (refl, refl, refl))
Steps-is_settled (then_step more st) b =
    let (c, (p, h, k)) = Steps-is_settled more b in
    let (d, (q, i, l)) = Step-is_settled st c in (d, (q ∙ p, i ∙ h, l ∙ k))

-- A call that has returned because the goroutines have.
abbrev is_finished : Waiter → Bool
is_finished finished = true
is_finished _ = false

record Sound (capacity : ℕ) (s : Shutdown) : Type 0 where
  reach : Reach capacity s.pipeline
  over : is_finished s.waiter ≡ true → is_settled s.pipeline ≡ true

AwaitStep-Sound :
    {capacity : ℕ} {s t : Shutdown} → AwaitStep capacity s t → Sound capacity s → Sound capacity t
AwaitStep-Sound (works st) i = record {
  reach = later i.reach st;
  over = λ f. (Step-is_settled st (i.over f)).0;
}
AwaitStep-Sound (counts_none c r) i = record { reach = i.reach; over = λ f. cc }
AwaitStep-Sound {s = s} (joins w q d) i = record {
  reach = i.reach;
  over = λ f. ground (arith, Reach-is_single i.reach);
}
AwaitStep-Sound (gives_up w) i = record { reach = i.reach; over = λ f. cc }

AwaitRun-Sound :
    {capacity : ℕ} {p : Pipeline} {s : Shutdown}
    → Reach capacity p
    → AwaitRun capacity (awaiting p) s
    → Sound capacity s
AwaitRun-Sound r AwaitRun.here = record { reach = r; over = λ f. cc }
AwaitRun-Sound r (after run st) = AwaitStep-Sound st (AwaitRun-Sound r run)

-- Where `AwaitTermination` has returned because the goroutines have, over any interleaving: no
-- message is polled, handled or committed after that, whatever steps follow.
pub finished_settled :
    {capacity : ℕ} {p t : Pipeline} {s : Shutdown}
    → Reach capacity p
    → AwaitRun capacity (awaiting p) s
    → s.waiter ≡ finished
    → Steps capacity s.pipeline t
    → IsSame s.pipeline t
finished_settled r run f more =
    let i = AwaitRun-Sound r run in
    let (_, same) = Steps-is_settled more (i.over (rw f refl)) in same

-- What a consumer that is stopped can come to.
record Stopped (capacity : ℕ) (s t : Pipeline) : Type 0 where
  steps : Steps capacity s t
  cancelled : t.cancelled ≡ true
  idle : t.working ≡ none
  free : t.committing ≡ none

-- The handler that is running can return, with an error.
puts_down :
    {capacity : ℕ} {s : Pipeline}
    → Reach capacity s
    → s.cancelled ≡ true
    → (t : Pipeline) × Stopped capacity s t
puts_down {s = s} r c = elim (Option-cases s.working) [
  | inl none_there ↦ elim (Option-cases s.committing) [
    | inl free ↦ (s, record { steps = here; cancelled = c; idle = none_there; free = free })
    | inr (m, f) ↦ (
      _,
      record {
        steps = then_step here (commit_fails m f);
        cancelled = c;
        idle = none_there;
        free = refl;
      },
    )
  ]
  | inr (m, w) ↦ (
    _,
    record {
      steps = then_step (begun m w) (fails m w refl);
      cancelled = c;
      idle = refl;
      free = ground (arith, Reach-is_single r);
    },
  )
]

ends :
    {capacity : ℕ} {s t : Pipeline}
    → Stopped capacity s t
    → (u : Pipeline) × Steps capacity s u
      × (u.queue_closed ≡ true)
      × (u.worker_done ≡ true)
      × (u.working ≡ none)
ends {s = s} {t} e = elim (Bool-cases t.worker_done) [
  | inl done ↦ (_, then_step e.steps (poller_returns e.cancelled), refl, done, e.idle)
  | inr busy ↦ (
    _,
    then_step (then_step e.steps (worker_returns (e.idle, e.free, busy) e.cancelled))
        (poller_returns e.cancelled),
    refl,
    refl,
    e.idle,
  )
]

works_on :
    {capacity : ℕ} {s : Shutdown} {u : Pipeline}
    → Steps capacity s.pipeline u
    → AwaitRun capacity s (record s { pipeline = u })
works_on here = AwaitRun.here
works_on (then_step more st) = after (works_on more) (works st)

waiting_cases : (w : Waiter) → is_waiting w ≡ true → (w ≡ counts) ⊎ (w ≡ waits)
waiting_cases counts h = inl refl
waiting_cases waits h = inr refl
waiting_cases finished h = absurd cc
waiting_cases gave_up h = absurd cc

-- Where `Stop` was called and `AwaitTermination` has not returned, over any interleaving: the
-- goroutines can go on so that both return, and the call returns because they have.
pub stop_settles :
    {capacity : ℕ} {p : Pipeline} {s : Shutdown}
    → Reach capacity p
    → AwaitRun capacity (awaiting p) s
    → s.pipeline.cancelled ≡ true
    → is_waiting s.waiter ≡ true
    → (t : Shutdown) × AwaitRun capacity s t × (t.waiter ≡ finished)
stop_settles {s = s} r run c w =
    let i = AwaitRun-Sound r run in
    let (u, steps, q, d, idle) = ends (puts_down i.reach c).1 in
    let quiet : u.running ≡ false = ground (arith, Reach-is_single (Reach-Steps i.reach steps)) in
    let at_end = works_on steps in
    elim (waiting_cases s.waiter w) [
      | inl at_loop ↦ (_, after (after at_end (counts_none at_loop quiet)) (joins refl q d), refl)
      | inr at_select ↦ (_, after at_end (joins at_select q d), refl)
    ]
