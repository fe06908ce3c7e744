-- ===== src/Kafka/Consumer/Worker.antt =====
-- The goroutine of a consumer of kafka/client.go that handles: one message at a time.
use go_infra.Prelude.{
  ℕ, Bool, true, false, not, ◌&&◌, ◌||◌, Option, none, some, ◌≡◌, refl, arith, ap, subst,
  Bool-cases, inl, inr,
}
use go_infra.Kafka.Client.{Record}
use go_infra.Kafka.Consumer.{
  Pipeline, Step, cancels, closes, polls, buffers, hands_over, poller_returns, receives,
  worker_returns, worker_drained, begins, succeeds, fails, commits, commit_fails, Reach, start,
  later,
}

abbrev pub is_none : Option Record → Bool
is_none none = true
is_none (some m) = false

-- No message is handled while another waits for its commit, and a goroutine that has returned has
-- nothing in its hands.
abbrev pub is_single : Pipeline → Bool
is_single s =
    (is_none s.working || is_none s.committing)
    && (not s.worker_done || is_none s.working && is_none s.committing)
    && (not s.queue_closed || is_none s.sending)
    && (not s.running || not (is_none s.working))

Step-is_single :
    {capacity : ℕ} {s t : Pipeline} → Step capacity s t → is_single s ≡ true → is_single t ≡ true
Step-is_single cancels b = b
Step-is_single (closes c) b = b
Step-is_single {s} (polls m o i) b = ground arith
Step-is_single {s} (buffers m e r) b = ground arith
Step-is_single {s} (hands_over m e q (w, f, d)) b = ground arith
Step-is_single {s} (poller_returns c) b = ground arith
Step-is_single {s} (receives m ms q (w, f, d)) b = ground arith
Step-is_single {s} (worker_returns (w, f, d) c) b = ground arith
Step-is_single {s} (worker_drained (w, f, d) q c) b = ground arith
Step-is_single {s} (begins m w r) b = ground arith
Step-is_single {s} (succeeds m w r) b = ground arith
Step-is_single {s} (fails m w r) b = ground arith
Step-is_single {s} (commits m f c) b = ground arith
Step-is_single {s} (commit_fails m f) b = ground arith

pub Reach-is_single : {capacity : ℕ} {s : Pipeline} → Reach capacity s → is_single s ≡ true
Reach-is_single start = refl
Reach-is_single (later r st) = Step-is_single st (Reach-is_single r)

-- Any number of steps.
pub data Steps (capacity : ℕ) (s : Pipeline) : Pipeline → Type 0 where
  here : Steps capacity s s
  then_step : {t u : Pipeline} → Steps capacity s t → Step capacity t u → Steps capacity s u

pub Reach-Steps :
    {capacity : ℕ} {s t : Pipeline} → Reach capacity s → Steps capacity s t → Reach capacity t
Reach-Steps r here = r
Reach-Steps r (then_step more st) = later (Reach-Steps r more) st

-- A handler that is to be called, or runs already, can be running.
pub begun :
    {capacity : ℕ} {s : Pipeline} (m : Record)
    → s.working ≡ some m
    → Steps capacity s (record s { running = true })
begun {capacity} {s} m w = elim (Bool-cases s.running) [
  | inl h ↦ subst (Steps capacity s) (ap (λ b. record s { running = b }) h) here
  | inr h ↦ then_step here (begins m w h)
]
