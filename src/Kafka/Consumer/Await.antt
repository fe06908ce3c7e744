-- ===== src/Kafka/Consumer/Await.antt =====
-- `AwaitTermination` of a consumer of kafka/client.go, beside its two goroutines. The context that
-- is done, and the time that is over, are steps that can come at any time.
pub mod Settled
use go_infra.Prelude.{ℕ, Bool, true, false, ◌||◌, ◌≡◌}
use go_infra.Kafka.Consumer.{Pipeline, Step}

-- Where the call stands: in its loop over `runningTasks`, at its last select, or returned, because
-- the goroutines have or for another reason.
pub data Waiter : Type 0 where
  counts waits finished gave_up : Waiter

abbrev pub is_waiting : Waiter → Bool
is_waiting counts = true
is_waiting waits = true
is_waiting _ = false

pub record Shutdown : Type 0 where
  pub pipeline : Pipeline
  pub waiter : Waiter

pub data AwaitStep (capacity : ℕ) (s : Shutdown) : Shutdown → Type 0 where
  works :
      {p : Pipeline} → Step capacity s.pipeline p → AwaitStep capacity s (record s { pipeline = p })
  counts_none :
      s.waiter ≡ counts
      → s.pipeline.running ≡ false
      → AwaitStep capacity s (record s { waiter = waits })
  joins :
      s.waiter ≡ waits
      → s.pipeline.queue_closed ≡ true
      → s.pipeline.worker_done ≡ true
      → AwaitStep capacity s (record s { waiter = finished })
  gives_up : is_waiting s.waiter ≡ true → AwaitStep capacity s (record s { waiter = gave_up })

-- Any number of steps.
pub data AwaitRun (capacity : ℕ) (s : Shutdown) : Shutdown → Type 0 where
  here : AwaitRun capacity s s
  after : {t u : Shutdown} → AwaitRun capacity s t → AwaitStep capacity t u → AwaitRun capacity s u

-- A call of `AwaitTermination` that begins.
abbrev pub awaiting : Pipeline → Shutdown
awaiting p = record { pipeline = p; waiter = counts }
