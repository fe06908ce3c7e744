-- ===== src/Kafka/Consumer.antt =====
-- `ConsumerRunner` of kafka/client.go: what it is made of, how it subscribes, and the turns of its two
-- goroutines. `none` is a panic.
pub mod Order
pub mod Assigned
pub mod Worker
pub mod Position
pub mod Await
use go_infra.Prelude.{
  ℕ, ◌+◌, ◌<◌, ◌==◌, Bool, true, false, ◌||◌, Option, none, some, List, [], ◌∷◌, ◌++◌, ◌≡◌,
  if◌then◌else◌, length, map,
}
use go_infra.Prelude.Text.{Text, codes, is_empty}
use go_infra.Prelude.Int.{ℤ, pos, negsuc, ltb_ℤ, pos_part}
use go_infra.Kafka.Client.{
  Error, no_metadata, Result, ok, err, Record, Message, message_of, offset_latest, offset_earliest,
  join_brokers,
}

abbrev pub is_offset : ℤ → ℤ → Bool
is_offset (pos a) (pos b) = a == b
is_offset (negsuc a) (negsuc b) = a == b
is_offset _ _ = false

unfoldable pub offset_reset_policy : ℤ → Text
offset_reset_policy offset =
    if is_offset offset offset_latest then codes "latest" else codes "earliest"

pub record ConsumerConfig : Type 0 where
  pub bootstrap_servers : Text
  pub group_id : Text
  pub auto_offset_reset : Text
  pub enable_auto_commit : Bool

-- A runner before its start; `consumer` is the consumer of the library, by its number.
pub record ConsumerRunner : Type 0 where
  pub consumer : ℕ
  pub topic : Text
  pub offset : ℤ
  pub capacity : ℕ

-- A partition with the offset to start from.
pub record TopicPartition : Type 0 where
  pub topic : Text
  pub partition : ℕ
  pub offset : ℤ

-- The calls of the library that set a consumer up. `partitions_of` is the metadata of one topic:
-- its partitions, or `none` where the topic is not in it.
pub record ConsumerLib (W : Type 0) : Type 0 where
  pub new_consumer : ConsumerConfig → W → W × Result ℕ
  pub subscribe_topics : ℕ → List Text → W → W × Option Error
  pub partitions_of : ℕ → Text → W → W × Result (Option (List ℕ))
  pub assign : ℕ → List TopicPartition → W → W × Option Error

abbrev no_brokers : List Text → Bool
no_brokers [] = true
no_brokers (b ∷ bs) = false

abbrev pub at_offset : ConsumerRunner → List ℕ → List TopicPartition
at_offset r ps = map (λ (p : ℕ). record { topic = r.topic; partition = p; offset = r.offset }) ps

module _ {W : Type 0} where
  runner_of : Text → ℤ → ℤ → W × Result ℕ → Option (ConsumerRunner × W)
  runner_of topic offset capacity (w, err e) = none
  runner_of topic offset capacity (w, ok consumer) = some (
    record { consumer = consumer; topic = topic; offset = offset; capacity = pos_part capacity },
    w,
  )

module _ {W : Type 0} (lib : ConsumerLib W) where
  -- `NewConsumerRunnerWithOffsetAndQueue`; the handler is there or nil.
  unfoldable pub new_consumer_runner :
      List Text → Text → Text → ℤ → ℤ → Bool → W → Option (ConsumerRunner × W)
  unfolding runner_of
  new_consumer_runner brokers group topic offset capacity has_handler w =
      if no_brokers brokers || is_empty group
      then none
      else if is_empty topic
      then none
      else if has_handler
      then runner_of topic offset capacity (
          lib.new_consumer
            (record {
              bootstrap_servers = join_brokers brokers;
              group_id = group;
              auto_offset_reset = offset_reset_policy offset;
              enable_auto_commit = false;
            })
            w)
      else none

  assign_all : ConsumerRunner → W × Result (Option (List ℕ)) → W × Option Error
  assign_all r (w, err e) = (w, some e)
  assign_all r (w, ok none) = (w, some no_metadata)
  assign_all r (w, ok (some ps)) = lib.assign r.consumer (at_offset r ps) w

  unfoldable pub subscribe : ConsumerRunner → W → W × Option Error
  unfolding assign_all
  subscribe r w =
      if is_offset r.offset offset_latest || is_offset r.offset offset_earliest
      then lib.subscribe_topics r.consumer (r.topic ∷ []) w
      else assign_all r (lib.partitions_of r.consumer r.topic w)

-- The two goroutines of `Start`. `running` says that `runningTasks` is one, and `committing` is the
-- message whose handler has succeeded and that is not committed yet. `polled` and `handled` are the
-- messages that were polled and those whose handler has returned, in order; `failed` are the ones whose
-- handler returned an error, and `committed` the ones that were committed. `closed` says that `Stop` has closed the consumer.
pub record Pipeline : Type 0 where
  pub cancelled : Bool
  pub closed : Bool
  pub sending : Option Record
  pub queue : List Record
  pub queue_closed : Bool
  pub working : Option Record
  pub running : Bool
  pub committing : Option Record
  pub worker_done : Bool
  pub polled : List Record
  pub handled : List Record
  pub failed : List Record
  pub committed : List Record

abbrev pub empty_pipeline : Pipeline
empty_pipeline = record {
  cancelled = false;
  closed = false;
  sending = none;
  queue = [];
  queue_closed = false;
  working = none;
  running = false;
  committing = none;
  worker_done = false;
  polled = [];
  handled = [];
  failed = [];
  committed = [];
}

-- The goroutine that handles is at the top of its loop.
abbrev pub IsIdle : Pipeline → Type 0
IsIdle s = (s.working ≡ none) × (s.committing ≡ none) × (s.worker_done ≡ false)

-- A step: of the caller of `Stop`, of the goroutine that polls, or of the one that handles. A send
-- to the queue needs room in its buffer, or the other goroutine at its receive. A commit can fail,
-- and does where the consumer is closed; its error is dropped.
pub data Step (capacity : ℕ) (s : Pipeline) : Pipeline → Type 0 where
  cancels : Step capacity s (record s { cancelled = true })
  closes : s.cancelled ≡ true → Step capacity s (record s { closed = true })
  polls :
      (m : Record)
      → s.queue_closed ≡ false
      → s.sending ≡ none
      → Step capacity s (record s { sending = some m; polled = s.polled ++ m ∷ [] })
  buffers :
      (m : Record)
      → s.sending ≡ some m
      → length s.queue < capacity
      → Step capacity s (record s { sending = none; queue = s.queue ++ m ∷ [] })
  hands_over :
      (m : Record)
      → s.sending ≡ some m
      → s.queue ≡ []
      → IsIdle s
      → Step capacity s (record s { sending = none; working = some m })
  poller_returns :
      s.cancelled ≡ true → Step capacity s (record s { sending = none; queue_closed = true })
  receives :
      (m : Record) (ms : List Record)
      → s.queue ≡ m ∷ ms
      → IsIdle s
      → Step capacity s (record s { queue = ms; working = some m })
  worker_returns : IsIdle s → s.cancelled ≡ true → Step capacity s (record s { worker_done = true })
  worker_drained :
      IsIdle s
      → s.queue ≡ []
      → s.queue_closed ≡ true
      → Step capacity s (record s { worker_done = true })
  begins :
      (m : Record)
      → s.working ≡ some m
      → s.running ≡ false
      → Step capacity s (record s { running = true })
  succeeds :
      (m : Record)
      → s.working ≡ some m
      → s.running ≡ true
      → Step capacity s (record s {
        working = none;
        running = false;
        committing = some m;
        handled = s.handled ++ m ∷ [];
      })
  fails :
      (m : Record)
      → s.working ≡ some m
      → s.running ≡ true
      → Step capacity s (record s {
        working = none;
        running = false;
        handled = s.handled ++ m ∷ [];
        failed = s.failed ++ m ∷ [];
      })
  commits :
      (m : Record)
      → s.committing ≡ some m
      → s.closed ≡ false
      → Step capacity s (record s { committing = none; committed = s.committed ++ m ∷ [] })
  commit_fails :
      (m : Record) → s.committing ≡ some m → Step capacity s (record s { committing = none })

pub data Reach (capacity : ℕ) : Pipeline → Type 0 where
  start : Reach capacity empty_pipeline
  later : {s t : Pipeline} → Reach capacity s → Step capacity s t → Reach capacity t
