-- ===== src/Tests/KafkaConsumer.antt =====
-- Consumers of kafka/ at concrete messages and partitions.
use go_infra.Prelude.{ℕ, ◌≤◌, ◌≡◌, ◌++◌, true, none, some, List, [], ◌∷◌, refl, length, map, arith}
use go_infra.Prelude.Text.{codes}
use go_infra.Prelude.Int.{ℤ, pos, ltb_ℤ}
use go_infra.Kafka.Client.{Record, ok}
use go_infra.Kafka.Consumer.{
  ConsumerRunner, ConsumerLib, TopicPartition, Pipeline, Reach, start, later, polls, buffers,
  receives, new_consumer_runner,
}
use go_infra.Kafka.Consumer.Order.{pending, handled_in_order}
use go_infra.Kafka.Consumer.Position.{resume_at, failed_skipped}
use go_infra.Kafka.Consumer.Assigned.{IsAssigning}
use go_infra.Kafka.Component.{KafkaClient, subscribe_by_offset, component_start}
use go_infra.Kafka.Component.Subscribed.{IsSubscribed, assigned_to, pool_reads_all}

abbrev pub record_at : ℕ → Record
record_at n = record {
  topic = some (codes "t");
  key = [];
  value = codes "v";
  partition = 0;
  offset = pos n;
}

pub record Run : Type 0 where
  pub last : Pipeline
  pub reach : Reach 2 last

-- Three messages are polled; the first is handled, the other two wait in the queue.
abbrev pub three : Run
three = record {
  last = _;
  reach =
      later
        (later
          (later
            (later
              (later
                (later (later start (polls (record_at 5) refl refl))
                  (buffers (record_at 5) refl (omega arith)))
                (receives (record_at 5) [] refl (refl, refl, refl)))
              (polls (record_at 6) refl refl))
            (buffers (record_at 6) refl (omega arith)))
          (polls (record_at 7) refl refl))
        (buffers (record_at 7) refl (omega arith));
}

handled_in_order_example :
    ((dropped : List Record) × (three.last.polled
        ≡ three.last.handled ++ (pending three.last ++ dropped)))
    × (length three.last.queue ≤ 2)
handled_in_order_example = handled_in_order three.reach

failed_skipped_example :
    (t : Pipeline) × Reach 2 t
    × (t.handled ≡ record_at 5 ∷ record_at 6 ∷ [])
    × (t.failed ≡ record_at 5 ∷ [])
    × (t.committed ≡ record_at 6 ∷ [])
    × (t.queue ≡ record_at 7 ∷ [])
    × (t.working ≡ none)
    × (t.committing ≡ none)
    × ((n : ℤ) × (resume_at 0 t.committed ≡ some n) × (ltb_ℤ (pos 5) n ≡ true))
failed_skipped_example =
    failed_skipped (record_at 5) (record_at 6) (record_at 7 ∷ []) 5 6 three.reach refl refl refl
      refl refl refl refl (omega arith)

-- A library that logs what is assigned; every topic has the partitions 0 and 1.
abbrev Assignments : Type 0
Assignments = List (ℕ × List TopicPartition)

abbrev logging : ConsumerLib Assignments
logging = record {
  new_consumer = λ config w. (w, ok (length w));
  subscribe_topics = λ c topics w. (w, none);
  partitions_of = λ c topic w. (w, ok (some (0 ∷ 1 ∷ [])));
  assign = λ c tps w. (w ++ (c, tps) ∷ [], none);
}

logging-IsAssigning : IsAssigning logging (0 ∷ 1 ∷ []) (λ w. w)
logging-IsAssigning = record {
  lists = λ c topic w. refl;
  lists_only = λ c topic w. refl;
  assigns = λ c tps w. (refl, refl);
}

abbrev two_in_pool : KafkaClient
two_in_pool = record {
  settings = record {
    brokers = codes "a:1" ∷ [];
    group_id = codes "g";
    pool_size = pos 2;
    queue_capacity = pos 0;
  };
  producer = none;
  consumer_runners = [];
}

abbrev runner : ConsumerRunner
runner = record { consumer = 0; topic = codes "t"; offset = pos 9; capacity = 0 }

abbrev subscribed : KafkaClient
subscribed = record two_in_pool { consumer_runners = runner ∷ runner ∷ [] }

pool_reads_all_example :
    (rs : List ConsumerRunner) × (w : Assignments) × IsSubscribed
      (codes "t")
      (pos 9)
      two_in_pool
      rs
      subscribed
    × (component_start logging subscribed [] ≡ some w)
    × (w ≡ [] ++ map (assigned_to (0 ∷ 1 ∷ [])) rs)
unfolding subscribe_by_offset new_consumer_runner
pool_reads_all_example =
    pool_reads_all logging (0 ∷ 1 ∷ []) (λ l. l) logging-IsAssigning (codes "t") (pos 9) two_in_pool
      subscribed [] [] refl refl refl refl
