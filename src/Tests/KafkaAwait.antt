-- ===== src/Tests/KafkaAwait.antt =====
-- The end of a consumer of kafka/ that handles a message when it is stopped.
use go_infra.Prelude.{◌≡◌, [], ◌∷◌, refl}
use go_infra.Kafka.Consumer.{cancels, closes, poller_returns, worker_returns, begins, fails}
use go_infra.Kafka.Consumer.Worker.{here, then_step}
use go_infra.Kafka.Consumer.Await.{
  Shutdown, finished, works, counts_none, joins, AwaitRun, after, awaiting,
}
use go_infra.Kafka.Consumer.Await.Settled.{finished_settled, stop_settles}
use go_infra.Tests.KafkaConsumer.{record_at, three}

record Ended : Type 0 where
  last : Shutdown
  run : AwaitRun 2 (awaiting three.last) last

-- `Stop` is called while the first message is about to be handled.
abbrev stopping : Ended
stopping = record { last = _; run = after AwaitRun.here (works cancels) }

abbrev ended : Ended
ended = record {
  last = _;
  run =
      after
        (after
          (after
            (after
              (after (after stopping.run (works (begins (record_at 5) refl refl)))
                (works (fails (record_at 5) refl refl)))
              (works (worker_returns (refl, refl, refl) refl)))
            (works (poller_returns refl)))
          (counts_none refl refl))
        (joins refl refl refl);
}

finished_settled_example :
    (ended.last.pipeline.polled ≡ record_at 5 ∷ record_at 6 ∷ record_at 7 ∷ [])
    × (ended.last.pipeline.handled ≡ record_at 5 ∷ [])
    × (ended.last.pipeline.committed ≡ [])
finished_settled_example =
    finished_settled three.reach ended.run refl (then_step here (closes refl))

stop_settles_example : (t : Shutdown) × AwaitRun 2 stopping.last t × (t.waiter ≡ finished)
stop_settles_example = stop_settles three.reach stopping.run refl refl
