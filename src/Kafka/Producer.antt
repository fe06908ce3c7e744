-- ===== src/Kafka/Producer.antt =====
-- `Producer` of kafka/client.go. The library and the waits are parameters over the world `W`.
use go_infra.Prelude.{ℕ, Option, none, some, List, [], ◌∷◌}
use go_infra.Prelude.Text.{Text}
use go_infra.Kafka.Client.{
  Error, unexpected_event, Result, ok, err, Record, Message, message_of, join_brokers,
}

-- What ends the wait of `SyncPublish`: the context, the report on the message, or another event.
pub data Event : Type 0 where
  context_ended : Error → Event
  reported : Option Error → Event
  unexpected : Event

pub record ProducerLib (W : Type 0) : Type 0 where
  pub new_producer : Text → W → W × Result ℕ
  pub produce : ℕ → Text → Text → Text → W → W × Option Error
  pub context_done : W → Option Error
  pub await_event : ℕ → W → W × Event
  pub flush : ℕ → W → W
  pub close : ℕ → W → W

-- An event of the producer: a message with its error, or something else.
pub data ProducerEvent : Type 0 where
  delivered : Record → Option Error → ProducerEvent
  other_event : ProducerEvent

abbrev pub OnDelivery : Type 0 → Type 0
OnDelivery W = Message → Option Error → W → W

abbrev pub event_error : Event → Option Error
event_error (context_ended e) = some e
event_error (reported e) = e
event_error unexpected = some unexpected_event

module _ {W : Type 0} (lib : ProducerLib W) where
  made : W × Result ℕ → Option (ℕ × W)
  made (w, err e) = none
  made (w, ok p) = some (p, w)

  -- `NewProducerWithDelivery` up to its goroutine; `none` is a panic.
  unfoldable pub new_producer : List Text → W → Option (ℕ × W)
  unfolding made
  new_producer [] w = none
  new_producer (b ∷ bs) w = made (lib.new_producer (join_brokers (b ∷ bs)) w)

  unfoldable pub producer_publish : ℕ → Text → Text → Text → W → W × Option Error
  producer_publish p topic key value w =
      let (w', e) = lib.produce p topic key value w in
      (w', elim e [ some x ↦ some x | none ↦ lib.context_done w' ])

  sync_end : ℕ → W × Option Error → W × Option Error
  sync_end p (w, some e) = (w, some e)
  sync_end p (w, none) = let (w', event) = lib.await_event p w in (w', event_error event)

  unfoldable pub producer_sync_publish : ℕ → Text → Text → Text → W → W × Option Error
  unfolding sync_end
  producer_sync_publish p topic key value w = sync_end p (lib.produce p topic key value w)

  -- `Close`; the wait for the delivery loop has no effect of its own.
  unfoldable pub producer_close : ℕ → W → W
  producer_close p w = lib.close p (lib.flush p w)

-- The delivery loop over the events of a producer.
unfoldable pub deliver_all : {W : Type 0} → Option (OnDelivery W) → List ProducerEvent → W → W
deliver_all callback [] w = w
deliver_all callback (other_event ∷ es) w = deliver_all callback es w
deliver_all none (delivered m e ∷ es) w = deliver_all none es w
deliver_all (some f) (delivered m e ∷ es) w = deliver_all (some f) es (f (message_of m) e w)
