-- ===== src/Rabbitmq/Consumer.antt =====
-- `ConsumerRunner` of rabbitmq/client.go: its start, the loop over its deliveries, and its stop.
-- `none` is a panic.
pub mod Settled
pub mod Started
use go_infra.Prelude.{ℕ, Bool, true, false, Option, none, some, List, [], ◌∷◌, if◌then◌else◌}
use go_infra.Prelude.Text.{Text, is_empty}
use go_infra.Prelude.Int.{ℤ, pos, ltb_ℤ}
use go_infra.Rabbitmq.{Error, Result, ok, err, Headers, Delivery, Amqp}
use go_infra.Rabbitmq.Client
use go_infra.Rabbitmq.Client.{Client}

pub record ConsumerOptions : Type 0 where
  pub consumer_tag : Text
  pub auto_ack : Bool
  pub prefetch : ℤ
  pub requeue : Bool
  pub args : Headers

-- What a handler gets.
pub record Message : Type 0 where
  pub body : Text
  pub headers : Headers
  pub content_type : Text
  pub exchange : Text
  pub routing_key : Text
  pub delivery_tag : ℕ
  pub redelivered : Bool

abbrev pub Handler : Type 0 → Type 0
Handler W = Message → W → W × Option Error

-- `cancelled` says whether `cancel` was called. The client and the handler are kept beside the
-- runner; the counter of running tasks, which only `AwaitTermination` reads, is left out.
pub record ConsumerRunner : Type 0 where
  pub queue : Text
  pub options : ConsumerOptions
  pub cancelled : Bool
  pub ch : Option ℕ
  pub started : Bool

-- `NewConsumerRunner`; the client and the handler are `none` where they are nil.
unfoldable pub new_consumer_runner :
    {C H : Type 0} → Option C → Text → Option H → ConsumerOptions → Option ConsumerRunner
new_consumer_runner none queue handler options = none
new_consumer_runner (some client) queue none options = none
new_consumer_runner (some client) queue (some handler) options =
    if is_empty queue
    then none
    else some
        (record { queue = queue; options = options; cancelled = false; ch = none; started = false })

abbrev pub message_of : Delivery → Message
message_of d = record {
  body = d.body;
  headers = d.headers;
  content_type = d.content_type;
  exchange = d.exchange;
  routing_key = d.routing_key;
  delivery_tag = d.delivery_tag;
  redelivered = d.redelivered;
}

module _ {W : Type 0} (lib : Amqp W) where
  -- `ch.Qos`, where the prefetch count is positive
  set_prefetch : ℕ → ℤ → W → W × Option Error
  set_prefetch ch n w = if ltb_ℤ (pos 0) n then lib.qos ch n w else (w, none)

  consume_on : ConsumerRunner → ℕ → W × Option Error → Option W
  consume_on r ch (w, some e) = none
  consume_on r ch (w, none) =
      let (w', e) =
        lib.consume ch r.queue r.options.consumer_tag r.options.auto_ack r.options.args w in
      elim e [ none ↦ some w' | some x ↦ none ]

  start_on : ConsumerRunner → Client × W × Result ℕ → Option (Client × ConsumerRunner × W)
  unfolding consume_on set_prefetch
  start_on r (c, w, err e) = none
  start_on r (c, w, ok ch) = elim (consume_on r ch (set_prefetch ch r.options.prefetch w)) [
    | none ↦ none
    | some w' ↦ some (c, record r { ch = some ch }, w')
  ]

  -- `Start` up to the goroutine of its loop.
  unfoldable pub start : ConsumerRunner → Client → W → Option (Client × ConsumerRunner × W)
  unfolding start_on
  start r c w =
      if r.started
      then some (c, r, w)
      else start_on (record r { started = true }) (Client.channel lib c w)

  -- `Ack(false)` or `Nack(false, requeue)`
  abbrev pub settle : ConsumerOptions → ℕ → Option Error → W → W
  settle o tag none w = if o.auto_ack then w else lib.ack tag w
  settle o tag (some e) w = if o.auto_ack then w else lib.nack tag o.requeue w

  -- `handle`
  unfoldable pub handle : Handler W → ConsumerOptions → Delivery → W → W
  handle handler o d w = let (w', e) = handler (message_of d) w in settle o d.delivery_tag e w'

  -- The loop while the context is not done: the deliveries in their order. It ends with them, when
  -- the channel of deliveries is closed; where the context is done it takes only some of them.
  unfoldable pub consume_all : Handler W → ConsumerOptions → List Delivery → W → W
  consume_all handler o [] w = w
  consume_all handler o (d ∷ ds) w = consume_all handler o ds (handle handler o d w)

  unfoldable pub stop : ConsumerRunner → W → ConsumerRunner × W
  stop r w = elim r.ch [
    | none ↦ (record r { cancelled = true }, w)
    | some ch ↦
        let w1 =
          if is_empty r.options.consumer_tag then w else lib.cancel ch r.options.consumer_tag w in
        (record r { cancelled = true }, (lib.close_channel ch w1).0)
  ]
