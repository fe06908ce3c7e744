-- ===== src/Tests/RabbitClient.antt =====
-- The client and the consumers of rabbitmq/ at a concrete library.
use go_infra.Prelude.{
  ℕ, ◌==◌, ◌≡◌, ◌++◌, false, true, Bool, none, some, List, [], ◌∷◌, refl, map, arith, if◌then◌else◌,
}
use go_infra.Prelude.Text.{codes}
use go_infra.Prelude.Int.{pos}
use go_infra.Config.Loading.{Loading}
use go_infra.Config.Property.{PropertyStore}
use go_infra.Config.Property.Usage.{fresh}
use go_infra.Rabbitmq.{Amqp, ok, external, Delivery}
use go_infra.Rabbitmq.Client.{Client, new_client}
use go_infra.Rabbitmq.Client.Channels.{
  OpensOn, IsCoherent, connects, publishes, notified, closes, run_calls, new_client-IsCoherent,
  run_calls-Coherent,
}
use go_infra.Rabbitmq.Consumer.{
  ConsumerOptions, Handler, ConsumerRunner, settle, handle, consume_all, stop,
}
use go_infra.Rabbitmq.Consumer.Settled.{
  Settlement, acked, nacked, tag_of, IsBroker, IsQuiet, verdicts, consume_all-log, stop_unsettled,
}
use go_infra.Rabbitmq.Component.{RabbitComponent}

-- One channel: whether it is closed, and what the broker was told on it.
record Broker : Type 0 where
  log : List Settlement
  closed : Bool

abbrev tell : Settlement → Broker → Broker
tell s w = if w.closed then w else record w { log = w.log ++ s ∷ [] }

abbrev amqp : Amqp Broker
amqp = record {
  dial = λ url w. (w, ok 7);
  is_closed = λ conn w. false;
  open_channel = λ conn w. (w, ok conn);
  close_connection = λ conn w. (w, none);
  close_channel = λ ch w. (if ch == 7 then record w { closed = true } else w, none);
  publish = λ ch exchange key mandatory immediate p w. (w, none);
  qos = λ ch n w. (w, none);
  consume = λ ch queue tag auto args w. (w, none);
  cancel = λ ch tag w. w;
  ack = λ tag w. tell (acked tag) w;
  nack = λ tag requeue w. tell (nacked tag requeue) w;
}

abbrev quiet_broker : Broker
quiet_broker = record { log = []; closed = false }

amqp-OpensOn : OpensOn amqp (λ ch. ch)
amqp-OpensOn = λ conn ch w e. cc

amqp-IsBroker : IsBroker amqp 7 (λ w. w.log) (λ w. w.closed)
amqp-IsBroker = record {
  ack_arrives = λ tag w h. rw h refl;
  nack_arrives = λ tag requeue w h. rw h refl;
  ack_open = λ tag w. ground arith;
  nack_open = λ tag requeue w. ground arith;
  ack_lost = λ tag w h. rw h refl;
  nack_lost = λ tag requeue w h. rw h refl;
  close_closes = λ w. refl;
  close_keeps = λ w. refl;
  cancel_keeps = λ consumer w. refl;
}

-- A handler that refuses what was delivered before.
abbrev strict : Handler Broker
strict m w = (w, if m.redelivered then some (external (codes "again")) else none)

strict-IsQuiet : IsQuiet strict (λ w. w.log) (λ w. w.closed)
strict-IsQuiet = record { tells_nothing = λ m w. refl; leaves_open = λ m w. refl }

abbrev manual : ConsumerOptions
manual = record {
  consumer_tag = codes "c";
  auto_ack = false;
  prefetch = pos 5;
  requeue = true;
  args = [];
}

abbrev delivery : ℕ → Bool → Delivery
delivery tag again = record {
  body = codes "b";
  headers = [];
  content_type = [];
  exchange = [];
  routing_key = codes "q";
  delivery_tag = tag;
  redelivered = again;
}

run_calls-Coherent_example :
    IsCoherent
      (λ ch. ch)
      (run_calls amqp
        (λ ch. ch)
        amqp-OpensOn
        (publishes [] (codes "q") (codes "b") [] ∷ notified 7 ∷ connects ∷ closes ∷ [])
        (new_client (codes "amqp://h"), quiet_broker)).0
run_calls-Coherent_example =
    run_calls-Coherent amqp (λ ch. ch) amqp-OpensOn
      (publishes [] (codes "q") (codes "b") [] ∷ notified 7 ∷ connects ∷ closes ∷ [])
      (new_client (codes "amqp://h"), quiet_broker)
      (new_client-IsCoherent (λ ch. ch) (codes "amqp://h"))

consume_all-log_example :
    ((consume_all amqp strict manual (delivery 1 false ∷ delivery 2 true ∷ []) quiet_broker).log
      ≡ acked 1 ∷ nacked 2 true ∷ [])
    × (map tag_of (acked 1 ∷ nacked 2 true ∷ []) ≡ 1 ∷ 2 ∷ [])
unfolding verdicts handle consume_all
consume_all-log_example =
    consume_all-log amqp strict manual 7 (λ w. w.log) (λ w. w.closed) amqp-IsBroker strict-IsQuiet
      (delivery 1 false ∷ delivery 2 true ∷ []) quiet_broker refl refl

abbrev consuming : ConsumerRunner
consuming = record {
  queue = codes "q";
  options = manual;
  cancelled = false;
  ch = some 7;
  started = true;
}

stop_unsettled_example :
    ((stop amqp consuming (handle amqp strict manual (delivery 1 false) quiet_broker)).1.log
      ≡ acked 1 ∷ [])
    × ((settle amqp manual 1 none (stop amqp consuming quiet_broker).1).log ≡ [])
    × ((handle amqp strict manual (delivery 1 false) (stop amqp consuming quiet_broker).1).log ≡ [])
stop_unsettled_example =
    stop_unsettled amqp strict consuming 7 (λ w. w.log) (λ w. w.closed) amqp-IsBroker strict-IsQuiet
      (delivery 1 false) quiet_broker refl refl refl

abbrev idle : RabbitComponent
idle = record {
  url = [];
  exchange = [];
  queue = [];
  routing_key = [];
  consumer_tag = [];
  prefetch = pos 0;
  auto_ack = false;
  requeue = false;
  client = none;
  consumer_runners = [];
}

abbrev store : PropertyStore
store = record {
  values =
      (codes "r.url", codes "amqp://h")
      ∷ (codes "r.queue", codes "q")
      ∷ (codes "r.prefetch", codes "-3")
      ∷ (codes "r.requeue", codes "true")
      ∷ [];
}

abbrev loading : Loading RabbitComponent
loading = record { component = idle; property = fresh store; host_uris = [] }

-- A component with one consumer, and what its start leaves.
abbrev waiting : RabbitComponent
waiting = record idle {
  url = codes "amqp://h";
  consumer_runners = record consuming { ch = none; started = false } ∷ [];
}

abbrev client : Client
client = record {
  url = codes "amqp://h";
  conn = some 7;
  publish_ch = none;
  publish_ch_open = false;
}

abbrev running : RabbitComponent
running = record waiting { client = some client; consumer_runners = consuming ∷ [] }
