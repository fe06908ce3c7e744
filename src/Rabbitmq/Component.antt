-- ===== src/Rabbitmq/Component.antt =====
-- `Component` of rabbitmq/component.go: its settings, `LoadFromPrefix`, and the life of its client and
-- its consumers. `none` is a panic.
pub mod Load
pub mod Running
use go_infra.Prelude.{
  ℕ, ◌==◌, Bool, true, false, Option, none, some, List, [], ◌∷◌, ◌++◌, if◌then◌else◌, and_then,
}
use go_infra.Prelude.Text.{Text, codes, is_empty}
use go_infra.Prelude.Net.{join_host_port}
use go_infra.Prelude.Int.{ℤ, pos, ltb_ℤ}
use go_infra.Config.Strconv.{atoi, parse_bool}
use go_infra.Config.Loading.{Loading, load_text, load_parsed}
use go_infra.Config.Property.{PropertyRuntime, required_property}
use go_infra.Rabbitmq.{Error, routing_key_required, Result, ok, err, Amqp}
use go_infra.Rabbitmq.Client
use go_infra.Rabbitmq.Client.{PublishOption, Client, new_client, ensure_connection}
use go_infra.Rabbitmq.Consumer
use go_infra.Rabbitmq.Consumer.{ConsumerOptions, ConsumerRunner, new_consumer_runner}

pub record RabbitComponent : Type 0 where
  pub url : Text
  pub exchange : Text
  pub queue : Text
  pub routing_key : Text
  pub consumer_tag : Text
  pub prefetch : ℤ
  pub auto_ack : Bool
  pub requeue : Bool
  pub client : Option Client
  pub consumer_runners : List ConsumerRunner

abbrev pub set_prefetch : ℤ → RabbitComponent → RabbitComponent
set_prefetch n c = record c { prefetch = if ltb_ℤ n (pos 0) then pos 0 else n }

-- `hostPortFromURL`, of the host and the port that `url.Parse` finds, if the URL is one.
unfoldable pub host_port_from_url : Option (Text × Text) → Text
unfolding join_host_port
host_port_from_url none = []
host_port_from_url (some (host, port)) =
    if is_empty host then [] else join_host_port host (if is_empty port then codes "5672" else port)

abbrev pub host_uris_of : Text → List Text
host_uris_of host_port = if is_empty host_port then [] else host_port ∷ []

module _ (parse_url : Text → Option (Text × Text)) where
  unfoldable pub set_url : Text → Loading RabbitComponent → Loading RabbitComponent
  unfolding host_port_from_url
  set_url url l = record l {
    component = record l.component { url = url };
    host_uris = l.host_uris ++ host_uris_of (host_port_from_url (parse_url url));
  }

load_texts : Text → Loading RabbitComponent → Loading RabbitComponent
load_texts prefix l =
    let l1 = load_text (prefix ++ codes ".exchange") (λ v c. record c { exchange = v }) l in
    let l2 = load_text (prefix ++ codes ".queue") (λ v c. record c { queue = v }) l1 in
    let l3 = load_text (prefix ++ codes ".routing.key") (λ v c. record c { routing_key = v }) l2 in
    load_text (prefix ++ codes ".consumer.tag") (λ v c. record c { consumer_tag = v }) l3

abbrev pub load_auto_ack : Text → Loading RabbitComponent → Option (Loading RabbitComponent)
load_auto_ack prefix =
    load_parsed parse_bool (prefix ++ codes ".auto.ack") (λ b c. record c { auto_ack = b })

abbrev pub load_requeue : Text → Loading RabbitComponent → Option (Loading RabbitComponent)
load_requeue prefix =
    load_parsed parse_bool (prefix ++ codes ".requeue") (λ b c. record c { requeue = b })

load_parsed_all : Text → Loading RabbitComponent → Option (Loading RabbitComponent)
load_parsed_all prefix l =
    let l1 = load_parsed atoi (prefix ++ codes ".prefetch") set_prefetch l in
    and_then (and_then l1 (load_auto_ack prefix)) (load_requeue prefix)

load_url :
    (Text → Option (Text × Text))
    → Text
    → Loading RabbitComponent
    → PropertyRuntime × Option Text
    → Option (Loading RabbitComponent)
unfolding load_texts load_parsed_all
load_url parse_url prefix l (p, none) = none
load_url parse_url prefix l (p, some url) =
    load_parsed_all prefix (load_texts prefix (set_url parse_url url (record l { property = p })))

unfoldable pub load_from_prefix :
    (Text → Option (Text × Text))
    → Text
    → Loading RabbitComponent
    → Option (Loading RabbitComponent)
unfolding load_url
load_from_prefix parse_url prefix l =
    if is_empty prefix
    then none
    else load_url parse_url prefix l (required_property (prefix ++ codes ".url") l.property)

-- `ensureClient`
unfoldable pub ensure_client : RabbitComponent → Option (RabbitComponent × Client)
ensure_client c = elim c.client [
  | some client ↦ some (c, client)
  | none ↦
      if is_empty c.url
      then none
      else some (record c { client = some (new_client c.url) }, new_client c.url)
]

add_runner : RabbitComponent → Option ConsumerRunner → Option RabbitComponent
add_runner c none = none
add_runner c (some r) = some (record c { consumer_runners = c.consumer_runners ++ r ∷ [] })

subscribe_with :
    {H : Type 0}
    → Text
    → Option H
    → ConsumerOptions
    → Option (RabbitComponent × Client)
    → Option RabbitComponent
unfolding add_runner
subscribe_with queue handler o none = none
subscribe_with queue handler o (some (c, client)) =
    add_runner c (new_consumer_runner (some client) queue handler o)

-- `SubscribeQueue`; the handler is `none` where it is nil.
unfoldable pub subscribe_queue :
    {H : Type 0} → Text → Option H → RabbitComponent → Option RabbitComponent
unfolding subscribe_with
subscribe_queue queue none c = none
subscribe_queue queue (some handler) c =
    if is_empty queue
    then none
    else subscribe_with queue (some handler)
        (record {
          consumer_tag = c.consumer_tag;
          auto_ack = c.auto_ack;
          prefetch = c.prefetch;
          requeue = c.requeue;
          args = [];
        })
        (ensure_client c)

module _ {W : Type 0} (lib : Amqp W) where
  -- `PublishTo`
  publish_with :
      Text
      → Text
      → Text
      → List PublishOption
      → W
      → Option (RabbitComponent × Client)
      → Option (RabbitComponent × W × Option Error)
  publish_with exchange key body opts w none = none
  publish_with exchange key body opts w (some (c, client)) =
      let (client', w', e) = Client.publish lib exchange key body opts client w in
      some (record c { client = some client' }, w', e)

  unfoldable pub publish_to :
      Text
      → Text
      → Text
      → List PublishOption
      → RabbitComponent
      → W
      → Option (RabbitComponent × W × Option Error)
  unfolding publish_with
  publish_to exchange key body opts c w =
      if is_empty key
      then some (c, w, some routing_key_required)
      else publish_with exchange key body opts w (ensure_client c)

  -- The loop of `Start`.
  start_runners : List ConsumerRunner → Client → W → Option (List ConsumerRunner × Client × W)
  start_runners [] client w = some ([], client, w)
  start_runners (r ∷ rs) client w = elim (Consumer.start lib r client w) [
    | none ↦ none
    | some (client', r', w') ↦ elim (start_runners rs client' w') [
      | none ↦ none
      | some (rs', client2, w2) ↦ some (r' ∷ rs', client2, w2)
    ]
  ]

  started_runners :
      RabbitComponent → Option (List ConsumerRunner × Client × W) → Option (RabbitComponent × W)
  started_runners c none = none
  started_runners c (some (rs, client, w)) =
      some (record c { consumer_runners = rs; client = some client }, w)

  start_connected : RabbitComponent → Client × W × Result ℕ → Option (RabbitComponent × W)
  unfolding started_runners start_runners
  start_connected c (client, w, err e) = none
  start_connected c (client, w, ok conn) =
      started_runners c (start_runners c.consumer_runners client w)

  start_with : W → Option (RabbitComponent × Client) → Option (RabbitComponent × W)
  unfolding start_connected
  start_with w none = none
  start_with w (some (c, client)) = start_connected c (ensure_connection lib client w)

  unfoldable pub component_start : RabbitComponent → W → Option (RabbitComponent × W)
  unfolding start_with
  component_start c w = elim c.consumer_runners [
    | [] ↦ some (c, w)
    | r ∷ rs ↦ start_with w (ensure_client c)
  ]

  stop_runners : List ConsumerRunner → W → List ConsumerRunner × W
  stop_runners [] w = ([], w)
  stop_runners (r ∷ rs) w =
      let (r', w') = Consumer.stop lib r w in let (rs', w2) = stop_runners rs w' in (r' ∷ rs', w2)

  unfoldable pub component_stop : RabbitComponent → W → RabbitComponent × W
  unfolding stop_runners
  component_stop c w =
      let (rs, w') = stop_runners c.consumer_runners w in (record c { consumer_runners = rs }, w')

  unfoldable pub component_close : RabbitComponent → W → RabbitComponent × W × Option Error
  component_close c w = elim c.client [
    | none ↦ (c, w, none)
    | some client ↦
        let (client', w', e) = Client.close lib client w in (record c { client = none }, w', e)
  ]
