-- ===== src/Kafka/Component.antt =====
-- The producer and the consumers of `Component` in kafka/component.go. `none` is a panic.
pub mod Subscribed
use go_infra.Prelude.{
  ℕ, zero, suc, Bool, true, false, ◌||◌, Option, none, some, List, [], ◌∷◌, ◌++◌, if◌then◌else◌,
}
use go_infra.Prelude.Text.{Text, is_empty}
use go_infra.Prelude.Int.{ℤ, pos, leb_ℤ, pos_part}
use go_infra.Kafka
use go_infra.Kafka.{KafkaComponent}
use go_infra.Kafka.Client.{Error, topic_required, Result, ok, err, offset_earliest}
use go_infra.Kafka.Producer.{
  ProducerLib, new_producer, producer_publish, producer_sync_publish, producer_close,
}
use go_infra.Kafka.Consumer.{ConsumerRunner, ConsumerLib, new_consumer_runner, subscribe}

-- A component with its producer and its runners.
pub record KafkaClient : Type 0 where
  pub settings : KafkaComponent
  pub producer : Option ℕ
  pub consumer_runners : List ConsumerRunner

abbrev no_brokers : List Text → Bool
no_brokers [] = true
no_brokers (b ∷ bs) = false

module _ {W : Type 0} (lib : ProducerLib W) where
  with_producer : KafkaClient → Option (ℕ × W) → Option (KafkaClient × ℕ × W)
  with_producer k none = none
  with_producer k (some (p, w)) = some (record k { producer = some p }, p, w)

  unfoldable pub ensure_producer : KafkaClient → W → Option (KafkaClient × ℕ × W)
  unfolding with_producer
  ensure_producer k w = elim k.producer [
    | some p ↦ some (k, p, w)
    | none ↦ with_producer k (new_producer lib k.settings.brokers w)
  ]

  publish_with :
      (ℕ → W → W × Option Error)
      → Option (KafkaClient × ℕ × W)
      → Option (KafkaClient × W × Option Error)
  publish_with send none = none
  publish_with send (some (k, p, w)) = let (w', e) = send p w in some (k, w', e)

  unfoldable pub publish :
      Text → Text → Text → KafkaClient → W → Option (KafkaClient × W × Option Error)
  unfolding publish_with
  publish topic key value k w =
      if is_empty topic
      then some (k, w, some topic_required)
      else publish_with (λ p w'. producer_publish lib p topic key value w') (ensure_producer k w)

  unfoldable pub sync_publish :
      Text → Text → Text → KafkaClient → W → Option (KafkaClient × W × Option Error)
  unfolding publish_with
  sync_publish topic key value k w =
      if is_empty topic
      then some (k, w, some topic_required)
      else publish_with (λ p w'. producer_sync_publish lib p topic key value w')
          (ensure_producer k w)

  unfoldable pub close_producer : KafkaClient → W → KafkaClient × W
  close_producer k w = elim k.producer [
    | none ↦ (k, w)
    | some p ↦ (record k { producer = none }, producer_close lib p w)
  ]

-- The size of the pool, at least one.
abbrev pub pool_of : ℤ → ℕ
pool_of n = if leb_ℤ n (pos 0) then 1 else pos_part n

module _ {W : Type 0} (lib : ConsumerLib W) where
  -- The loop of `SubscribeByOffset`, for as many runners as are left.
  add_runners : ℕ → Text → ℤ → Bool → KafkaClient → W → Option (KafkaClient × W)
  add_runners zero topic offset has_handler k w = some (k, w)
  add_runners (suc n) topic offset has_handler k w =
      elim (new_consumer_runner lib k.settings.brokers k.settings.group_id topic offset
        k.settings.queue_capacity has_handler w) [
          | none ↦ none
          | some (r, w') ↦
              add_runners n topic offset has_handler
                (record k { consumer_runners = k.consumer_runners ++ r ∷ [] }) w'
        ]

  unfoldable pub subscribe_by_offset : Text → ℤ → Bool → KafkaClient → W → Option (KafkaClient × W)
  unfolding add_runners
  subscribe_by_offset topic offset has_handler k w =
      if has_handler
      then if is_empty topic || (no_brokers k.settings.brokers || is_empty k.settings.group_id)
        then none
        else add_runners (pool_of k.settings.pool_size) topic offset has_handler k w
      else none

  unfoldable pub subscribe_earliest : Text → Bool → KafkaClient → W → Option (KafkaClient × W)
  subscribe_earliest topic has_handler k w =
      subscribe_by_offset topic offset_earliest has_handler k w

  -- The loop of `Start`: each runner subscribes, and panics where that fails.
  start_runners : List ConsumerRunner → W → Option W
  start_runners [] w = some w
  start_runners (r ∷ rs) w = elim (subscribe lib r w).1 [
    | some e ↦ none
    | none ↦ start_runners rs (subscribe lib r w).0
  ]

  unfoldable pub component_start : KafkaClient → W → Option W
  unfolding start_runners
  component_start k w = start_runners k.consumer_runners w
