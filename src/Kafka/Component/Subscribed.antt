-- ===== src/Kafka/Component/Subscribed.antt =====
-- The runners of a subscription of kafka/component.go, and the partitions that they read.
use mathlib.Core.List.{append_assoc, append-nil}
use mathlib.Core.Option.{some_inj}
use go_infra.Prelude.{
  ℕ, zero, suc, true, false, some, List, [], ◌∷◌, ◌++◌, ◌≡◌, refl, sym, ap, ◌∙◌, All, map, length,
  Option-cases, Bool-cases, inl, inr, subst, ◌||◌,
}
use go_infra.Prelude.Text.{Text, is_empty}
use go_infra.Prelude.Int.{ℤ}
use go_infra.Kafka.Client.{offset_latest, offset_earliest}
use go_infra.Kafka.Consumer.{
  ConsumerRunner, ConsumerLib, TopicPartition, is_offset, at_offset, new_consumer_runner, subscribe,
}
use go_infra.Kafka.Consumer.Assigned.{
  IsAssigning, IsExplicit, subscribe-assigns, IsFor, new_consumer_runner-IsFor,
}
use go_infra.Kafka.Component.{
  KafkaClient, pool_of, no_brokers, add_runners, subscribe_by_offset, start_runners,
  component_start,
}

-- What the runners of a subscription are: as many as the pool is large, all for the same topic
-- and offset, behind those that were there.
abbrev pub IsSubscribed : Text → ℤ → KafkaClient → List ConsumerRunner → KafkaClient → Type 0
IsSubscribed topic offset k rs k' =
    (k'.consumer_runners ≡ k.consumer_runners ++ rs)
    × (length rs ≡ pool_of k.settings.pool_size)
    × All (IsFor topic offset) rs

module _ {W : Type 0} (lib : ConsumerLib W) where
  add_runners_lem :
      (n : ℕ) (topic : Text) (offset : ℤ) (k k' : KafkaClient) (w w' : W)
      → add_runners lib n topic offset true k w ≡ some (k', w')
      → (rs : List ConsumerRunner) × (k'.consumer_runners ≡ k.consumer_runners ++ rs)
        × (length rs ≡ n)
        × All (IsFor topic offset) rs
  unfolding add_runners
  add_runners_lem zero topic offset k k' w w' e = (
    [],
    ap (λ (x : KafkaClient × W). x.0.consumer_runners) (sym (some_inj.0 e)) ∙ sym (append-nil _),
    refl,
    tt,
  )
  add_runners_lem (suc n) topic offset k k' w w' e =
      elim (Option-cases (
        new_consumer_runner lib k.settings.brokers k.settings.group_id topic offset
          k.settings.queue_capacity true w)) [
            | inl h ↦ cc (rw (h, add_runners) at e)
            | inr ((r, w1), h) ↦
                let k1 = record k { consumer_runners = k.consumer_runners ++ r ∷ [] } in
                let (rs, same, size, all) =
                  add_runners_lem n topic offset k1 k' w1 w' (rw (h, add_runners) at e) in
                (
                  r ∷ rs,
                  same ∙ append_assoc k.consumer_runners (r ∷ []) rs,
                  ap suc size,
                  (new_consumer_runner-IsFor lib _ _ topic offset _ w w1 r h, all),
                )
          ]

  pub subscribe_by_offset_lem :
      (topic : Text) (offset : ℤ) (k k' : KafkaClient) (w w' : W)
      → subscribe_by_offset lib topic offset true k w ≡ some (k', w')
      → (rs : List ConsumerRunner) × IsSubscribed topic offset k rs k'
  unfolding subscribe_by_offset
  subscribe_by_offset_lem topic offset k k' w w' h =
      elim (Bool-cases
        (is_empty topic || (no_brokers k.settings.brokers || is_empty k.settings.group_id))) [
          | inl x ↦ cc (rw x at h)
          | inr x ↦
              let (rs, same, size, all) =
                add_runners_lem (pool_of k.settings.pool_size) topic offset k k' w w' (rw x at h) in
              (rs, (same, size, all))
        ]

-- What is assigned to a runner of a topic with the partitions `ps`.
abbrev pub assigned_to : List ℕ → ConsumerRunner → ℕ × List TopicPartition
assigned_to ps r = (r.consumer, at_offset r ps)

module _ {W : Type 0} (lib : ConsumerLib W) (ps : List ℕ) (log : W → List (ℕ × List TopicPartition))
    (laws : IsAssigning lib ps log) where
  start_runners-assigns :
      (rs : List ConsumerRunner) (w : W)
      → All IsExplicit rs
      → (w' : W) × (start_runners lib rs w ≡ some w') × (log w' ≡ log w ++ map (assigned_to ps) rs)
  unfolding start_runners
  start_runners-assigns [] w h = (w, refl, sym (append-nil _))
  start_runners-assigns (r ∷ rs) w (h, hs) =
      let (fine, logged) = subscribe-assigns lib ps log laws r w h in
      let (w', ran, logged') = start_runners-assigns rs (subscribe lib r w).0 hs in
      (
        w',
        rw (start_runners, fine) ran,
        logged'
            ∙ ap (λ (l : List (ℕ × List TopicPartition)). l ++ map (assigned_to ps) rs) logged
            ∙ append_assoc (log w) (assigned_to ps r ∷ []) (map (assigned_to ps) rs),
      )

  for-IsExplicit :
      (topic : Text) (offset : ℤ) (rs : List ConsumerRunner)
      → is_offset offset offset_latest ≡ false
      → is_offset offset offset_earliest ≡ false
      → All (IsFor topic offset) rs
      → All IsExplicit rs
  for-IsExplicit topic offset [] h h' all = tt
  for-IsExplicit topic offset (r ∷ rs) h h' (is, all) =
      ((rw is.1 h, rw is.1 h'), for-IsExplicit topic offset rs h h' all)

  -- Where the library gives every topic the same partitions and accepts every assignment: a
  -- component without consumers that subscribes to a topic with an explicit offset, and starts,
  -- has as many consumers as its pool is large, and to each of them every partition of the topic
  -- is assigned, from that offset.
  pub pool_reads_all :
      (topic : Text) (offset : ℤ) (k k' : KafkaClient) (w w' : W)
      → is_offset offset offset_latest ≡ false
      → is_offset offset offset_earliest ≡ false
      → k.consumer_runners ≡ []
      → subscribe_by_offset lib topic offset true k w ≡ some (k', w')
      → (rs : List ConsumerRunner) × (w'' : W) × IsSubscribed topic offset k rs k'
        × (component_start lib k' w' ≡ some w'')
        × (log w'' ≡ log w' ++ map (assigned_to ps) rs)
  unfolding component_start
  pool_reads_all topic offset k k' w w' h h' fresh e =
      let (rs, is) = subscribe_by_offset_lem lib topic offset k k' w w' e in
      let (w'', ran, logged) =
        start_runners-assigns rs w' (for-IsExplicit topic offset rs h h' is.2) in
      (
        rs,
        w'',
        is,
        subst (λ x. start_runners lib x w' ≡ some w'') (sym (is.0 ∙ ap (λ x. x ++ rs) fresh)) ran,
        logged,
      )
