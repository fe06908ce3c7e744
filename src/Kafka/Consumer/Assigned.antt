-- ===== src/Kafka/Consumer/Assigned.antt =====
-- A consumer of kafka/client.go with an explicit offset reads every partition of its topic.
use mathlib.Core.Option.{some_inj}
use go_infra.Prelude.{
  sym, ◌||◌, Bool-cases, inl, inr, ℕ, true, false, none, some, List, [], ◌∷◌, ◌++◌, ◌≡◌, ap, ◌∙◌,
}
use go_infra.Prelude.Text.{Text, is_empty}
use go_infra.Prelude.Int.{ℤ}
use go_infra.Kafka.Client.{Result, ok, err, offset_latest, offset_earliest}
use go_infra.Kafka.Consumer.{
  ConsumerRunner, ConsumerLib, TopicPartition, no_brokers, is_offset, at_offset, runner_of,
  new_consumer_runner, assign_all, subscribe,
}

-- A consumer whose topic has the partitions `ps`, and a log of what was assigned to which consumer.
pub record IsAssigning {W : Type 0} (lib : ConsumerLib W) (ps : List ℕ)
    (log : W → List (ℕ × List TopicPartition)) : Type 0 where
  pub lists : (c : ℕ) (topic : Text) (w : W) → (lib.partitions_of c topic w).1 ≡ ok (some ps)
  pub lists_only : (c : ℕ) (topic : Text) (w : W) → log (lib.partitions_of c topic w).0 ≡ log w
  pub assigns :
      (c : ℕ) (tps : List TopicPartition) (w : W)
      → ((lib.assign c tps w).1 ≡ none) × (log (lib.assign c tps w).0 ≡ log w ++ (c, tps) ∷ [])

-- An offset other than the two that stand for the latest and the earliest.
abbrev pub IsExplicit : ConsumerRunner → Type 0
IsExplicit r =
    (is_offset r.offset offset_latest ≡ false) × (is_offset r.offset offset_earliest ≡ false)

module _ {W : Type 0} (lib : ConsumerLib W) (ps : List ℕ) (log : W → List (ℕ × List TopicPartition))
    (laws : IsAssigning lib ps log) where
  pub subscribe-assigns :
      (r : ConsumerRunner) (w : W)
      → IsExplicit r
      → ((subscribe lib r w).1 ≡ none)
        × (log (subscribe lib r w).0 ≡ log w ++ (r.consumer, at_offset r ps) ∷ [])
  unfolding subscribe assign_all
  subscribe-assigns r w h =
      let listed = lib.partitions_of r.consumer r.topic w in
      let answered = laws.assigns r.consumer (at_offset r ps) listed.0 in
      rw (h.0, h.1, assign_all, laws.lists r.consumer r.topic w)
        (
          answered.0,
          answered.1
              ∙ ap (λ (l : List (ℕ × List TopicPartition)). l ++ (r.consumer, at_offset r ps) ∷ [])
                  (laws.lists_only r.consumer r.topic w),
        )

-- What a runner of a subscription is for.
abbrev pub IsFor : Text → ℤ → ConsumerRunner → Type 0
IsFor topic offset r = (r.topic ≡ topic) × (r.offset ≡ offset)

module _ {W : Type 0} (lib : ConsumerLib W) where
  runner_of-IsFor :
      (topic : Text) (offset capacity : ℤ) (x : W × Result ℕ) (r : ConsumerRunner) (w : W)
      → runner_of topic offset capacity x ≡ some (r, w)
      → IsFor topic offset r
  unfolding runner_of
  runner_of-IsFor topic offset capacity (w1, err e) r w h = cc h
  runner_of-IsFor topic offset capacity (w1, ok c) r w h =
      let same = ap (λ (x : ConsumerRunner × W). x.0) (some_inj.0 h) in
      (
        ap (λ (x : ConsumerRunner). x.topic) (sym same),
        ap (λ (x : ConsumerRunner). x.offset) (sym same),
      )

  pub new_consumer_runner-IsFor :
      (brokers : List Text) (group topic : Text) (offset capacity : ℤ) (w w' : W)
      (r : ConsumerRunner)
      → new_consumer_runner lib brokers group topic offset capacity true w ≡ some (r, w')
      → IsFor topic offset r
  unfolding new_consumer_runner
  new_consumer_runner-IsFor brokers group topic offset capacity w w' r h =
      elim (Bool-cases (no_brokers brokers || is_empty group)) [
        | inl x ↦ cc (rw x at h)
        | inr x ↦ elim (Bool-cases (is_empty topic)) [
          | inl y ↦ cc (rw (x, y) at h)
          | inr y ↦ runner_of-IsFor topic offset capacity _ r w' (rw (x, y) at h)
        ]
      ]
