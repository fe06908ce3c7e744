-- ===== src/Rabbitmq/Component/Running.antt =====
-- The consumers of a component of rabbitmq/component.go are started once.
use mathlib.Core.Option.{some_inj}
use go_infra.Prelude.{
  ℕ, Option, none, some, List, [], ◌∷◌, ◌≡◌, refl, sym, ap, ◌∙◌, arith, All, Option-cases, inl, inr,
  subst,
}
use go_infra.Rabbitmq.{Result, ok, err, Amqp}
use go_infra.Rabbitmq.Client.{Client, ensure_connection}
use go_infra.Rabbitmq.Consumer.{ConsumerRunner, start}
use go_infra.Rabbitmq.Consumer.Started.{IsStarted, start-IsStarted, start_again}
use go_infra.Rabbitmq.Component.{
  RabbitComponent, ensure_client, start_runners, started_runners, start_connected, start_with,
  component_start,
}

module _ {W : Type 0} (lib : Amqp W) where
  start_runners-IsStarted :
      (rs rs' : List ConsumerRunner) (c c' : Client) (w w' : W)
      → start_runners lib rs c w ≡ some (rs', c', w')
      → All IsStarted rs'
  unfolding start_runners
  start_runners-IsStarted [] rs' c c' w w' e = ground arith
  start_runners-IsStarted (r ∷ rs) rs' c c' w w' e = elim (Option-cases (start lib r c w)) [
    | inl h ↦ cc (rw (h, start_runners) at e)
    | inr ((c1, r1, w1), h) ↦ elim (Option-cases (start_runners lib rs c1 w1)) [
      | inl h' ↦ cc (rw (h, start_runners, h') at e)
      | inr ((rs2, c2, w2), h') ↦
          let all = start_runners-IsStarted rs rs2 c1 c2 w1 w2 h' in
          let one = start-IsStarted lib r r1 c c1 w w1 h in
          let ran = some_inj.0 (rw (h, start_runners, h') at e) in
          subst (All IsStarted) (ap (λ (x : List ConsumerRunner × Client × W). x.0) ran) (one, all)
    ]
  ]

  start_runners_again :
      (rs : List ConsumerRunner) (c : Client) (w : W)
      → All IsStarted rs
      → start_runners lib rs c w ≡ some (rs, c, w)
  unfolding start_runners
  start_runners_again [] c w h = refl
  start_runners_again (r ∷ rs) c w h =
      rw (start_again lib r c w h.0, start_runners, start_runners_again rs c w h.1) refl

  -- What `Start` leaves of a component: nothing to do, or its runners are all started.
  started_runners-IsStarted :
      (c c' : RabbitComponent) (w' : W) (x : Option (List ConsumerRunner × Client × W))
      → ((rs : List ConsumerRunner) (client : Client) (w : W)
          → x ≡ some (rs, client, w)
          → All IsStarted rs)
      → started_runners lib c x ≡ some (c', w')
      → All IsStarted c'.consumer_runners
  unfolding started_runners
  started_runners-IsStarted c c' w' none h e = cc
  started_runners-IsStarted c c' w' (some (rs, client, w)) h e =
      subst (λ (x : RabbitComponent × W). All IsStarted x.0.consumer_runners) (some_inj.0 e)
        (h rs client w refl)

  start_connected-IsStarted :
      (c c' : RabbitComponent) (w' : W) (x : Client × W × Result ℕ)
      → start_connected lib c x ≡ some (c', w')
      → All IsStarted c'.consumer_runners
  unfolding start_connected
  start_connected-IsStarted c c' w' (client, w, err y) e = cc
  start_connected-IsStarted c c' w' (client, w, ok conn) e =
      started_runners-IsStarted c c' w' (start_runners lib c.consumer_runners client w)
        (λ rs client' w2 h. start_runners-IsStarted c.consumer_runners rs client client' w w2 h) e

  start_with-IsStarted :
      (c' : RabbitComponent) (w w' : W) (x : Option (RabbitComponent × Client))
      → start_with lib w x ≡ some (c', w')
      → All IsStarted c'.consumer_runners
  unfolding start_with
  start_with-IsStarted c' w w' none e = cc
  start_with-IsStarted c' w w' (some (c, client)) e =
      start_connected-IsStarted c c' w' (ensure_connection lib client w) e

  component_start-IsStarted :
      (c c' : RabbitComponent) (w w' : W)
      → component_start lib c w ≡ some (c', w')
      → All IsStarted c'.consumer_runners
  unfolding component_start
  component_start-IsStarted c c' w w' e = go c.consumer_runners refl
    where
      go : (rs : List ConsumerRunner) → c.consumer_runners ≡ rs → All IsStarted c'.consumer_runners
      go [] p =
          subst (λ (x : RabbitComponent × W). All IsStarted x.0.consumer_runners)
            (some_inj.0 (rw (p, component_start) at e)) (rw p tt)
      go (r ∷ rs) p = start_with-IsStarted c' w w' (ensure_client c) (rw (p, component_start) at e)

  start_connected_again :
      (c c' : RabbitComponent) (w' : W) (x : Client × W × Result ℕ)
      → All IsStarted c.consumer_runners
      → start_connected lib c x ≡ some (c', w')
      → c'.consumer_runners ≡ c.consumer_runners
  unfolding start_connected started_runners
  start_connected_again c c' w' (client, w, err y) h e = cc
  start_connected_again c c' w' (client, w, ok conn) h e = sym (
      ap (λ (x : RabbitComponent × W). x.0.consumer_runners)
        (some_inj.0 (rw (start_runners_again c.consumer_runners client w h, started_runners) at e)))

  ensure_client_keeps :
      (c c1 : RabbitComponent) (client : Client)
      → ensure_client c ≡ some (c1, client)
      → c1.consumer_runners ≡ c.consumer_runners
  unfolding ensure_client
  ensure_client_keeps c c1 client e = ground arith

  start_with_again :
      (c c' : RabbitComponent) (w w' : W) (x : Option (RabbitComponent × Client))
      → ensure_client c ≡ x
      → All IsStarted c.consumer_runners
      → start_with lib w x ≡ some (c', w')
      → c'.consumer_runners ≡ c.consumer_runners
  unfolding start_with
  start_with_again c c' w w' none p h e = cc
  start_with_again c c' w w' (some (c1, client)) p h e =
      let same = ensure_client_keeps c c1 client p in
      start_connected_again c1 c' w' (ensure_connection lib client w) (rw same h) e ∙ same

  -- `Start` of a component that does not panic leaves every consumer started, and a second one that
  -- does not panic leaves the consumers as they are: none of them consumes twice.
  pub component_start-once :
      (c c' c2 : RabbitComponent) (w w' w2 w3 : W)
      → component_start lib c w ≡ some (c', w')
      → component_start lib c' w2 ≡ some (c2, w3)
      → All IsStarted c'.consumer_runners × (c2.consumer_runners ≡ c'.consumer_runners)
  unfolding component_start
  component_start-once c c' c2 w w' w2 w3 e e2 =
      let all = component_start-IsStarted c c' w w' e in (all, go all c'.consumer_runners refl)
    where
      go :
          All IsStarted c'.consumer_runners
          → (rs : List ConsumerRunner) → c'.consumer_runners ≡ rs
          → c2.consumer_runners ≡ c'.consumer_runners
      go h [] p = sym (
          ap (λ (x : RabbitComponent × W). x.0.consumer_runners)
            (some_inj.0 (rw (p, component_start) at e2)))
      go h (r ∷ rs) p =
          start_with_again c' c2 w2 w3 (ensure_client c') refl h (rw (p, component_start) at e2)
