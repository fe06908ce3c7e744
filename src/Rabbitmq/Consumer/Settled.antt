-- ===== src/Rabbitmq/Consumer/Settled.antt =====
-- What becomes of the deliveries of a consumer of rabbitmq/client.go.
use mathlib.Core.List.{append_assoc, append-nil}
use go_infra.Prelude.{
  ℕ, Bool, true, false, Option, none, some, List, [], ◌∷◌, ◌++◌, ◌≡◌, refl, sym, ap, ◌∙◌, arith,
  if◌then◌else◌, Option-cases, inl, inr, map,
}
use go_infra.Prelude.Text.{Text, is_empty}
use go_infra.Rabbitmq.{Error, Delivery, Amqp}
use go_infra.Rabbitmq.Consumer.{
  ConsumerOptions, Message, Handler, ConsumerRunner, message_of, settle, handle, consume_all, stop,
}

-- What a broker is told of a delivery.
pub data Settlement : Type 0 where
  acked : ℕ → Settlement
  nacked : ℕ → Bool → Settlement

abbrev pub tag_of : Settlement → ℕ
tag_of (acked tag) = tag
tag_of (nacked tag requeue) = tag

-- The channel `ch` of one consumer, on which the library settles its deliveries: what the broker was
-- told on it, and whether it is closed. What is told on a closed channel does not arrive.
pub record IsBroker {W : Type 0} (lib : Amqp W) (ch : ℕ) (log : W → List Settlement)
    (closed : W → Bool) : Type 0 where
  pub ack_arrives :
      (tag : ℕ) (w : W) → closed w ≡ false → log (lib.ack tag w) ≡ log w ++ acked tag ∷ []
  pub nack_arrives :
      (tag : ℕ) (requeue : Bool) (w : W)
      → closed w ≡ false
      → log (lib.nack tag requeue w) ≡ log w ++ nacked tag requeue ∷ []
  pub ack_open : (tag : ℕ) (w : W) → closed (lib.ack tag w) ≡ closed w
  pub nack_open : (tag : ℕ) (requeue : Bool) (w : W) → closed (lib.nack tag requeue w) ≡ closed w
  pub ack_lost : (tag : ℕ) (w : W) → closed w ≡ true → log (lib.ack tag w) ≡ log w
  pub nack_lost :
      (tag : ℕ) (requeue : Bool) (w : W) → closed w ≡ true → log (lib.nack tag requeue w) ≡ log w
  pub close_closes : (w : W) → closed (lib.close_channel ch w).0 ≡ true
  pub close_keeps : (w : W) → log (lib.close_channel ch w).0 ≡ log w
  pub cancel_keeps : (consumer : Text) (w : W) → log (lib.cancel ch consumer w) ≡ log w

-- A handler tells the broker nothing on this channel, and does not close it.
pub record IsQuiet {W : Type 0} (handler : Handler W) (log : W → List Settlement)
    (closed : W → Bool) : Type 0 where
  pub tells_nothing : (m : Message) (w : W) → log (handler m w).0 ≡ log w
  pub leaves_open : (m : Message) (w : W) → closed (handler m w).0 ≡ closed w

-- The verdict on a delivery: it is acknowledged where the handler has no error, and else refused.
abbrev pub verdict : ConsumerOptions → Delivery → Option Error → Settlement
verdict o d none = acked d.delivery_tag
verdict o d (some e) = nacked d.delivery_tag o.requeue

verdict-tag :
    (o : ConsumerOptions) (d : Delivery) (e : Option Error)
    → tag_of (verdict o d e) ≡ d.delivery_tag
verdict-tag o d none = refl
verdict-tag o d (some e) = refl

-- The verdicts of the handler on deliveries, one after another.
unfoldable pub verdicts :
    {W : Type 0} → Amqp W → Handler W → ConsumerOptions → List Delivery → W → List Settlement
verdicts lib handler o [] w = []
verdicts lib handler o (d ∷ ds) w =
    verdict o d (handler (message_of d) w).1 ∷ verdicts lib handler o ds (handle lib handler o d w)

module _ {W : Type 0} (lib : Amqp W) (handler : Handler W) (o : ConsumerOptions) (ch : ℕ)
    (log : W → List Settlement) (closed : W → Bool) (laws : IsBroker lib ch log closed)
    (quiet : IsQuiet handler log closed) where
  handle_lem :
      (d : Delivery) (w : W)
      → o.auto_ack ≡ false
      → closed w ≡ false
      → (log (handle lib handler o d w) ≡ log w ++ verdict o d (handler (message_of d) w).1 ∷ [])
        × (closed (handle lib handler o d w) ≡ false)
  unfolding handle
  handle_lem d w manual still =
      let w' = (handler (message_of d) w).0 in
      let same = quiet.tells_nothing (message_of d) w in
      let still' : closed w' ≡ false = quiet.leaves_open (message_of d) w ∙ still in
      elim (Option-cases (handler (message_of d) w).1) [
        | inl e ↦
            rw (e, manual)
              (
                laws.ack_arrives d.delivery_tag w' still'
                    ∙ ap (λ (l : List Settlement). l ++ acked d.delivery_tag ∷ []) same,
                laws.ack_open d.delivery_tag w' ∙ still',
              )
        | inr (x, e) ↦
            rw (e, manual)
              (
                laws.nack_arrives d.delivery_tag o.requeue w' still'
                    ∙ ap (λ (l : List Settlement). l ++ nacked d.delivery_tag o.requeue ∷ []) same,
                laws.nack_open d.delivery_tag o.requeue w' ∙ still',
              )
      ]

  verdicts-tags :
      (ds : List Delivery) (w : W)
      → map tag_of (verdicts lib handler o ds w) ≡ map (λ (d : Delivery). d.delivery_tag) ds
  unfolding verdicts
  verdicts-tags [] w = refl
  verdicts-tags (d ∷ ds) w =
      cc (verdict-tag o d (handler (message_of d) w).1, verdicts-tags ds (handle lib handler o d w))

  -- With manual acknowledgement, an open channel, and a handler that tells the broker nothing
  -- itself, the broker is told of every delivery once, in their order: an acknowledgement where
  -- its handler succeeded, else a refusal with the requeue option of the consumer.
  pub consume_all-log :
      (ds : List Delivery) (w : W)
      → o.auto_ack ≡ false
      → closed w ≡ false
      → (log (consume_all lib handler o ds w) ≡ log w ++ verdicts lib handler o ds w)
        × (map tag_of (verdicts lib handler o ds w) ≡ map (λ (d : Delivery). d.delivery_tag) ds)
  unfolding consume_all verdicts
  consume_all-log [] w manual still = (sym (append-nil (log w)), refl)
  consume_all-log (d ∷ ds) w manual still =
      let (logged, open_) = handle_lem d w manual still in
      let (rest, tags) = consume_all-log ds (handle lib handler o d w) manual open_ in
      (
        rest
            ∙ ap
                (λ (l : List Settlement). l ++ verdicts lib handler o ds (handle lib handler o d w))
                logged
            ∙ append_assoc (log w) (verdict o d (handler (message_of d) w).1 ∷ []) _,
        verdicts-tags (d ∷ ds) w,
      )

  settle_closed :
      (tag : ℕ) (e : Option Error) (w : W) → closed w ≡ true → log (settle lib o tag e w) ≡ log w
  settle_closed tag none w c = ground (arith, laws.ack_lost tag w)
  settle_closed tag (some e) w c = ground (arith, laws.nack_lost tag o.requeue w)

module _ {W : Type 0} (lib : Amqp W) (handler : Handler W) (r : ConsumerRunner) (ch : ℕ)
    (log : W → List Settlement) (closed : W → Bool) (laws : IsBroker lib ch log closed)
    (quiet : IsQuiet handler log closed) where
  stop_closes :
      (w : W) → r.ch ≡ some ch → (log (stop lib r w).1 ≡ log w) × (closed (stop lib r w).1 ≡ true)
  unfolding stop
  stop_closes w has =
      let w1 =
        if is_empty r.options.consumer_tag then w else lib.cancel ch r.options.consumer_tag w in
      let cancelled : log w1 ≡ log w = ground (arith, laws.cancel_keeps r.options.consumer_tag w) in
      rw (has, stop) (laws.close_keeps w1 ∙ cancelled, laws.close_closes w1)

  -- A delivery of a runner whose channel is open, with manual acknowledgement and a handler that tells
  -- the broker nothing itself, and Stop. Where Stop comes after the delivery was handled, the broker was told its verdict, once. Where Stop comes
  -- while the handler runs, or before it, the broker is told nothing of the delivery, although the
  -- handler is run and whatever it answers: Stop does not wait for it.
  pub stop_unsettled :
      (d : Delivery) (w : W)
      → r.ch ≡ some ch
      → r.options.auto_ack ≡ false
      → closed w ≡ false
      → let (w', e) = handler (message_of d) w in
        (log (stop lib r (handle lib handler r.options d w)).1
          ≡ log w ++ verdict r.options d e ∷ [])
        × (log (settle lib r.options d.delivery_tag e (stop lib r w').1) ≡ log w)
        × (log (handle lib handler r.options d (stop lib r w).1) ≡ log w)
  unfolding handle
  stop_unsettled d w has manual still =
      let (w', e) = handler (message_of d) w in
      let told = handle_lem lib handler r.options ch log closed laws quiet d w manual still in
      let w2 = (stop lib r w).1 in
      let silent = settle_closed lib handler r.options ch log closed laws quiet d.delivery_tag in
      (
        (stop_closes (handle lib handler r.options d w) has).0 ∙ told.0,
        silent e (stop lib r w').1 (stop_closes w' has).1
            ∙ (stop_closes w' has).0
            ∙ quiet.tells_nothing (message_of d) w,
        silent (handler (message_of d) w2).1 (handler (message_of d) w2).0
              (quiet.leaves_open (message_of d) w2 ∙ (stop_closes w has).1)
            ∙ quiet.tells_nothing (message_of d) w2
            ∙ (stop_closes w has).0,
      )
