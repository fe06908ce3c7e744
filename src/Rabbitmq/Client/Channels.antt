-- ===== src/Rabbitmq/Client/Channels.antt =====
-- The publisher channel of `Client` belongs to the connection of the client, over any calls.
use go_infra.Prelude.{
  ℕ, Bool, true, false, Option, none, some, List, [], ◌∷◌, ◌≡◌, refl, ap, arith, Bool-cases,
  Option-cases, inl, inr, HasValue, if◌then◌else◌,
}
use go_infra.Prelude.Text.{Text, is_empty}
use go_infra.Rabbitmq.{Error, Result, ok, err, Amqp}
use go_infra.Rabbitmq.Client.{
  PublishOption, Client, new_client, dialled, ensure_connection, channel, channel_on, opened,
  publisher_opened, publisher_on, publisher_channel, notify_closed, published, publish_on, publish,
  close, apply_options, no_options,
}

-- The library numbers the channels so that each was opened on one connection.
abbrev pub OpensOn : {W : Type 0} → Amqp W → (ℕ → ℕ) → Type 0
OpensOn {W} lib owner =
    (conn ch : ℕ) (w : W) → (lib.open_channel conn w).1 ≡ ok ch → owner ch ≡ conn

-- A channel of the client was opened on its connection, and only a channel is marked open.
pub record IsCoherent (owner : ℕ → ℕ) (c : Client) : Type 0 where
  pub on_connection : (ch : ℕ) → c.publish_ch ≡ some ch → c.conn ≡ some (owner ch)
  pub open_there : c.publish_ch_open ≡ true → HasValue c.publish_ch

pub new_client-IsCoherent : (owner : ℕ → ℕ) (url : Text) → IsCoherent owner (new_client url)
unfolding new_client
new_client-IsCoherent owner url = record { on_connection = λ ch e. cc; open_there = λ e. cc }

-- A call of the client, or the notification that a channel was closed.
pub data Call : Type 0 where
  connects opens closes : Call
  publishes : Text → Text → Text → List PublishOption → Call
  notified : ℕ → Call

module _ {W : Type 0} (lib : Amqp W) (owner : ℕ → ℕ) (laws : OpensOn lib owner) where
  -- What a client has when it got a connection.
  abbrev Has : Client × W × Result ℕ → Type 0
  Has (c, w, err e) = IsCoherent owner c
  Has (c, w, ok conn) = IsCoherent owner c × (c.conn ≡ some conn)

  dialled-Has : (c : Client) (r : W × Result ℕ) → IsCoherent owner c → Has (dialled c r)
  unfolding dialled
  dialled-Has c (w, ok conn) h = (record { on_connection = λ ch e. cc; open_there = λ e. cc }, refl)
  dialled-Has c (w, err e) h = h

  ensure_connection-Has :
      (c : Client) (w : W) → IsCoherent owner c → Has (ensure_connection lib c w)
  unfolding ensure_connection
  ensure_connection-Has c w h = elim (Option-cases c.conn) [
    | inl e ↦ rw (e, ensure_connection) (dialled-Has c (lib.dial c.url w) h)
    | inr (conn, e) ↦ elim (Bool-cases (lib.is_closed conn w)) [
      | inl y ↦ rw (e, ensure_connection, y) (dialled-Has c (lib.dial c.url w) h)
      | inr y ↦ rw (e, ensure_connection, y) (h, e)
    ]
  ]

  -- What a client has when it got its publisher channel: that channel, open, on its connection.
  abbrev Publishes : Client × W × Result ℕ → Type 0
  Publishes (c, w, err e) = IsCoherent owner c
  Publishes (c, w, ok ch) =
      IsCoherent owner c × (c.publish_ch ≡ some ch) × (c.publish_ch_open ≡ true)

  publisher_opened-Publishes :
      (c : Client) (conn : ℕ) (w : W) (r : W × Result ℕ)
      → lib.open_channel conn w ≡ r
      → IsCoherent owner c
      → c.conn ≡ some conn
      → Publishes (publisher_opened c r)
  unfolding publisher_opened
  publisher_opened-Publishes c conn w (w', ok ch) e h has =
      let own = laws conn ch w (ap (λ (x : W × Result ℕ). x.1) e) in
      (record { on_connection = λ x y. ground arith; open_there = λ y. tt }, refl, refl)
  publisher_opened-Publishes c conn w (w', err x) e h has = h

  publisher_on-Publishes : (x : Client × W × Result ℕ) → Has x → Publishes (publisher_on lib x)
  unfolding publisher_on
  publisher_on-Publishes (c, w, err e) h = h
  publisher_on-Publishes (c, w, ok conn) (h, has) = elim (Option-cases c.publish_ch) [
    | inl e ↦
        rw (e, publisher_on)
          (publisher_opened-Publishes c conn w (lib.open_channel conn w) refl h has)
    | inr (ch, e) ↦ rw (e, publisher_on) (reused ch e c.publish_ch_open refl)
  ]
    where
      reused :
          (ch : ℕ)
          → c.publish_ch ≡ some ch
          → (b : Bool) → c.publish_ch_open ≡ b
          → Publishes (if b then (c, w, ok ch) else publisher_opened c (lib.open_channel conn w))
      reused ch e true y = (h, e, y)
      reused ch e false y = publisher_opened-Publishes c conn w (lib.open_channel conn w) refl h has

  -- A client that is coherent gets a publisher channel that was opened on the connection that it
  -- then has, and that is marked open, or an error; and it stays coherent.
  pub publisher_channel-Publishes :
      (c : Client) (w : W) → IsCoherent owner c → Publishes (publisher_channel lib c w)
  unfolding publisher_channel
  publisher_channel-Publishes c w h =
      publisher_on-Publishes (ensure_connection lib c w) (ensure_connection-Has c w h)

  publish_on-Coherent :
      (exchange key body : Text) (opts : List PublishOption) (x : Client × W × Result ℕ)
      → Publishes x
      → IsCoherent owner (publish_on lib exchange key (apply_options opts no_options) body x).0
  unfolding publish_on published
  publish_on-Coherent exchange key body opts (c, w, err e) h = h
  publish_on-Coherent exchange key body opts (c, w, ok ch) h = published_keeps c _ h.0
    where
      published_keeps :
          (c : Client) (r : W × Option Error)
          → IsCoherent owner c
          → IsCoherent owner (published c r).0
      published_keeps c (w, none) h = h
      published_keeps c (w, some e) h = h

  channel_on-Coherent : (x : Client × W × Result ℕ) → Has x → IsCoherent owner (channel_on lib x).0
  unfolding channel_on opened
  channel_on-Coherent (c, w, err e) h = h
  channel_on-Coherent (c, w, ok conn) h = h.0

  Has-Coherent : (x : Client × W × Result ℕ) → Has x → IsCoherent owner x.0
  Has-Coherent (c, w, err e) h = h
  Has-Coherent (c, w, ok conn) h = h.0

  call : Call → Client × W → Client × W
  call connects (c, w) = let (c', w', r) = ensure_connection lib c w in (c', w')
  call opens (c, w) = let (c', w', r) = channel lib c w in (c', w')
  call (publishes exchange key body opts) (c, w) =
      let (c', w', e) = publish lib exchange key body opts c w in (c', w')
  call closes (c, w) = let (c', w', e) = close lib c w in (c', w')
  call (notified ch) (c, w) = (notify_closed ch c, w)

  pub run_calls : List Call → Client × W → Client × W
  run_calls [] s = s
  run_calls (x ∷ xs) s = run_calls xs (call x s)

  call-Coherent : (x : Call) (s : Client × W) → IsCoherent owner s.0 → IsCoherent owner (call x s).0
  unfolding call channel publish close notify_closed
  call-Coherent connects (c, w) h =
      Has-Coherent (ensure_connection lib c w) (ensure_connection-Has c w h)
  call-Coherent opens (c, w) h =
      channel_on-Coherent (ensure_connection lib c w) (ensure_connection-Has c w h)
  call-Coherent (publishes exchange key body opts) (c, w) h = elim (Bool-cases (is_empty key)) [
    | inl e ↦ rw (e, publish) h
    | inr e ↦
        rw (e, publish)
          (publish_on-Coherent exchange key body opts (publisher_channel lib c w)
            (publisher_channel-Publishes c w h))
  ]
  call-Coherent closes (c, w) h = record {
    on_connection = λ x e. ground (arith, h.on_connection x);
    open_there = λ e. ground (arith, h.open_there);
  }
  call-Coherent (notified ch) (c, w) h = record {
    on_connection = λ x e. ground (arith, h.on_connection x);
    open_there = λ e. ground (arith, h.open_there);
  }

  -- Over any calls of a client that is coherent, as a new one is, whatever the library answers and
  -- whenever a channel is closed under it: its publisher channel was opened on the connection that
  -- it has, and what is marked open is there.
  pub run_calls-Coherent :
      (xs : List Call) (s : Client × W) → IsCoherent owner s.0 → IsCoherent owner (run_calls xs s).0
  unfolding run_calls
  run_calls-Coherent [] s h = h
  run_calls-Coherent (x ∷ xs) s h = run_calls-Coherent xs (call x s) (call-Coherent x s h)
