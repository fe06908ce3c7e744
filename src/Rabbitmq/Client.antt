-- ===== src/Rabbitmq/Client.antt =====
-- `Client` of rabbitmq/client.go. A method is one step, as it runs under `c.mu`; `Publish` also
-- holds `publishMu`.
pub mod Channels
use go_infra.Prelude.{
  ℕ, ◌==◌, Bool, true, false, not, ◌&&◌, Option, none, some, List, [], ◌∷◌, if◌then◌else◌,
}
use go_infra.Prelude.Text.{Text, is_empty}
use go_infra.Rabbitmq.{
  Error, routing_key_required, connect_failed, open_failed, open_publisher_failed, publish_failed,
  Result, ok, err, Headers, Publishing, Amqp,
}

pub record PublishOptions : Type 0 where
  pub content_type : Text
  pub headers : Headers
  pub persistent : Bool
  pub mandatory : Bool
  pub immediate : Bool

-- A `PublishOption`; `none` where the caller passes nil.
abbrev pub PublishOption : Type 0
PublishOption = Option (PublishOptions → PublishOptions)

unfoldable pub with_content_type : Text → PublishOption
with_content_type t = some (λ o. record o { content_type = t })

unfoldable pub with_headers : Headers → PublishOption
with_headers h = some (λ o. record o { headers = h })

unfoldable pub with_persistent_delivery : PublishOption
with_persistent_delivery = some (λ o. record o { persistent = true })

unfoldable pub with_mandatory_publish : PublishOption
with_mandatory_publish = some (λ o. record o { mandatory = true })

abbrev pub no_options : PublishOptions
no_options = record {
  content_type = [];
  headers = [];
  persistent = false;
  mandatory = false;
  immediate = false;
}

unfoldable pub apply_options : List PublishOption → PublishOptions → PublishOptions
apply_options [] o = o
apply_options (none ∷ opts) o = apply_options opts o
apply_options (some opt ∷ opts) o = apply_options opts (opt o)

pub record Client : Type 0 where
  pub url : Text
  pub conn : Option ℕ
  pub publish_ch : Option ℕ
  pub publish_ch_open : Bool

unfoldable pub new_client : Text → Client
new_client url = record { url = url; conn = none; publish_ch = none; publish_ch_open = false }

abbrev pub connected : ℕ → Client → Client
connected conn c = record c { conn = some conn; publish_ch = none; publish_ch_open = false }

abbrev with_publisher : ℕ → Client → Client
with_publisher ch c = record c { publish_ch = some ch; publish_ch_open = true }

abbrev map_error {ℓ} : {A : Type ℓ} → (Error → Error) → Result A → Result A
map_error f (ok a) = ok a
map_error f (err e) = err (f e)

-- The goroutine behind a publisher channel, when the channel is closed with an error.
unfoldable pub notify_closed : ℕ → Client → Client
notify_closed ch c = elim c.publish_ch [
  | none ↦ c
  | some current ↦ if current == ch then record c { publish_ch_open = false } else c
]

abbrev pub first_error : Option Error → Option Error → Option Error
first_error none e = e
first_error (some e) e' = some e

abbrev closed_client : Client → Client
closed_client c = elim c.publish_ch [
  | none ↦ record c { conn = none }
  | some ch ↦ record c { conn = none; publish_ch = none; publish_ch_open = false }
]

module _ {W : Type 0} where
  dialled : Client → W × Result ℕ → Client × W × Result ℕ
  dialled c (w, ok conn) = (connected conn c, w, ok conn)
  dialled c (w, err e) = (c, w, err (connect_failed e))

  opened : Client → W × Result ℕ → Client × W × Result ℕ
  opened c (w, r) = (c, w, map_error open_failed r)

  publisher_opened : Client → W × Result ℕ → Client × W × Result ℕ
  publisher_opened c (w, ok ch) = (with_publisher ch c, w, ok ch)
  publisher_opened c (w, err e) = (c, w, err (open_publisher_failed e))

  published : Client → W × Option Error → Client × W × Option Error
  published c (w, none) = (c, w, none)
  published c (w, some e) = (c, w, some (publish_failed e))

module _ {W : Type 0} (lib : Amqp W) where
  -- `c.conn != nil && !c.conn.IsClosed()`
  abbrev pub usable : Option ℕ → W → Bool
  usable none w = false
  usable (some conn) w = not (lib.is_closed conn w)

  -- `Connect`, with the connection that the client then has.
  unfoldable pub ensure_connection : Client → W → Client × W × Result ℕ
  unfolding dialled
  ensure_connection c w = elim c.conn [
    | none ↦ dialled c (lib.dial c.url w)
    | some conn ↦ if lib.is_closed conn w then dialled c (lib.dial c.url w) else (c, w, ok conn)
  ]

  channel_on : Client × W × Result ℕ → Client × W × Result ℕ
  unfolding opened
  channel_on (c, w, err e) = (c, w, err e)
  channel_on (c, w, ok conn) = opened c (lib.open_channel conn w)

  unfoldable pub channel : Client → W → Client × W × Result ℕ
  unfolding channel_on
  channel c w = channel_on (ensure_connection c w)

  publisher_on : Client × W × Result ℕ → Client × W × Result ℕ
  unfolding publisher_opened
  publisher_on (c, w, err e) = (c, w, err e)
  publisher_on (c, w, ok conn) = elim c.publish_ch [
    | none ↦ publisher_opened c (lib.open_channel conn w)
    | some ch ↦
        if c.publish_ch_open then (c, w, ok ch) else publisher_opened c (lib.open_channel conn w)
  ]

  unfoldable pub publisher_channel : Client → W → Client × W × Result ℕ
  unfolding publisher_on
  publisher_channel c w = publisher_on (ensure_connection c w)

  publish_on :
      Text → Text → PublishOptions → Text → Client × W × Result ℕ → Client × W × Option Error
  unfolding published
  publish_on exchange routing_key o body (c, w, err e) = (c, w, some e)
  publish_on exchange routing_key o body (c, w, ok ch) = published c (
      lib.publish ch exchange routing_key o.mandatory o.immediate
        (record {
          headers = o.headers;
          content_type = o.content_type;
          body = body;
          persistent = o.persistent;
        })
        w)

  unfoldable pub publish :
      Text → Text → Text → List PublishOption → Client → W → Client × W × Option Error
  unfolding publish_on publisher_channel
  publish exchange routing_key body opts c w =
      if is_empty routing_key
      then (c, w, some routing_key_required)
      else publish_on exchange routing_key (apply_options opts no_options) body
          (publisher_channel c w)

  abbrev close_maybe : (ℕ → W → W × Option Error) → Option ℕ → W → W × Option Error
  close_maybe f none w = (w, none)
  close_maybe f (some n) w = f n w

  unfoldable pub close : Client → W → Client × W × Option Error
  close c w =
      let (w1, e1) = close_maybe lib.close_channel c.publish_ch w in
      let (w2, e2) = close_maybe lib.close_connection c.conn w1 in
      (closed_client c, w2, first_error e1 e2)
