-- ===== src/Rabbitmq.antt =====
-- rabbitmq/: the client, the consumers, and the component that makes them. The AMQP library is a
-- parameter: a connection and a channel are numbers, and the world `W` is what its calls change.
pub mod Client
pub mod Consumer
pub mod Component
use go_infra.Prelude.{ℕ, Bool, Option}
use go_infra.Prelude.Text.{Text}
use go_infra.Prelude.Int.{ℤ}

-- An error that is not nil: one of the library, or one of the package around it.
pub data Error : Type 0 where
  routing_key_required : Error
  external : Text → Error
  connect_failed open_failed open_publisher_failed publish_failed : Error → Error

pub data Result {ℓ} (A : Type ℓ) : Type ℓ where
  ok : A → Result A
  err : Error → Result A

-- An `amqp.Table`, by name; `[]` is nil. The package only passes one on.
abbrev pub Headers : Type 0
Headers = Text

-- The fields of an `amqp.Publishing` that the package sets. The time stamp is left out.
pub record Publishing : Type 0 where
  pub headers : Headers
  pub content_type : Text
  pub body : Text
  pub persistent : Bool

pub record Delivery : Type 0 where
  pub body : Text
  pub headers : Headers
  pub content_type : Text
  pub exchange : Text
  pub routing_key : Text
  pub delivery_tag : ℕ
  pub redelivered : Bool

-- The calls of the library. A `consume` has the queue, the consumer tag, whether it acknowledges by
-- itself, and the arguments; its three other flags are false.
pub record Amqp (W : Type 0) : Type 0 where
  pub dial : Text → W → W × Result ℕ
  pub is_closed : ℕ → W → Bool
  pub open_channel : ℕ → W → W × Result ℕ
  pub close_connection : ℕ → W → W × Option Error
  pub close_channel : ℕ → W → W × Option Error
  pub publish : ℕ → Text → Text → Bool → Bool → Publishing → W → W × Option Error
  pub qos : ℕ → ℤ → W → W × Option Error
  pub consume : ℕ → Text → Text → Bool → Headers → W → W × Option Error
  pub cancel : ℕ → Text → W → W
  pub ack : ℕ → W → W
  pub nack : ℕ → Bool → W → W
