-- ===== src/Kafka/Client.antt =====
-- What kafka/client.go uses of the Kafka library, as parameters over the world `W`, and the data that
-- it exchanges with its callers.
use go_infra.Prelude.{ℕ, Option, none, some, List, [], ◌∷◌, ◌++◌}
use go_infra.Prelude.Text.{Text}
use go_infra.Prelude.Int.{ℤ, negsuc}

-- An error that is not nil.
pub data Error : Type 0 where
  topic_required context_done unexpected_event no_metadata : Error
  external : Text → Error

pub data Result {ℓ} (A : Type ℓ) : Type ℓ where
  ok : A → Result A
  err : Error → Result A

-- A message of the library; a nil topic is `none`.
pub record Record : Type 0 where
  pub topic : Option Text
  pub key : Text
  pub value : Text
  pub partition : ℕ
  pub offset : ℤ

-- What a handler or a delivery callback gets.
pub record Message : Type 0 where
  pub topic : Text
  pub key : Text
  pub value : Text
  pub partition : ℕ
  pub offset : ℤ

unfoldable pub topic_name : Option Text → Text
topic_name none = []
topic_name (some t) = t

abbrev pub message_of : Record → Message
unfolding topic_name
message_of r = record {
  topic = topic_name r.topic;
  key = r.key;
  value = r.value;
  partition = r.partition;
  offset = r.offset;
}

abbrev pub offset_latest : ℤ
offset_latest = negsuc 0

abbrev pub offset_earliest : ℤ
offset_earliest = negsuc 1

-- `strings.Join(brokers, ",")`
unfoldable pub join_brokers : List Text → Text
join_brokers [] = []
join_brokers (b ∷ bs) = elim bs [ [] ↦ b | x ∷ xs ↦ b ++ b',' ∷ join_brokers bs ]
