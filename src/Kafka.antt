-- ===== src/Kafka.antt =====
-- The configuration of `Component` in kafka/component.go: the setters, and `LoadFromPrefix` over the
-- property runtime. `none` is a panic.
pub mod Client
pub mod Consumer
pub mod Producer
pub mod Component
pub mod Load
use go_infra.Prelude.{
  ℕ, zero, suc, ◌+◌, ◌-◌, ◌*◌, ◌^◌, ◌==◌, ltb, leb, Bool, true, false, ◌&&◌, Option, none, some,
  List, [], ◌∷◌, ◌++◌, if◌then◌else◌,
}
use go_infra.Prelude.Text.{Text, codes, is_empty}
use go_infra.Prelude.Int.{ℤ, pos, negsuc, ltb_ℤ, leb_ℤ}
use go_infra.Config.Strconv.{atoi}
use go_infra.Config.Strings.{trim_space}
use go_infra.Config.Loading.{Loading}
use go_infra.Config.Property.{PropertyRuntime, property, required_property}

pub record KafkaComponent : Type 0 where
  pub brokers : List Text
  pub group_id : Text
  pub pool_size : ℤ
  pub queue_capacity : ℤ

-- `strings.Split` at one byte
abbrev first_with : ℕ → List Text → List Text
first_with c [] = (c ∷ []) ∷ []
first_with c (x ∷ xs) = (c ∷ x) ∷ xs

unfoldable pub split : ℕ → Text → List Text
split sep [] = [] ∷ []
split sep (c ∷ cs) = let rest = split sep cs in if c == sep then [] ∷ rest else first_with c rest

-- The brokers that `SetBrokers` keeps.
unfoldable pub kept_brokers : List Text → List Text
kept_brokers [] = []
kept_brokers (b ∷ bs) =
    let rest = kept_brokers bs in if is_empty (trim_space b) then rest else trim_space b ∷ rest

unfoldable pub set_brokers : List Text → Loading KafkaComponent → Loading KafkaComponent
set_brokers brokers l = record l {
  component = record l.component { brokers = kept_brokers brokers };
  host_uris = l.host_uris ++ kept_brokers brokers;
}

unfoldable pub set_group_id : Text → KafkaComponent → KafkaComponent
set_group_id group_id k = record k { group_id = group_id }

unfoldable pub set_pool_size : ℤ → KafkaComponent → KafkaComponent
set_pool_size n k = record k { pool_size = if leb_ℤ n (pos 0) then pos 1 else n }

unfoldable pub set_queue_capacity : ℤ → KafkaComponent → KafkaComponent
set_queue_capacity n k = record k { queue_capacity = if ltb_ℤ n (pos 0) then pos 0 else n }

abbrev pub key_brokers : Text
key_brokers = codes ".brokers"

abbrev pub key_group : Text
key_group = codes ".group.id"

abbrev pub key_pool : Text
key_pool = codes ".pool.size"

abbrev pub key_capacity : Text
key_capacity = codes ".queue.capacity"

load_capacity : Loading KafkaComponent → Text → Option (Loading KafkaComponent)
load_capacity l [] = some l
load_capacity l (c ∷ cs) = elim (atoi (c ∷ cs)) [
  | none ↦ none
  | some n ↦ some (record l { component = set_queue_capacity n l.component })
]

-- `LoadFromPrefix` from the property of the queue's capacity on.
after_pool : Text → Loading KafkaComponent → Option (Loading KafkaComponent)
unfolding load_capacity
after_pool prefix l =
    let (p, value) = property (prefix ++ key_capacity) l.property in
    load_capacity (record l { property = p }) value

load_pool : Text → Loading KafkaComponent → Text → Option (Loading KafkaComponent)
unfolding after_pool
load_pool prefix l [] = some (record l { component = set_pool_size (pos 1) l.component })
load_pool prefix l (c ∷ cs) = elim (atoi (c ∷ cs)) [
  | none ↦ none
  | some n ↦ after_pool prefix (record l { component = set_pool_size n l.component })
]

-- From the property of the group on.
after_brokers : Text → Loading KafkaComponent → Option (Loading KafkaComponent)
unfolding load_pool
after_brokers prefix l =
    let (p, group) = property (prefix ++ key_group) l.property in
    let (p', value) = property (prefix ++ key_pool) p in
    load_pool prefix (record l { property = p'; component = set_group_id group l.component }) value

load_brokers :
    Text → Loading KafkaComponent → PropertyRuntime × Option Text → Option (Loading KafkaComponent)
unfolding after_brokers
load_brokers prefix l (p, none) = none
load_brokers prefix l (p, some brokers) =
    after_brokers prefix (set_brokers (split b',' brokers) (record l { property = p }))

unfoldable pub load_from_prefix : Text → Loading KafkaComponent → Option (Loading KafkaComponent)
unfolding load_brokers
load_from_prefix prefix l =
    if is_empty prefix
    then none
    else load_brokers prefix l (required_property (prefix ++ key_brokers) l.property)
