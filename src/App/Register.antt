-- ===== src/App/Register.antt =====
-- The functions `Register` of redis/, redislock/, dedupe/, kafka/, rabbitmq/, scheduler/, db/ and
-- postgres/, the names of their components, and how a lock manager and a deduplicator find the
-- component for Redis.
pub mod Once
use go_infra.Prelude.{ℕ, suc, Bool, true, false, Option, none, some, [], ◌∷◌, ◌++◌, if◌then◌else◌}
use go_infra.Prelude.Text.{Text, codes, is_empty}
use go_infra.App.Runtime.{
  Kind, redis, redis_lock, dedupe, kafka, rabbitmq, scheduler, db, postgres, other, Component,
  Runtime, Environment, lookup_component,
}
use go_infra.App.Runtime.Components.{register_component}

-- The functions `ComponentName`.
abbrev pub name_under : Text → Text → Text
name_under default name = if is_empty name then default else default ++ b':' ∷ name

unfoldable pub redis_name : Text → Text
redis_name = name_under (codes "Redis")

unfoldable pub lock_name : Text → Text
lock_name = name_under (codes "RedisLock")

unfoldable pub dedupe_name : Text → Text
dedupe_name = name_under (codes "Deduplicator")

unfoldable pub kafka_name : Text → Text
kafka_name = name_under (codes "Kafka")

unfoldable pub rabbitmq_name : Text → Text
rabbitmq_name = name_under (codes "RabbitMQ")

unfoldable pub scheduler_name : Text → Text
scheduler_name = name_under (codes "Scheduler")

unfoldable pub db_name : Text → Text
db_name = name_under (codes "DB")

unfoldable pub postgres_name : Text → Text
postgres_name = name_under (codes "Postgres")

-- A type assertion.
abbrev pub is_kind : Kind → Component → Bool
is_kind k c = same k c.kind
  where
    same : Kind → Kind → Bool
    same redis redis = true
    same redis_lock redis_lock = true
    same dedupe dedupe = true
    same kafka kafka = true
    same rabbitmq rabbitmq = true
    same scheduler scheduler = true
    same db db = true
    same postgres postgres = true
    same other other = true
    same _ _ = false

module _ {W : Type 0} where
  -- The pointer that `Register` makes, and the runtime that has made it.
  abbrev pub new_component : Kind → Text → Runtime W → Component
  new_component k redis_component r = record {
    kind = k;
    id = r.next_id;
    redis_component_name = redis_component;
  }

  abbrev pub made : Runtime W → Runtime W
  made r = record r { next_id = suc r.next_id }

  -- The component that is registered, if its type is the expected one; else a panic.
  abbrev pub as_kind : Kind → Component → Runtime W → Option (Runtime W × Component)
  as_kind k c r = if is_kind k c then some (r, c) else none

  abbrev pub with_component : Component → Option (Runtime W) → Option (Runtime W × Component)
  with_component c none = none
  with_component c (some r) = some (r, c)

module _ {W : Type 0} (env : Environment W) where
  unfoldable pub register_new : Kind → Text → Text → Runtime W → Option (Runtime W × Component)
  register_new k component_name redis_component r =
      let c = new_component k redis_component r in
      with_component c (register_component env component_name c (made r))

  -- `Register` of a component that is made over no other.
  unfoldable pub register_plain : Kind → Text → Runtime W → Option (Runtime W × Component)
  register_plain k component_name r = elim (lookup_component component_name r) [
    | some c ↦ as_kind k c r
    | none ↦ register_new k component_name [] r
  ]

  abbrev pub redis_register : Text → Runtime W → Option (Runtime W × Component)
  redis_register name r = register_plain redis (redis_name name) r

  abbrev pub kafka_register : Text → Runtime W → Option (Runtime W × Component)
  kafka_register name r = register_plain kafka (kafka_name name) r

  abbrev pub rabbitmq_register : Text → Runtime W → Option (Runtime W × Component)
  rabbitmq_register name r = register_plain rabbitmq (rabbitmq_name name) r

  abbrev pub scheduler_register : Text → Runtime W → Option (Runtime W × Component)
  scheduler_register name r = register_plain scheduler (scheduler_name name) r

  abbrev pub db_register : Text → Runtime W → Option (Runtime W × Component)
  db_register name r = register_plain db (db_name name) r

  abbrev pub postgres_register : Text → Runtime W → Option (Runtime W × Component)
  postgres_register name r = register_plain postgres (postgres_name name) r

  -- `Register` of the lock manager and of the deduplicator after `redis.Register`.
  after_redis : Kind → Text → Text → Option (Runtime W × Component) → Option (Runtime W × Component)
  after_redis k component_name redis_component none = none
  after_redis k component_name redis_component (some (r, c)) =
      register_new k component_name redis_component r

  unfoldable pub lock_register : Text → Runtime W → Option (Runtime W × Component)
  unfolding after_redis
  lock_register name r = elim (lookup_component (lock_name name) r) [
    | some c ↦ as_kind redis_lock c r
    | none ↦ after_redis redis_lock (lock_name name) (redis_name name) (redis_register name r)
  ]

  unfoldable pub dedupe_register : Text → Runtime W → Option (Runtime W × Component)
  unfolding after_redis
  dedupe_register name r = elim (lookup_component (dedupe_name name) r) [
    | some c ↦ as_kind dedupe c r
    | none ↦ after_redis dedupe (dedupe_name name) (redis_name name) (redis_register name r)
  ]

-- `ensureManager` where there is no manager yet: the component for Redis that it is made over, or
-- a panic.
unfoldable pub ensure_redis : {W : Type 0} → Component → Runtime W → Option Component
ensure_redis c r = elim (lookup_component c.redis_component_name r) [
  | none ↦ none
  | some found ↦ if is_kind redis found then some found else none
]
