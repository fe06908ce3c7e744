-- ===== src/Module/Calls.antt =====
-- The accessors of module_base.go: `Kafka`, `RabbitMQ`, `Mongo`, `Grpc`, `GrpcClient`, `DB`,
-- `Redis`, `RedisLock`, `Deduplicator` and `Schedule`, and how a lock manager and a deduplicator
-- find the component for Redis.
use go_infra.Prelude.{suc, false, Option, none, some, List, [], ◌∷◌, if◌then◌else◌}
use go_infra.Prelude.Text.{Text}
use go_infra.Module.{
  ComponentType, kafka, rabbitmq, mongo, grpc, grpc_client, db, redis, redis_lock, deduplicator,
  scheduler, Component, AppRuntime, Environment, default_name, name_of, given_name, has_type, typed,
  register_as, lookup_as,
}
use go_infra.Module.Initialize.{initialize}

module _ {W : Type 0} where
  -- The pointer that an accessor makes, and the runtime that has made it.
  abbrev pub new_component : ComponentType → Text → AppRuntime W → Component
  new_component t redis_component r = record {
    kind = t;
    id = r.next_id;
    redis_component_name = redis_component;
    start_registered = false;
    stop_registered = false;
    close_producer_added = false;
    release_registered = false;
    serve_registered = false;
    server_registered = false;
  }

  abbrev pub counted : AppRuntime W → AppRuntime W
  counted r = record r { next_id = suc r.next_id }

module _ {W : Type 0} (env : Environment W) where
  -- An accessor after its test of `Started`.
  unfoldable pub create : ComponentType → Text → Text → AppRuntime W → AppRuntime W × Component
  create t name redis_component r =
      let (r', c) = initialize env t (counted r, new_component t redis_component r) in
      (register_as name c r', c)

  unfoldable pub access : ComponentType → Text → AppRuntime W → Option (AppRuntime W × Component)
  access t name r = elim (lookup_as name r) [
    | some c ↦ typed t c r
    | none ↦ if r.lifecycle.started then none else some (create t name [] r)
  ]

  abbrev pub kafka_component : List Text → AppRuntime W → Option (AppRuntime W × Component)
  kafka_component names r = access kafka (name_of kafka (given_name names)) r

  abbrev pub rabbitmq_component : List Text → AppRuntime W → Option (AppRuntime W × Component)
  rabbitmq_component names r = access rabbitmq (name_of rabbitmq (given_name names)) r

  abbrev pub mongo_component : List Text → AppRuntime W → Option (AppRuntime W × Component)
  mongo_component names r = access mongo (name_of mongo (given_name names)) r

  abbrev pub grpc_component : AppRuntime W → Option (AppRuntime W × Component)
  grpc_component r = access grpc (default_name grpc) r

  abbrev pub grpc_client_component : AppRuntime W → Option (AppRuntime W × Component)
  grpc_client_component r = access grpc_client (default_name grpc_client) r

  abbrev pub db_component : List Text → AppRuntime W → Option (AppRuntime W × Component)
  db_component names r = access db (name_of db (given_name names)) r

  abbrev pub redis_component : List Text → AppRuntime W → Option (AppRuntime W × Component)
  redis_component names r = access redis (name_of redis (given_name names)) r

  abbrev pub schedule : AppRuntime W → Option (AppRuntime W × Component)
  schedule r = access scheduler (default_name scheduler) r

  -- `RedisLock` and `Deduplicator` after they have called `Redis`.
  abbrev over_redis :
      ComponentType → Text → Option (AppRuntime W × Component) → Option (AppRuntime W × Component)
  over_redis t name none = none
  over_redis t name (some (r, c)) = some (create t (name_of t name) (name_of redis name) r)

  unfoldable pub access_over_redis :
      ComponentType → Text → AppRuntime W → Option (AppRuntime W × Component)
  access_over_redis t name r = elim (lookup_as (name_of t name) r) [
    | some c ↦ typed t c r
    | none ↦ if r.lifecycle.started then none else over_redis t name (redis_component (name ∷ []) r)
  ]

  abbrev pub redis_lock_manager : List Text → AppRuntime W → Option (AppRuntime W × Component)
  redis_lock_manager names r = access_over_redis redis_lock (given_name names) r

  abbrev pub deduplicator_component : List Text → AppRuntime W → Option (AppRuntime W × Component)
  deduplicator_component names r = access_over_redis deduplicator (given_name names) r

  -- A call of the accessor for a type.
  unfoldable pub get_component :
      ComponentType → List Text → AppRuntime W → Option (AppRuntime W × Component)
  get_component kafka names r = kafka_component names r
  get_component rabbitmq names r = rabbitmq_component names r
  get_component mongo names r = mongo_component names r
  get_component grpc names r = grpc_component r
  get_component grpc_client names r = grpc_client_component r
  get_component db names r = db_component names r
  get_component redis names r = redis_component names r
  get_component redis_lock names r = redis_lock_manager names r
  get_component deduplicator names r = deduplicator_component names r
  get_component scheduler names r = schedule r

-- `ensureManager` where there is no manager yet: the component for Redis that it is made over, or
-- a panic.
unfoldable pub redis_of : {W : Type 0} → Component → AppRuntime W → Option Component
redis_of c r = elim (lookup_as c.redis_component_name r) [
  | none ↦ none
  | some found ↦ if has_type redis found then some found else none
]

abbrev pub Call : Type 0
Call = ComponentType × List Text

-- Calls of the accessors, one after the other, and what they gave.
unfoldable pub get_components :
    {W : Type 0} → Environment W → List Call → AppRuntime W → Option (AppRuntime W × List Component)
get_components env [] r = some (r, [])
get_components env ((t, names) ∷ calls) r = elim (get_component env t names r) [
  | none ↦ none
  | some (r', c) ↦ elim (get_components env calls r') [
    | none ↦ none
    | some (s, cs) ↦ some (s, c ∷ cs)
  ]
]
