-- ===== src/Module.antt =====
-- The runtime of app/module/, the package that comes before app/: app_runtime.go, app.go,
-- component_registry.go, and the accessors of module_base.go by which a service gets its
-- components. A component is a pointer, by the number of its creation; `none` is a panic.
pub mod Initialize
pub mod Calls
pub mod Names
pub mod Sound
pub mod Access
pub mod Runs
pub mod Start
pub mod Properties
pub mod Tasks
use go_infra.Prelude.{
  ℕ, ◌==◌, Bool, true, false, Option, none, some, List, [], ◌∷◌, ◌++◌, ◌≡◌, arith, if◌then◌else◌,
}
use go_infra.Prelude.Text.{Text, codes, is_empty}
use go_infra.Prelude.Dict.{Dict, lookup, insert}
use go_infra.Config.Property.{PropertyRuntime, new_property_runtime}
use go_infra.App.Lifecycle.{Task, no_startup, no_shutdown, add_serve, add_stop_server}
use go_infra.App.Runtime.{LifecycleManager, StartupProbe}

-- The dynamic types that the accessors tell apart.
pub data ComponentType : Type 0 where
  kafka rabbitmq mongo grpc grpc_client db redis redis_lock deduplicator scheduler : ComponentType

-- The fields of a component that say what it has registered, and the name of the component for
-- Redis that a lock manager and a deduplicator are made with. `serve_registered` is the field
-- `startRegistered` of the gRPC server; `release_registered` stands for `shutdownRegistered` of the
-- clients, and `server_registered` for that of the server.
pub record Component : Type 0 where
  pub kind : ComponentType
  pub id : ℕ
  pub redis_component_name : Text
  pub start_registered : Bool
  pub stop_registered : Bool
  pub close_producer_added : Bool
  pub release_registered : Bool
  pub serve_registered : Bool
  pub server_registered : Bool

pub record AppRuntime (W : Type 0) : Type 0 where
  pub lifecycle : LifecycleManager W
  pub components : Dict Component
  pub property : PropertyRuntime
  pub probe : StartupProbe
  pub next_id : ℕ

-- What the tasks call: the web server, and the methods of a component.
pub record Environment (W : Type 0) : Type 0 where
  pub web_start : Task W
  pub web_shutdown : Task W
  pub start : ℕ → Task W
  pub stop : ℕ → Task W
  pub await_termination : ℕ → Task W
  pub close_producer : ℕ → Task W
  pub close : ℕ → Task W
  pub shutdown : ℕ → Task W

-- The names of the components.
abbrev pub default_name : ComponentType → Text
default_name kafka = codes "Kafka"
default_name rabbitmq = codes "RabbitMQ"
default_name mongo = codes "Mongo"
default_name grpc = codes "Grpc"
default_name grpc_client = codes "GrpcClient"
default_name db = codes "DB"
default_name redis = codes "Redis"
default_name redis_lock = codes "RedisLock"
default_name deduplicator = codes "Deduplicator"
default_name scheduler = codes "Scheduler"

-- `kafkaComponentName` and its kin.
abbrev pub name_of : ComponentType → Text → Text
name_of t name = if is_empty name then default_name t else default_name t ++ b':' ∷ name

-- The name that an accessor takes from its optional argument.
abbrev pub given_name : List Text → Text
given_name [] = []
given_name (name ∷ more) = name

abbrev type_code : ComponentType → ℕ
type_code kafka = 0
type_code rabbitmq = 1
type_code mongo = 2
type_code grpc = 3
type_code grpc_client = 4
type_code db = 5
type_code redis = 6
type_code redis_lock = 7
type_code deduplicator = 8
type_code scheduler = 9

-- A type assertion.
unfoldable pub has_type : ComponentType → Component → Bool
has_type t c = type_code t == type_code c.kind

pub has_type_self : (c : Component) → has_type c.kind c ≡ true
unfolding has_type
has_type_self c = ground arith

module _ {W : Type 0} where
  -- `ComponentRegistry.Register` and `LookupComponent`
  unfoldable pub register_as : Text → Component → AppRuntime W → AppRuntime W
  register_as name c r = record r { components = insert name c r.components }

  unfoldable pub lookup_as : Text → AppRuntime W → Option Component
  lookup_as name r = lookup name r.components

  -- The component that is registered, if its type is the expected one; else a panic.
  abbrev pub typed : ComponentType → Component → AppRuntime W → Option (AppRuntime W × Component)
  typed t c r = if has_type t c then some (r, c) else none

-- `NewAppRuntime`
unfoldable pub new_app_runtime : {W : Type 0} → Environment W → AppRuntime W
new_app_runtime env = record {
  lifecycle = record {
    startup = add_serve env.web_start no_startup;
    shutdown = add_stop_server env.web_shutdown no_shutdown;
    started = false;
  };
  components = [];
  property = new_property_runtime;
  probe = record { host_uris = []; urls = [] };
  next_id = 0;
}

-- `Lifecycle.Started = true` of `App.Start`
abbrev pub mark_started : {W : Type 0} → AppRuntime W → AppRuntime W
mark_started r = record r { lifecycle = record r.lifecycle { started = true } }
