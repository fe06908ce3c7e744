-- ===== src/App/Runtime.antt =====
-- `Runtime`, `App` and `ComponentRegistry` of app/, with the lifecycle of App.Lifecycle and the
-- properties of Config.Property. A component is a pointer with its dynamic type.
pub mod Components
pub mod Start
use go_infra.Prelude.{
  ℕ, ◌==◌, Bool, true, false, ◌||◌, Option, none, some, List, [], ◌∷◌, ◌++◌, if◌then◌else◌,
}
use go_infra.Prelude.Text.{Text}
use go_infra.Prelude.Dict.{Dict, lookup, insert}
use go_infra.Config.Property.{PropertyRuntime, new_property_runtime, validate}
use go_infra.App.Lifecycle.{
  Task, StartupLifecycle, ShutdownLifecycle, no_startup, no_shutdown, add_serve,
  add_release_resources, add_stop_server, startup_run_all, shutdown_run_all,
}

-- The dynamic types that the `Register` functions tell apart.
pub data Kind : Type 0 where
  redis redis_lock dedupe kafka rabbitmq scheduler db postgres other : Kind

-- A pointer to a component, by the number of its creation. `redis_component_name` is a field of
-- the lock manager's and of the deduplicator's component that is set when they are made.
pub record Component : Type 0 where
  pub kind : Kind
  pub id : ℕ
  pub redis_component_name : Text

pub record LifecycleManager (W : Type 0) : Type 0 where
  pub startup : StartupLifecycle W
  pub shutdown : ShutdownLifecycle W
  pub started : Bool

pub record StartupProbe : Type 0 where
  pub host_uris : List Text
  pub urls : List Text

-- `start_registered` and the three lists after it hold the components in which that flag is set;
-- `startupRegistered` of the scheduler is in the first, its `shutdownRegistered` in the second, and
-- `releaseRegistered` of rabbitmq/ in the last. `next_id` is the number of the next component.
pub record Runtime (W : Type 0) : Type 0 where
  pub lifecycle : LifecycleManager W
  pub components : Dict Component
  pub property : PropertyRuntime
  pub probe : StartupProbe
  pub start_registered : List ℕ
  pub stop_registered : List ℕ
  pub close_producer_added : List ℕ
  pub shutdown_registered : List ℕ
  pub next_id : ℕ

-- What the runtime calls: the web server, the methods of the components, the network for the probe, the
-- `Initialize` and `Validate` of the other components, and the wait for a signal while the
-- application serves.
pub record Environment (W : Type 0) : Type 0 where
  pub web_start : Task W
  pub web_shutdown : Task W
  pub start : ℕ → Task W
  pub stop : ℕ → Task W
  pub await_termination : ℕ → Task W
  pub close_producer : ℕ → Task W
  pub close : ℕ → Task W
  pub probe_check : StartupProbe → W → W × Option Text
  pub initialize_other : Component → Text → Runtime W → Option (Runtime W)
  pub validates_other : Component → Bool
  pub wait : W → W

-- How `App.Start` ends. A panic of a task is `panicked`.
pub data Ending (W : Type 0) : Type 0 where
  unused_properties : List Text → Ending W
  probe_failed : Text → W → Ending W
  panicked : Ending W
  stopped : Runtime W → W → Ending W

abbrev pub mem_id : ℕ → List ℕ → Bool
mem_id n [] = false
mem_id n (x ∷ xs) = x == n || mem_id n xs

module _ {W : Type 0} where
  abbrev pub set_startup : StartupLifecycle W → Runtime W → Runtime W
  set_startup s r = record r { lifecycle = record r.lifecycle { startup = s } }

  abbrev pub set_shutdown : ShutdownLifecycle W → Runtime W → Runtime W
  set_shutdown s r = record r { lifecycle = record r.lifecycle { shutdown = s } }

  abbrev pub mark_started : Runtime W → Runtime W
  mark_started r = record r { lifecycle = record r.lifecycle { started = true } }

  -- `OnShutdown`; `none` is nil.
  unfoldable pub on_shutdown : Option (Task W) → Runtime W → Runtime W
  on_shutdown none r = r
  on_shutdown (some fn) r = set_shutdown (add_release_resources fn r.lifecycle.shutdown) r

  -- `ComponentRegistry.Register` and `LookupComponent`
  unfoldable pub register_in : Text → Component → Runtime W → Runtime W
  register_in name c r = record r { components = insert name c r.components }

  unfoldable pub lookup_component : Text → Runtime W → Option Component
  lookup_component name r = lookup name r.components

module _ {W : Type 0} (env : Environment W) where
  unfoldable pub new_runtime : Runtime W
  new_runtime = record {
    lifecycle = record {
      startup = add_serve env.web_start no_startup;
      shutdown = add_stop_server env.web_shutdown no_shutdown;
      started = false;
    };
    components = [];
    property = new_property_runtime;
    probe = record { host_uris = []; urls = [] };
    start_registered = [];
    stop_registered = [];
    close_producer_added = [];
    shutdown_registered = [];
    next_id = 0;
  }

  -- `App.Start` after the startup tasks.
  serve_and_stop : Runtime W → W → Ending W
  serve_and_stop r w = elim (shutdown_run_all r.lifecycle.shutdown (env.wait w)) [
    | none ↦ panicked
    | some w' ↦ stopped (mark_started r) w'
  ]

  start_checked : Runtime W → W → Ending W
  unfolding serve_and_stop
  start_checked r w = elim (startup_run_all r.lifecycle.startup w) [
    | none ↦ panicked
    | some w' ↦ serve_and_stop r w'
  ]

  start_probed : Runtime W → W × Option Text → Ending W
  unfolding start_checked
  start_probed r (w, some e) = probe_failed e w
  start_probed r (w, none) = start_checked r w

  unfoldable pub app_start : Runtime W → W → Ending W
  unfolding start_probed
  app_start r w = elim (validate r.property) [
    | some unused ↦ unused_properties unused
    | none ↦ start_probed r (env.probe_check r.probe w)
  ]
