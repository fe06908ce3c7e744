-- ===== src/App/Runtime/Components.antt =====
-- `Runtime.RegisterComponent` of app/register_component.go, and `Initialize` of the components of
-- redis/, kafka/, rabbitmq/, scheduler/, db/ and postgres/: the tasks that a component adds, each
-- guarded by its flag. `none` is a panic.
use go_infra.Prelude.{◌∷◌, Bool, true, Option, none, some, if◌then◌else◌}
use go_infra.Prelude.Text.{Text}
use go_infra.App.Lifecycle.{
  add_start, add_stop_background, add_await_background, add_close_producers, add_release_resources,
}
use go_infra.App.Runtime.{
  Kind, redis, redis_lock, dedupe, kafka, rabbitmq, scheduler, db, postgres, other, Component,
  Runtime, Environment, mem_id, set_startup, set_shutdown, register_in,
}

module _ {W : Type 0} (env : Environment W) where
  abbrev pub with_start_task : Component → Runtime W → Runtime W
  with_start_task c r =
      if mem_id c.id r.start_registered
      then r
      else record (set_startup (add_start (env.start c.id) r.lifecycle.startup) r) {
        start_registered = c.id ∷ r.start_registered;
      }

  abbrev pub with_stop_tasks : Component → Runtime W → Runtime W
  with_stop_tasks c r =
      if mem_id c.id r.stop_registered
      then r
      else record (set_shutdown
          (add_await_background (env.await_termination c.id)
            (add_stop_background (env.stop c.id) r.lifecycle.shutdown))
          r) { stop_registered = c.id ∷ r.stop_registered }

  abbrev pub with_producer_task : Component → Runtime W → Runtime W
  with_producer_task c r =
      if mem_id c.id r.close_producer_added
      then r
      else record (set_shutdown (add_close_producers (env.close_producer c.id) r.lifecycle.shutdown)
          r) { close_producer_added = c.id ∷ r.close_producer_added }

  abbrev pub with_close_task : Component → Runtime W → Runtime W
  with_close_task c r =
      if mem_id c.id r.shutdown_registered
      then r
      else record (set_shutdown (add_release_resources (env.close c.id) r.lifecycle.shutdown) r) {
        shutdown_registered = c.id ∷ r.shutdown_registered;
      }

  unfoldable pub initialize_redis : Component → Runtime W → Runtime W
  initialize_redis c r = with_close_task c r

  unfoldable pub initialize_db : Component → Runtime W → Runtime W
  initialize_db c r = with_close_task c r

  unfoldable pub initialize_postgres : Component → Runtime W → Runtime W
  initialize_postgres c r = with_close_task c r

  unfoldable pub initialize_kafka : Component → Runtime W → Runtime W
  initialize_kafka c r = with_producer_task c (with_stop_tasks c (with_start_task c r))

  unfoldable pub initialize_rabbitmq : Component → Runtime W → Runtime W
  initialize_rabbitmq c r = with_close_task c (with_stop_tasks c (with_start_task c r))

  unfoldable pub initialize_scheduler : Component → Runtime W → Runtime W
  initialize_scheduler c r = with_stop_tasks c (with_start_task c r)

  unfoldable pub initialize_kind : Kind → Component → Text → Runtime W → Option (Runtime W)
  initialize_kind redis c name r = some (initialize_redis c r)
  initialize_kind redis_lock c name r = some r
  initialize_kind dedupe c name r = some r
  initialize_kind kafka c name r = some (initialize_kafka c r)
  initialize_kind rabbitmq c name r = some (initialize_rabbitmq c r)
  initialize_kind scheduler c name r = some (initialize_scheduler c r)
  initialize_kind db c name r = some (initialize_db c r)
  initialize_kind postgres c name r = some (initialize_postgres c r)
  initialize_kind other c name r = env.initialize_other c name r

  unfoldable pub validates_kind : Kind → Component → Bool
  validates_kind other c = env.validates_other c
  validates_kind _ c = true

  unfoldable pub register_component : Text → Component → Runtime W → Option (Runtime W)
  register_component name c r =
      if r.lifecycle.started then none else elim (initialize_kind c.kind c name r) [
        | none ↦ none
        | some r' ↦ if validates_kind c.kind c then some (register_in name c r') else none
      ]
