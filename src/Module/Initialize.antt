-- ===== src/Module/Initialize.antt =====
-- `initialize` of the components of app/module/: the tasks that a component adds to the lifecycle,
-- each guarded by its field of the component.
use go_infra.Prelude.{true, if◌then◌else◌}
use go_infra.App.Lifecycle.{
  StartupLifecycle, ShutdownLifecycle, add_start, add_serve, add_stop_background,
  add_await_background, add_close_producers, add_release_resources, add_stop_server,
}
use go_infra.Module.{
  ComponentType, kafka, rabbitmq, mongo, grpc, grpc_client, db, redis, redis_lock, deduplicator,
  scheduler, Component, AppRuntime, Environment,
}

module _ {W : Type 0} where
  abbrev pub set_startup : StartupLifecycle W → AppRuntime W → AppRuntime W
  set_startup s r = record r { lifecycle = record r.lifecycle { startup = s } }

  abbrev pub set_shutdown : ShutdownLifecycle W → AppRuntime W → AppRuntime W
  set_shutdown s r = record r { lifecycle = record r.lifecycle { shutdown = s } }

module _ {W : Type 0} (env : Environment W) where
  abbrev add_start_task : AppRuntime W × Component → AppRuntime W × Component
  add_start_task (r, c) = if c.start_registered then (r, c) else (
    set_startup (add_start (env.start c.id) r.lifecycle.startup) r,
    record c { start_registered = true },
  )

  abbrev add_stop_tasks : AppRuntime W × Component → AppRuntime W × Component
  add_stop_tasks (r, c) = if c.stop_registered then (r, c) else (
    set_shutdown
        (add_await_background (env.await_termination c.id)
          (add_stop_background (env.stop c.id) r.lifecycle.shutdown))
        r,
    record c { stop_registered = true },
  )

  abbrev add_producer_task : AppRuntime W × Component → AppRuntime W × Component
  add_producer_task (r, c) = if c.close_producer_added then (r, c) else (
    set_shutdown (add_close_producers (env.close_producer c.id) r.lifecycle.shutdown) r,
    record c { close_producer_added = true },
  )

  abbrev add_release_task : AppRuntime W × Component → AppRuntime W × Component
  add_release_task (r, c) = if c.release_registered then (r, c) else (
    set_shutdown (add_release_resources (env.close c.id) r.lifecycle.shutdown) r,
    record c { release_registered = true },
  )

  abbrev add_serve_task : AppRuntime W × Component → AppRuntime W × Component
  add_serve_task (r, c) = if c.serve_registered then (r, c) else (
    set_startup (add_serve (env.start c.id) r.lifecycle.startup) r,
    record c { serve_registered = true },
  )

  abbrev add_stop_server_task : AppRuntime W × Component → AppRuntime W × Component
  add_stop_server_task (r, c) = if c.server_registered then (r, c) else (
    set_shutdown (add_stop_server (env.shutdown c.id) r.lifecycle.shutdown) r,
    record c { server_registered = true },
  )

  unfoldable pub kafka_initialize : AppRuntime W × Component → AppRuntime W × Component
  kafka_initialize p = add_producer_task (add_stop_tasks (add_start_task p))

  unfoldable pub rabbitmq_initialize : AppRuntime W × Component → AppRuntime W × Component
  rabbitmq_initialize p = add_release_task (add_stop_tasks (add_start_task p))

  unfoldable pub mongo_initialize : AppRuntime W × Component → AppRuntime W × Component
  mongo_initialize p = add_release_task p

  unfoldable pub db_initialize : AppRuntime W × Component → AppRuntime W × Component
  db_initialize p = add_release_task p

  unfoldable pub redis_initialize : AppRuntime W × Component → AppRuntime W × Component
  redis_initialize p = add_release_task p

  -- Its maps and the default size of its pools are set in Grpc.Clients.
  unfoldable pub grpc_client_initialize : AppRuntime W × Component → AppRuntime W × Component
  grpc_client_initialize p = add_release_task p

  unfoldable pub scheduler_initialize : AppRuntime W × Component → AppRuntime W × Component
  scheduler_initialize (r, c) =
      if c.start_registered then (r, c) else add_stop_tasks (add_start_task (r, c))

  unfoldable pub grpc_initialize : AppRuntime W × Component → AppRuntime W × Component
  grpc_initialize p = add_stop_server_task (add_serve_task p)

  unfoldable pub initialize : ComponentType → AppRuntime W × Component → AppRuntime W × Component
  initialize kafka p = kafka_initialize p
  initialize rabbitmq p = rabbitmq_initialize p
  initialize mongo p = mongo_initialize p
  initialize grpc p = grpc_initialize p
  initialize grpc_client p = grpc_client_initialize p
  initialize db p = db_initialize p
  initialize redis p = redis_initialize p
  initialize redis_lock p = p
  initialize deduplicator p = p
  initialize scheduler p = scheduler_initialize p
