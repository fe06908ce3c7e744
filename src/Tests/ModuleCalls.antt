-- ===== src/Tests/ModuleCalls.antt =====
-- A service of app/module/ that asks for components of most types, some of them twice.
use go_infra.Prelude.{ℕ, ◌+◌, false, none, some, List, [], ◌∷◌, ◌++◌, ◌≡◌, refl}
use go_infra.Prelude.Text.{codes, text_eq}
use go_infra.Prelude.Dict.{lookup, insert}
use go_infra.Config.Property.{validate, new_property_runtime}
use go_infra.App.Lifecycle.{Task, run_tasks}
use go_infra.Module.{
  kafka, grpc, redis, redis_lock, deduplicator, scheduler, Component, AppRuntime, Environment,
  new_app_runtime, register_as, lookup_as, has_type, mark_started,
}
use go_infra.Module.Initialize.{
  initialize, kafka_initialize, redis_initialize, grpc_initialize, scheduler_initialize,
}
use go_infra.Module.Calls.{
  Call, create, access, access_over_redis, get_component, get_components, redis_of,
}
use go_infra.Module.Runs.{kinds, asked, accessors-typed, accessors_again, redis_of-registered}
use go_infra.Module.Start.{Host, stopped, start_server}
use go_infra.Module.Tasks.{ids, up_to}
use go_infra.Module.Tasks.Plan.{with_calls, start_server_plan}

-- The world is a log: which method of which component was called.
abbrev logs : ℕ → ℕ → Task (List ℕ)
logs method i w = some (w ++ (method + i) ∷ [])

abbrev env : Environment (List ℕ)
env = record {
  web_start = logs 100 0;
  web_shutdown = logs 200 0;
  start = logs 300;
  stop = logs 400;
  await_termination = logs 500;
  close_producer = logs 600;
  close = logs 700;
  shutdown = logs 800;
}

abbrev host : Host (List ℕ)
host = record { probe_check = λ p w. (w, none); wait = λ w. w ++ 9 ∷ [] }

abbrev first_calls : List Call
first_calls =
    (kafka, codes "orders" ∷ []) ∷ (redis_lock, []) ∷ (grpc, []) ∷ (kafka, codes "orders" ∷ []) ∷ []

abbrev more_calls : List Call
more_calls = (deduplicator, codes "jobs" ∷ []) ∷ (scheduler, []) ∷ (redis, [] ∷ []) ∷ []

record Reached (calls : List Call) (r : AppRuntime (List ℕ)) : Type 0 where
  last : AppRuntime (List ℕ)
  components : List Component
  gives : get_components env calls r ≡ some (last, components)

abbrev first_run : Reached first_calls (new_app_runtime env)
unfolding get_components get_component access access_over_redis create initialize kafka_initialize
    redis_initialize grpc_initialize scheduler_initialize new_app_runtime register_as lookup_as
    has_type text_eq lookup insert
first_run = record { last = _; components = _; gives = refl }

abbrev more_run : Reached more_calls first_run.last
unfolding first_run get_components get_component access access_over_redis create initialize
    kafka_initialize redis_initialize grpc_initialize scheduler_initialize new_app_runtime
    register_as lookup_as has_type text_eq lookup insert
more_run = record { last = _; components = _; gives = refl }

first_ids : ids first_run.last.components ≡ 0 ∷ 1 ∷ 2 ∷ 3 ∷ []
unfolding first_run
first_ids = refl

accessors-typed_example :
    (s : AppRuntime (List ℕ)) × (cs : List Component) × (get_components env first_calls
        (new_app_runtime env)
      ≡ some (s, cs))
    × (kinds cs ≡ asked first_calls)
accessors-typed_example = accessors-typed env first_calls

accessors_again_example :
    get_components env first_calls (mark_started more_run.last)
    ≡ some (mark_started more_run.last, first_run.components)
accessors_again_example =
    accessors_again env first_calls more_calls first_run.last more_run.last first_run.components
      more_run.components first_run.gives more_run.gives

-- Component 2 is the lock manager, and 1 its component for Redis.
abbrev manager : Component
manager = record {
  kind = redis_lock;
  id = 2;
  redis_component_name = codes "Redis";
  start_registered = false;
  stop_registered = false;
  close_producer_added = false;
  release_registered = false;
  serve_registered = false;
  server_registered = false;
}

redis_of-registered_example :
    (found : Component) × (redis_of manager (mark_started first_run.last) ≡ some found)
    × (found.kind ≡ redis)
unfolding first_run lookup_as lookup text_eq
redis_of-registered_example =
    redis_of-registered env first_calls first_run.last first_run.components (codes "RedisLock")
      manager first_run.gives refl refl

start_server_plan_example :
    (ids first_run.last.components ≡ up_to first_run.last.next_id)
    × (start_server host env (with_calls env first_calls) []
        ≡ stopped
            (mark_started first_run.last)
            (300 ∷ 100 ∷ 303 ∷ 9 ∷ 400 ∷ 500 ∷ 600 ∷ 701 ∷ 200 ∷ 803 ∷ []))
unfolding first_run run_tasks validate new_property_runtime
start_server_plan_example =
    start_server_plan env host first_calls first_run.last first_run.components []
      (300 ∷ 100 ∷ 303 ∷ []) (300 ∷ 100 ∷ 303 ∷ 9 ∷ 400 ∷ 500 ∷ 600 ∷ 701 ∷ 200 ∷ 803 ∷ [])
      first_run.gives refl refl refl refl
