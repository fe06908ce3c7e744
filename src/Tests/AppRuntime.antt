-- ===== src/Tests/AppRuntime.antt =====
-- The lifecycle and the components of app/ in a world that logs what runs.
use go_infra.Prelude.{ℕ, true, none, some, List, [], ◌∷◌, ◌++◌, ◌≡◌, refl}
use go_infra.Prelude.Text.{codes}
use go_infra.Prelude.Dict.{lookup}
use go_infra.Config.Property.{PropertyStore, validate, new_property_runtime}
use go_infra.App.Lifecycle.{Task, run_tasks}
use go_infra.App.Lifecycle.Order.{StartupPhase, ShutdownPhase}
use go_infra.App.Runtime.{
  Component, Kind, Runtime, Environment, stopped, new_runtime, mark_started, app_start,
  lookup_component,
}
use go_infra.App.Runtime.Start.{app_start_order, with_tasks}
use go_infra.App.Register.{lock_register, redis_register, ensure_redis}
use go_infra.App.Register.Once.{lock_register-once}

-- The task `n` writes its number.
abbrev log : ℕ → Task (List ℕ)
log n w = some (w ++ n ∷ [])

abbrev env : Environment (List ℕ)
env = record {
  web_start = log 100;
  web_shutdown = log 101;
  start = λ id. log 105;
  stop = λ id. log 106;
  await_termination = λ id. log 107;
  close_producer = λ id. log 108;
  close = λ id. log 102;
  probe_check = λ p w. (w ++ 103 ∷ [], none);
  initialize_other = λ c name r. some r;
  validates_other = λ c. true;
  wait = λ w. w ++ 104 ∷ [];
}

abbrev ups : List (StartupPhase × Task (List ℕ))
ups =
    (StartupPhase.serve, log 3)
    ∷ (StartupPhase.start, log 2)
    ∷ (StartupPhase.initialize, log 1)
    ∷ []

abbrev downs : List (ShutdownPhase × Task (List ℕ))
downs =
    (ShutdownPhase.stop_server, log 7)
    ∷ (ShutdownPhase.release_resources, log 6)
    ∷ (ShutdownPhase.stop_background, log 5)
    ∷ []

abbrev one_key : PropertyStore
one_key = record { values = (codes "web.addr", codes ":80") ∷ [] }

abbrev full : Runtime (List ℕ)
full = record (with_tasks env ups downs (new_runtime env)) { property = new_property_runtime }

abbrev full_log : List ℕ
full_log = 103 ∷ 1 ∷ 2 ∷ 100 ∷ 3 ∷ 104 ∷ 5 ∷ 6 ∷ 101 ∷ 7 ∷ []

app_start_order_example : app_start env full [] ≡ stopped (mark_started full) full_log
unfolding run_tasks validate new_property_runtime new_runtime
app_start_order_example =
    app_start_order env ups downs new_property_runtime [] (103 ∷ 1 ∷ 2 ∷ 100 ∷ 3 ∷ []) full_log refl
      refl refl refl

some_component : Component
some_component = record { kind = Kind.other; id = 9; redis_component_name = [] }

lock_register-once_example :
    (r' : Runtime (List ℕ)) × (c found : Component) × (lock_register env
        (codes "jobs")
        (new_runtime env)
      ≡ some (r', c))
    × (lock_register env (codes "jobs") r' ≡ some (r', c))
    × (ensure_redis c r' ≡ some found)
    × (redis_register env (codes "jobs") r' ≡ some (r', found))
unfolding lookup_component lookup new_runtime
lock_register-once_example = lock_register-once env (codes "jobs") (new_runtime env) refl refl tt
