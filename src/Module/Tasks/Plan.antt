-- ===== src/Module/Tasks/Plan.antt =====
-- What `StartServer` of app/module/ runs, by the components that the service asked for.
use go_infra.Prelude.{Option, none, some, List, ◌∷◌, ◌++◌, ◌≡◌, refl, ◌∙◌}
use go_infra.Prelude.Dict.{Dict}
use go_infra.Config.Property.{validate}
use go_infra.App.Lifecycle.{Task, run_tasks, startup_run_all, shutdown_run_all}
use go_infra.App.Lifecycle.Order.{startup_run_all_lem, shutdown_run_all_lem}
use go_infra.Module.{Component, AppRuntime, Environment, new_app_runtime, mark_started}
use go_infra.Module.Calls.{Call, get_components}
use go_infra.Module.Start.{
  Host, stopped, start_server, start_app, start_after_probe, start_tasks, serve_until_signal,
}
use go_infra.Module.Tasks.{
  is_background, is_server, is_producer, is_client, ids, up_to, tasks_of, lifecycle_of,
}
use go_infra.Module.Runs.{get_components-Planned}

module _ {W : Type 0} (env : Environment W) where
  -- A service whose `Initialize` makes some calls of the accessors.
  abbrev pub with_calls : List Call → AppRuntime W → Option (AppRuntime W)
  with_calls calls r = reached (get_components env calls r)
    where
      reached : Option (AppRuntime W × List Component) → Option (AppRuntime W)
      reached none = none
      reached (some (s, cs)) = some s

  -- The tasks of the startup and of the shutdown for some components.
  abbrev pub ups_for : Dict Component → List (Task W)
  ups_for d = tasks_of is_background env.start d ++ (env.web_start ∷ tasks_of is_server env.start d)

  abbrev pub downs_for : Dict Component → List (Task W)
  downs_for d =
      tasks_of is_background env.stop d
      ++ (tasks_of is_background env.await_termination d
          ++ (tasks_of is_producer env.close_producer d
              ++ (tasks_of is_client env.close d
                  ++ (env.web_shutdown ∷ tasks_of is_server env.shutdown d))))

  start_app_lem :
      (host : Host W) (r : AppRuntime W) (w w2 w3 : W)
      → validate r.property ≡ none
      → (host.probe_check r.probe w).1 ≡ none
      → startup_run_all r.lifecycle.startup (host.probe_check r.probe w).0 ≡ some w2
      → shutdown_run_all r.lifecycle.shutdown (host.wait w2) ≡ some w3
      → start_app host r w ≡ stopped (mark_started r) w3
  unfolding start_app start_after_probe start_tasks serve_until_signal
  start_app_lem host r w w2 w3 valid probed up down =
      rw (valid, start_app, probed, start_after_probe, up, start_tasks, serve_until_signal, down)
        refl

  -- A service that asks for components, with its properties and its probe in order and no task that
  -- panics: the components are numbered in the order in which they were made. `StartServer` starts
  -- each of the background components once, in that order, then the web server and the gRPC server;
  -- after the signal it stops the background components, awaits them, closes the producers, closes
  -- the clients, and shuts the servers down, each once.
  pub start_server_plan :
      (host : Host W) (calls : List Call) (s : AppRuntime W) (cs : List Component) (w w2 w3 : W)
      → get_components env calls (new_app_runtime env) ≡ some (s, cs)
      → validate s.property ≡ none
      → (host.probe_check s.probe w).1 ≡ none
      → run_tasks (ups_for s.components) (host.probe_check s.probe w).0 ≡ some w2
      → run_tasks (downs_for s.components) (host.wait w2) ≡ some w3
      → (ids s.components ≡ up_to s.next_id)
        × (start_server host env (with_calls calls) w ≡ stopped (mark_started s) w3)
  unfolding start_server
  start_server_plan host calls s cs w w2 w3 e valid probed up down =
      let plan = get_components-Planned env calls s cs e in
      (
        plan.numbered,
        rw (e, start_server, with_calls)
            (start_app_lem host s w w2 w3 valid probed
              (rw plan.lifecycle (startup_run_all_lem (lifecycle_of env s.components).startup _)
                ∙ up)
              (rw plan.lifecycle (shutdown_run_all_lem (lifecycle_of env s.components).shutdown _)
                ∙ down)),
      )
