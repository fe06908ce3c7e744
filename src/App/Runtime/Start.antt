-- ===== src/App/Runtime/Start.antt =====
-- `App.Start` of app/app.go: what must hold before a task runs, and the order of all that runs.
use go_infra.Prelude.{
  true, false, none, some, List, ◌∷◌, ◌++◌, ◌≡◌, refl, sym, ap, ◌∙◌, arith, Option-cases, inl, inr,
}
use go_infra.Prelude.Text.{Text}
use go_infra.Config.Property.{PropertyStore, PropertyRuntime, store_keys, contains, validate}
use go_infra.Config.Property.Usage.{read_all, fresh, validate-read_all}
use go_infra.App.Lifecycle.{
  Task, run_tasks, startup_run_all, shutdown_run_all, no_startup, no_shutdown, add_serve,
  add_stop_server,
}
use go_infra.App.Lifecycle.Order.{
  StartupPhase, ShutdownPhase, of_phase, same_startup, same_shutdown, startup_add_all,
  shutdown_add_all, startup_order, shutdown_order,
}
use go_infra.App.Runtime.{
  Component, Runtime, Environment, unused_properties, stopped, new_runtime, mark_started, app_start,
  start_probed, start_checked, serve_and_stop,
}
use go_infra.App.Runtime.Components.{register_component}

module _ {W : Type 0} (env : Environment W) where
  -- A property that is stored and that no component has read keeps the application from starting:
  -- neither the probe nor a task runs.
  pub app_start-unused :
      (ks : List Text) (s : PropertyStore) (k : Text) (r : Runtime W) (w : W)
      → r.property ≡ read_all ks (fresh s)
      → contains k (store_keys s) ≡ true
      → contains k ks ≡ false
      → (unused : List Text) × (app_start env r w ≡ unused_properties unused)
  unfolding app_start
  app_start-unused ks s k r w p stored unread = elim (Option-cases (validate r.property)) [
    | inl e ↦
        absurd (let read = (validate-read_all ks s).0 (ap validate (sym p) ∙ e) k stored in cc)
    | inr (unused, e) ↦ (unused, rw (e, app_start) refl)
  ]

  -- The runtime after its components have added their tasks.
  abbrev pub with_tasks :
      List (StartupPhase × Task W) → List (ShutdownPhase × Task W) → Runtime W → Runtime W
  with_tasks ups downs r = record r {
    lifecycle = record r.lifecycle {
      startup = startup_add_all ups r.lifecycle.startup;
      shutdown = shutdown_add_all downs r.lifecycle.shutdown;
    };
  }

  -- What the startup and the shutdown of a new runtime run, with the tasks of its components.
  abbrev pub ups_of : List (StartupPhase × Task W) → List (Task W)
  ups_of ups =
      of_phase same_startup StartupPhase.initialize ups
      ++ (of_phase same_startup StartupPhase.start ups
          ++ (env.web_start ∷ of_phase same_startup StartupPhase.serve ups))

  abbrev pub downs_of : List (ShutdownPhase × Task W) → List (Task W)
  downs_of downs =
      of_phase same_shutdown ShutdownPhase.stop_ingress downs
      ++ (of_phase same_shutdown ShutdownPhase.await_requests downs
          ++ (of_phase same_shutdown ShutdownPhase.stop_background downs
              ++ (of_phase same_shutdown ShutdownPhase.await_background downs
                  ++ (of_phase same_shutdown ShutdownPhase.close_producers downs
                      ++ (of_phase same_shutdown ShutdownPhase.release_resources downs
                          ++ (env.web_shutdown
                              ∷ of_phase same_shutdown ShutdownPhase.stop_server downs))))))

  ups_order :
      (ups : List (StartupPhase × Task W)) (w : W)
      → startup_run_all (startup_add_all ups (new_runtime env).lifecycle.startup) w
        ≡ run_tasks (ups_of ups) w
  unfolding new_runtime
  ups_order ups w = startup_order ups (add_serve env.web_start no_startup) w

  downs_order :
      (downs : List (ShutdownPhase × Task W)) (w : W)
      → shutdown_run_all (shutdown_add_all downs (new_runtime env).lifecycle.shutdown) w
        ≡ run_tasks (downs_of downs) w
  unfolding new_runtime
  downs_order downs w = shutdown_order downs (add_stop_server env.web_shutdown no_shutdown) w

  app_start_stopped :
      (r : Runtime W) (w w2 w3 : W)
      → validate r.property ≡ none
      → (env.probe_check r.probe w).1 ≡ none
      → startup_run_all r.lifecycle.startup (env.probe_check r.probe w).0 ≡ some w2
      → shutdown_run_all r.lifecycle.shutdown (env.wait w2) ≡ some w3
      → app_start env r w ≡ stopped (mark_started r) w3
  unfolding app_start start_probed start_checked serve_and_stop
  app_start_stopped r w w2 w3 valid probed up down =
      rw (valid, app_start, probed, start_probed, up, start_checked, serve_and_stop, down) refl

  -- With the properties and the probe in order, and no task that panics, `App.Start` of a new runtime
  -- runs the components' initializations and starts, then the web server and the other servers;
  -- after the signal it runs the components' shutdown tasks by phases, and the web server's after
  -- those of every phase but the last and before those of the last.
  pub app_start_order :
      (ups : List (StartupPhase × Task W)) (downs : List (ShutdownPhase × Task W))
      (p : PropertyRuntime) (w w2 w3 : W)
      → validate p ≡ none
      → (env.probe_check (new_runtime env).probe w).1 ≡ none
      → run_tasks (ups_of ups) (env.probe_check (new_runtime env).probe w).0 ≡ some w2
      → run_tasks (downs_of downs) (env.wait w2) ≡ some w3
      → let r = record (with_tasks ups downs (new_runtime env)) { property = p } in
        app_start env r w ≡ stopped (mark_started r) w3
  app_start_order ups downs p w w2 w3 valid probed up down =
      app_start_stopped (record (with_tasks ups downs (new_runtime env)) { property = p }) w w2 w3
        valid probed (ups_order ups _ ∙ up) (downs_order downs (env.wait w2) ∙ down)

  -- After `App.Start` has returned, `RegisterComponent` panics whatever the component.
  pub app_start-started :
      (r r' : Runtime W) (w w' : W) (name : Text) (c : Component)
      → app_start env r w ≡ stopped r' w'
      → register_component env name c r' ≡ none
  unfolding app_start register_component
  app_start-started r r' w w' name c e = ground arith
