-- ===== src/Module/Start.antt =====
-- `StartServer` and `App.Start` of app/module/app.go.
use go_infra.Prelude.{Option, none, some, List}
use go_infra.Prelude.Text.{Text}
use go_infra.Config.Property.{validate}
use go_infra.App.Lifecycle.{startup_run_all, shutdown_run_all}
use go_infra.App.Runtime.{StartupProbe}
use go_infra.Module.{AppRuntime, Environment, new_app_runtime, mark_started}

-- The network for the probe, and the wait for a signal while the application serves.
pub record Host (W : Type 0) : Type 0 where
  pub probe_check : StartupProbe → W → W × Option Text
  pub wait : W → W

-- How `StartServer` ends. The first three are panics: of the check of the properties, of the probe,
-- and of the service or a task.
pub data StartOutcome (W : Type 0) : Type 0 where
  unused_properties : List Text → StartOutcome W
  probe_failed : Text → W → StartOutcome W
  panicked : StartOutcome W
  stopped : AppRuntime W → W → StartOutcome W

module _ {W : Type 0} (host : Host W) where
  -- `App.Start` after the startup tasks.
  unfoldable pub serve_until_signal : AppRuntime W → W → StartOutcome W
  serve_until_signal r w = elim (shutdown_run_all r.lifecycle.shutdown (host.wait w)) [
    | none ↦ panicked
    | some w' ↦ stopped (mark_started r) w'
  ]

  unfoldable pub start_tasks : AppRuntime W → W → StartOutcome W
  start_tasks r w = elim (startup_run_all r.lifecycle.startup w) [
    | none ↦ panicked
    | some w' ↦ serve_until_signal r w'
  ]

  unfoldable pub start_after_probe : AppRuntime W → W × Option Text → StartOutcome W
  start_after_probe r (w, some e) = probe_failed e w
  start_after_probe r (w, none) = start_tasks r w

  unfoldable pub start_app : AppRuntime W → W → StartOutcome W
  start_app r w = elim (validate r.property) [
    | some unused ↦ unused_properties unused
    | none ↦ start_after_probe r (host.probe_check r.probe w)
  ]

  -- `initialize` is the service's own.
  unfoldable pub start_server :
      Environment W → (AppRuntime W → Option (AppRuntime W)) → W → StartOutcome W
  start_server env initialize w = elim (initialize (new_app_runtime env)) [
    | none ↦ panicked
    | some r ↦ start_app r w
  ]
