-- ===== src/App/Lifecycle.antt =====
-- The phases of internal/module/startup_tasks.go and internal/module/shutdown_tasks.go. A task is a
-- function of the world `W`, which holds what the tasks change; `none` is a panic.
pub mod Order
use go_infra.Prelude.{and_then, Option, none, some, List, [], ◌∷◌, ◌++◌}

abbrev pub Task : Type 0 → Type 0
Task W = W → Option W

pub record StartupLifecycle (W : Type 0) : Type 0 where
  pub initialize : List (Task W)
  pub start : List (Task W)
  pub serve : List (Task W)

pub record ShutdownLifecycle (W : Type 0) : Type 0 where
  pub stop_ingress : List (Task W)
  pub await_requests : List (Task W)
  pub stop_background : List (Task W)
  pub await_background : List (Task W)
  pub close_producers : List (Task W)
  pub release_resources : List (Task W)
  pub stop_server : List (Task W)

module _ {W : Type 0} where
  abbrev pub no_startup : StartupLifecycle W
  no_startup = record { initialize = []; start = []; serve = [] }

  abbrev pub no_shutdown : ShutdownLifecycle W
  no_shutdown = record {
    stop_ingress = [];
    await_requests = [];
    stop_background = [];
    await_background = [];
    close_producers = [];
    release_resources = [];
    stop_server = [];
  }

  abbrev pub add_initialize : Task W → StartupLifecycle W → StartupLifecycle W
  add_initialize t s = record s { initialize = s.initialize ++ t ∷ [] }

  abbrev pub add_start : Task W → StartupLifecycle W → StartupLifecycle W
  add_start t s = record s { start = s.start ++ t ∷ [] }

  abbrev pub add_serve : Task W → StartupLifecycle W → StartupLifecycle W
  add_serve t s = record s { serve = s.serve ++ t ∷ [] }

  abbrev pub add_stop_ingress : Task W → ShutdownLifecycle W → ShutdownLifecycle W
  add_stop_ingress t s = record s { stop_ingress = s.stop_ingress ++ t ∷ [] }

  abbrev pub add_await_requests : Task W → ShutdownLifecycle W → ShutdownLifecycle W
  add_await_requests t s = record s { await_requests = s.await_requests ++ t ∷ [] }

  abbrev pub add_stop_background : Task W → ShutdownLifecycle W → ShutdownLifecycle W
  add_stop_background t s = record s { stop_background = s.stop_background ++ t ∷ [] }

  abbrev pub add_await_background : Task W → ShutdownLifecycle W → ShutdownLifecycle W
  add_await_background t s = record s { await_background = s.await_background ++ t ∷ [] }

  abbrev pub add_close_producers : Task W → ShutdownLifecycle W → ShutdownLifecycle W
  add_close_producers t s = record s { close_producers = s.close_producers ++ t ∷ [] }

  abbrev pub add_release_resources : Task W → ShutdownLifecycle W → ShutdownLifecycle W
  add_release_resources t s = record s { release_resources = s.release_resources ++ t ∷ [] }

  abbrev pub add_stop_server : Task W → ShutdownLifecycle W → ShutdownLifecycle W
  add_stop_server t s = record s { stop_server = s.stop_server ++ t ∷ [] }

  -- `for _, task := range tasks`
  unfoldable pub run_tasks : List (Task W) → Task W
  run_tasks [] w = some w
  run_tasks (t ∷ ts) w = elim (t w) [ none ↦ none | some w' ↦ run_tasks ts w' ]

  unfoldable pub startup_run_all : StartupLifecycle W → Task W
  startup_run_all s w =
      and_then (and_then (run_tasks s.initialize w) (run_tasks s.start)) (run_tasks s.serve)

  unfoldable pub shutdown_run_all : ShutdownLifecycle W → Task W
  shutdown_run_all s w =
      let w1 = run_tasks s.stop_ingress w in
      let w2 = and_then w1 (run_tasks s.await_requests) in
      let w3 = and_then w2 (run_tasks s.stop_background) in
      let w4 = and_then w3 (run_tasks s.await_background) in
      let w5 = and_then w4 (run_tasks s.close_producers) in
      let w6 = and_then w5 (run_tasks s.release_resources) in and_then w6 (run_tasks s.stop_server)
