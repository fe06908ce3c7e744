-- ===== src/App/Lifecycle/Order.antt =====
-- The order in which the tasks of internal/module run, whatever the order in which they were added.
use mathlib.Core.List.{append_assoc, append-nil}
use go_infra.Prelude.{
  and_then, Bool, true, false, Option, none, some, List, [], ◌∷◌, ◌++◌, ◌≡◌, refl, sym, ap, ◌∙◌,
  arith, if◌then◌else◌, Option-cases, inl, inr,
}
use go_infra.App.Lifecycle.{
  Task, StartupLifecycle, ShutdownLifecycle, add_initialize, add_start, add_serve, add_stop_ingress,
  add_await_requests, add_stop_background, add_await_background, add_close_producers,
  add_release_resources, add_stop_server, run_tasks, startup_run_all, shutdown_run_all,
}

-- The phases of the startup, and those of the shutdown.
pub data StartupPhase : Type 0 where
  initialize start serve : StartupPhase

pub data ShutdownPhase : Type 0 where
  stop_ingress await_requests stop_background await_background : ShutdownPhase
  close_producers release_resources stop_server : ShutdownPhase

abbrev pub same_startup : StartupPhase → StartupPhase → Bool
same_startup initialize initialize = true
same_startup start start = true
same_startup serve serve = true
same_startup _ _ = false

abbrev pub same_shutdown : ShutdownPhase → ShutdownPhase → Bool
same_shutdown stop_ingress stop_ingress = true
same_shutdown await_requests await_requests = true
same_shutdown stop_background stop_background = true
same_shutdown await_background await_background = true
same_shutdown close_producers close_producers = true
same_shutdown release_resources release_resources = true
same_shutdown stop_server stop_server = true
same_shutdown _ _ = false

-- The tasks of one phase among those that were added, in their order.
abbrev pub of_phase : {P T : Type 0} → (P → P → Bool) → P → List (P × T) → List T
of_phase same p [] = []
of_phase same p ((q, t) ∷ rs) = let rest = of_phase same p rs in if same p q then t ∷ rest else rest

module _ {W : Type 0} where
  abbrev pub startup_add : StartupPhase → Task W → StartupLifecycle W → StartupLifecycle W
  startup_add initialize = add_initialize
  startup_add start = add_start
  startup_add serve = add_serve

  abbrev pub shutdown_add : ShutdownPhase → Task W → ShutdownLifecycle W → ShutdownLifecycle W
  shutdown_add stop_ingress = add_stop_ingress
  shutdown_add await_requests = add_await_requests
  shutdown_add stop_background = add_stop_background
  shutdown_add await_background = add_await_background
  shutdown_add close_producers = add_close_producers
  shutdown_add release_resources = add_release_resources
  shutdown_add stop_server = add_stop_server

  -- What the components of an application add, one after another.
  abbrev pub startup_add_all :
      List (StartupPhase × Task W) → StartupLifecycle W → StartupLifecycle W
  startup_add_all [] s = s
  startup_add_all ((p, t) ∷ rs) s = startup_add_all rs (startup_add p t s)

  abbrev pub shutdown_add_all :
      List (ShutdownPhase × Task W) → ShutdownLifecycle W → ShutdownLifecycle W
  shutdown_add_all [] s = s
  shutdown_add_all ((p, t) ∷ rs) s = shutdown_add_all rs (shutdown_add p t s)

  abbrev startup_tasks : StartupPhase → StartupLifecycle W → List (Task W)
  startup_tasks initialize s = s.initialize
  startup_tasks start s = s.start
  startup_tasks serve s = s.serve

  abbrev shutdown_tasks : ShutdownPhase → ShutdownLifecycle W → List (Task W)
  shutdown_tasks stop_ingress s = s.stop_ingress
  shutdown_tasks await_requests s = s.await_requests
  shutdown_tasks stop_background s = s.stop_background
  shutdown_tasks await_background s = s.await_background
  shutdown_tasks close_producers s = s.close_producers
  shutdown_tasks release_resources s = s.release_resources
  shutdown_tasks stop_server s = s.stop_server

  -- A task joins the end of its own phase and leaves the others alone.
  startup_tasks-add :
      (p q : StartupPhase) (t : Task W) (s : StartupLifecycle W)
      → startup_tasks p (startup_add q t s)
        ≡ (if same_startup p q then startup_tasks p s ++ t ∷ [] else startup_tasks p s)
  startup_tasks-add p q t s = ground arith

  shutdown_tasks-add :
      (p q : ShutdownPhase) (t : Task W) (s : ShutdownLifecycle W)
      → shutdown_tasks p (shutdown_add q t s)
        ≡ (if same_shutdown p q then shutdown_tasks p s ++ t ∷ [] else shutdown_tasks p s)
  shutdown_tasks-add p q t s = ground arith

join :
    {T : Type 0} (b : Bool) (xs rest : List T) (t : T)
    → (if b then xs ++ t ∷ [] else xs) ++ rest ≡ xs ++ (if b then t ∷ rest else rest)
join true xs rest t = append_assoc xs (t ∷ []) rest
join false xs rest t = refl

module _ {W : Type 0} where
  startup_tasks-add_all :
      (p : StartupPhase) (rs : List (StartupPhase × Task W)) (s : StartupLifecycle W)
      → startup_tasks p (startup_add_all rs s) ≡ startup_tasks p s ++ of_phase same_startup p rs
  startup_tasks-add_all p [] s = sym (append-nil _)
  startup_tasks-add_all p ((q, t) ∷ rs) s =
      startup_tasks-add_all p rs (startup_add q t s)
      ∙ ap (λ (xs : List (Task W)). xs ++ of_phase same_startup p rs) (startup_tasks-add p q t s)
      ∙ join (same_startup p q) _ _ t

  shutdown_tasks-add_all :
      (p : ShutdownPhase) (rs : List (ShutdownPhase × Task W)) (s : ShutdownLifecycle W)
      → shutdown_tasks p (shutdown_add_all rs s) ≡ shutdown_tasks p s ++ of_phase same_shutdown p rs
  shutdown_tasks-add_all p [] s = sym (append-nil _)
  shutdown_tasks-add_all p ((q, t) ∷ rs) s =
      shutdown_tasks-add_all p rs (shutdown_add q t s)
      ∙ ap (λ (xs : List (Task W)). xs ++ of_phase same_shutdown p rs) (shutdown_tasks-add p q t s)
      ∙ join (same_shutdown p q) _ _ t

  run_tasks-append :
      (xs ys : List (Task W)) (w : W)
      → run_tasks (xs ++ ys) w ≡ and_then (run_tasks xs w) (run_tasks ys)
  unfolding run_tasks
  run_tasks-append [] ys w = refl
  run_tasks-append (x ∷ xs) ys w = elim (Option-cases (x w)) [
    | inl e ↦ rw (e, run_tasks) refl
    | inr (w', e) ↦ rw (e, run_tasks) (run_tasks-append xs ys w')
  ]

  run_two :
      (xs ys : List (Task W)) (o : Option W)
      → and_then (and_then o (run_tasks xs)) (run_tasks ys) ≡ and_then o (run_tasks (xs ++ ys))
  run_two xs ys none = refl
  run_two xs ys (some w) = sym (run_tasks-append xs ys w)

  pub startup_run_all_lem :
      (s : StartupLifecycle W) (w : W)
      → startup_run_all s w ≡ run_tasks (s.initialize ++ (s.start ++ s.serve)) w
  unfolding startup_run_all
  startup_run_all_lem s w =
      run_two s.start s.serve (run_tasks s.initialize w)
      ∙ sym (run_tasks-append s.initialize (s.start ++ s.serve) w)

  pub shutdown_run_all_lem :
      (s : ShutdownLifecycle W) (w : W)
      → shutdown_run_all s w
        ≡ run_tasks
            (s.stop_ingress
              ++ (s.await_requests
                  ++ (s.stop_background
                      ++ (s.await_background
                          ++ (s.close_producers ++ (s.release_resources ++ s.stop_server))))))
            w
  unfolding shutdown_run_all
  shutdown_run_all_lem s w =
      run_two _ _ _
      ∙ run_two _ _ _
      ∙ run_two _ _ _
      ∙ run_two _ _ _
      ∙ run_two _ _ _
      ∙ sym (run_tasks-append s.stop_ingress _ w)

  -- Whatever tasks are added in whatever order, `StartupLifecycle.RunAll` runs the phases in their
  -- order and the tasks of a phase in the order in which they were added, up to a panic.
  pub startup_order :
      (rs : List (StartupPhase × Task W)) (s : StartupLifecycle W) (w : W)
      → startup_run_all (startup_add_all rs s) w
        ≡ run_tasks
            ((s.initialize ++ of_phase same_startup initialize rs)
              ++ ((s.start ++ of_phase same_startup start rs)
                  ++ (s.serve ++ of_phase same_startup serve rs)))
            w
  startup_order rs s w =
      rw
        (
          startup_run_all_lem (startup_add_all rs s) w,
          startup_tasks-add_all initialize rs s,
          startup_tasks-add_all start rs s,
          startup_tasks-add_all serve rs s,
        )
        refl

  -- Whatever tasks are added in whatever order, `ShutdownLifecycle.RunAll` runs the phases in their
  -- order and the tasks of a phase in the order in which they were added, up to a panic.
  pub shutdown_order :
      (rs : List (ShutdownPhase × Task W)) (s : ShutdownLifecycle W) (w : W)
      → shutdown_run_all (shutdown_add_all rs s) w
        ≡ run_tasks
            ((s.stop_ingress ++ of_phase same_shutdown stop_ingress rs)
              ++ ((s.await_requests ++ of_phase same_shutdown await_requests rs)
                  ++ ((s.stop_background ++ of_phase same_shutdown stop_background rs)
                      ++ ((s.await_background ++ of_phase same_shutdown await_background rs)
                          ++ ((s.close_producers ++ of_phase same_shutdown close_producers rs)
                              ++ ((s.release_resources
                                    ++ of_phase same_shutdown release_resources rs)
                                  ++ (s.stop_server ++ of_phase same_shutdown stop_server rs)))))))
            w
  shutdown_order rs s w =
      rw
        (
          shutdown_run_all_lem (shutdown_add_all rs s) w,
          shutdown_tasks-add_all stop_ingress rs s,
          shutdown_tasks-add_all await_requests rs s,
          shutdown_tasks-add_all stop_background rs s,
          shutdown_tasks-add_all await_background rs s,
          shutdown_tasks-add_all close_producers rs s,
          shutdown_tasks-add_all release_resources rs s,
          shutdown_tasks-add_all stop_server rs s,
        )
        refl
