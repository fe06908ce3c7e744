-- ===== src/Scheduler/Component.antt =====
-- `Component` of scheduler/component.go, over the engine.
use go_infra.Prelude.{ℕ, Bool, Option, none, some, List}
use go_infra.Prelude.Text.{Text}
use go_infra.Scheduler
use go_infra.Scheduler.{
  Cron, Job, JobInfo, Engine, Added, panicked, failed, added, new_engine, add_func_with_name,
  jobs_info,
}

pub record SchedulerComponent : Type 0 where
  pub engine : Option Engine
  pub location : Option Text
  pub panic_on_any_add_error : Bool

abbrev pub set_panic_on_any_add_error : Bool → SchedulerComponent → SchedulerComponent
set_panic_on_any_add_error val c = elim c.engine [
  | none ↦ record c { panic_on_any_add_error = val }
  | some e ↦ record c {
    panic_on_any_add_error = val;
    engine = some (record e { panic_on_any_add_error = val });
  }
]

abbrev pub set_location : Text → SchedulerComponent → SchedulerComponent
set_location location c = record c { location = some location }

-- What `AddFuncJobWithName` ends with.
pub data JobAdded (W : Type 0) : Type 0 where
  job_panicked : JobAdded W
  job_failed : Text → SchedulerComponent → W → JobAdded W
  job_added : ℕ → SchedulerComponent → W → JobAdded W

module _ {W : Type 0} (lib : Cron W) where
  -- `ensureEngine`, with the engine that the component then has.
  unfoldable pub ensure_engine : SchedulerComponent → W → SchedulerComponent × Engine × W
  ensure_engine c w = elim c.engine [
    | some e ↦ (c, e, w)
    | none ↦
        let (made, w') = new_engine lib c.location w in
        let e = record made { panic_on_any_add_error = c.panic_on_any_add_error } in
        (record c { engine = some e }, e, w')
  ]

  job_end : SchedulerComponent → Added W → JobAdded W
  job_end c panicked = job_panicked
  job_end c (failed why w) = job_failed why c w
  job_end c (added id e w) = job_added id (record c { engine = some e }) w

  unfoldable pub add_func_job_with_name : Text → Text → Job W → SchedulerComponent → W → JobAdded W
  unfolding job_end
  add_func_job_with_name spec name fn c w =
      let (c', e, w') = ensure_engine c w in job_end c' (add_func_with_name lib spec name fn e w')

  unfoldable pub remove_job : ℕ → SchedulerComponent → W → SchedulerComponent × W
  remove_job id c w = let (c', e, w') = ensure_engine c w in (c', Scheduler.remove lib id e w')

  unfoldable pub component_start : SchedulerComponent → W → SchedulerComponent × W
  component_start c w = let (c', e, w') = ensure_engine c w in (c', Scheduler.start lib e w')

  unfoldable pub component_stop : SchedulerComponent → W → SchedulerComponent × W
  component_stop c w = elim c.engine [
    | none ↦ (c, w)
    | some e ↦ let (e', w') = Scheduler.stop lib e w in (record c { engine = some e' }, w')
  ]

  unfoldable pub component_jobs_info :
      (Engine → List JobInfo) → SchedulerComponent → W → SchedulerComponent × List JobInfo × W
  component_jobs_info ranged c w =
      let (c', e, w') = ensure_engine c w in (c', jobs_info lib (ranged e) e w', w')
