-- ===== src/Scheduler.antt =====
-- `Engine` of internal/scheduler/scheduler.go. The cron library is a parameter over the world `W`: a
-- scheduler of the library is a number, as is an entry. A time is a number, and the zero time is 0.
pub mod Jobs
pub mod Component
use go_infra.Prelude.{ℕ, Bool, true, false, Option, none, some, List, [], ◌∷◌, map, if◌then◌else◌}
use go_infra.Prelude.Text.{Text}
use go_infra.Prelude.Sort.{text_leb}
use go_infra.Prelude.Dict.{Dict, lookup, insert}

-- An option of `cron.New`: the parser with optional seconds, or a location.
pub data CronOption : Type 0 where
  with_parser : CronOption
  with_location : Text → CronOption

pub record Entry : Type 0 where
  pub next : ℕ
  pub prev : ℕ

abbrev pub Job : Type 0 → Type 0
Job W = W → W

pub data Scheduled : Type 0 where
  entered : ℕ → Scheduled
  refused : Text → Scheduled

pub record Cron (W : Type 0) : Type 0 where
  pub new_cron : CronOption → W → ℕ × W
  pub add_entry : ℕ → Text → Job W → W → W × Scheduled
  pub remove_entry : ℕ → ℕ → W → W
  pub start_cron : ℕ → W → W
  pub stop_cron : ℕ → W → W
  pub entry : ℕ → ℕ → W → Entry

pub record JobInfo : Type 0 where
  pub id : ℕ
  pub name : Text
  pub spec : Text
  pub next : ℕ
  pub prev : ℕ

-- The counter of running tasks is left out.
pub record Engine : Type 0 where
  pub cron : ℕ
  pub panic_on_any_add_error : Bool
  pub job_info : Dict JobInfo
  pub stopped : Bool

abbrev pub cron_option : Option Text → CronOption
cron_option none = with_parser
cron_option (some location) = with_location location

-- What `AddFuncWithName` ends with.
pub data Added (W : Type 0) : Type 0 where
  panicked : Added W
  failed : Text → W → Added W
  added : ℕ → Engine → W → Added W

-- The order of `JobsInfo`.
insert_by_name : JobInfo → List JobInfo → List JobInfo
insert_by_name x [] = x ∷ []
insert_by_name x (y ∷ ys) =
    let rest = insert_by_name x ys in if text_leb x.name y.name then x ∷ y ∷ ys else y ∷ rest

sort_by_name : List JobInfo → List JobInfo
unfolding insert_by_name
sort_by_name [] = []
sort_by_name (x ∷ xs) = insert_by_name x (sort_by_name xs)

module _ {W : Type 0} (lib : Cron W) where
  unfoldable pub new_engine : Option Text → W → Engine × W
  new_engine location w =
      let (cron, w') = lib.new_cron (cron_option location) w in
      (record { cron = cron; panic_on_any_add_error = false; job_info = []; stopped = false }, w')

  add_entered : Text → Text → Engine → W × Scheduled → Added W
  add_entered spec action e (w, refused why) =
      if e.panic_on_any_add_error then panicked else failed why w
  add_entered spec action e (w, entered id) =
      let info : JobInfo = record { id = id; name = action; spec = spec; next = 0; prev = 0 } in
      added id (record e { job_info = insert action info e.job_info }) w

  unfoldable pub add_func_with_name : Text → Text → Job W → Engine → W → Added W
  unfolding add_entered
  add_func_with_name spec action process e w = elim (lookup action e.job_info) [
    | some info ↦ panicked
    | none ↦ add_entered spec action e (lib.add_entry e.cron spec process w)
  ]

  abbrev pub remove : ℕ → Engine → W → W
  remove id e w = lib.remove_entry e.cron id w

  abbrev pub start : Engine → W → W
  start e w = lib.start_cron e.cron w

  abbrev pub stop : Engine → W → Engine × W
  stop e w = (record e { stopped = true }, lib.stop_cron e.cron w)

  -- A job with the times of its entry.
  abbrev pub timed : Engine → W → JobInfo → JobInfo
  timed e w info =
      let entry = lib.entry e.cron info.id w in record info { next = entry.next; prev = entry.prev }

  -- `JobsInfo`; `ranged` are the jobs in the order in which the map is ranged over.
  unfoldable pub jobs_info : List JobInfo → Engine → W → List JobInfo
  unfolding sort_by_name
  jobs_info ranged e w = sort_by_name (map (timed e w) ranged)
