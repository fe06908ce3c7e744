-- ===== src/Tests/SchedulerJobs.antt =====
-- The engine of internal/scheduler/ over a scheduler that numbers its entries.
use mathlib.Core.List.Perm
use go_infra.Prelude.{ℕ, ◌+◌, ◌≡◌, true, false, none, some, [], ◌∷◌, refl, map, All}
use go_infra.Prelude.Text.{Text, codes, text_eq}
use go_infra.Prelude.Sort.{text_leb, insert_sorted, sort_strings}
use go_infra.Prelude.Dict.{lookup, insert}
use go_infra.Scheduler.{
  Cron, entered, JobInfo, Engine, panicked, add_func_with_name, jobs_info, new_engine,
}
use go_infra.Scheduler.Jobs.{adds, removes, stops, run, name_taken, jobs_info-sort_strings, IsTimed}

abbrev counting : Cron ℕ
counting = record {
  new_cron = λ option w. (0, w);
  add_entry = λ c spec job w. (w + 1, entered w);
  remove_entry = λ c id w. w;
  start_cron = λ c w. w;
  stop_cron = λ c w. w;
  entry = λ c id w. record { next = id + 60; prev = id };
}

abbrev empty_engine : Engine
empty_engine = record { cron = 0; panic_on_any_add_error = false; job_info = []; stopped = false }

abbrev info : ℕ → Text → JobInfo
info id name = record { id = id; name = name; spec = codes "@daily"; next = 0; prev = 0 }

abbrev one_job : Engine
one_job = record empty_engine { job_info = (codes "b", info 5 (codes "b")) ∷ [] }

name_taken_example :
    ((x : JobInfo) × (x.id ≡ 5) × (lookup (codes "b") one_job.job_info ≡ some x))
    × (add_func_with_name counting
          (codes "@hourly")
          (codes "b")
          (λ w. w)
          (record one_job { stopped = true })
          6
        ≡ panicked)
unfolding add_func_with_name run lookup insert text_eq
name_taken_example =
    name_taken counting (codes "@daily") (codes "@hourly") (codes "b") (λ w. w) (λ w. w)
      (removes 5 ∷ stops ∷ []) empty_engine one_job (record one_job { stopped = true }) 5 6 6 5 refl
      refl

abbrev two_jobs : Engine
two_jobs = record empty_engine {
  job_info = (codes "b", info 0 (codes "b")) ∷ (codes "a", info 1 (codes "a")) ∷ [];
}

jobs_info-sort_strings_example :
    (map
        (λ (i : JobInfo). i.name)
        (jobs_info counting (info 1 (codes "a") ∷ info 0 (codes "b") ∷ []) two_jobs 2)
      ≡ codes "a" ∷ codes "b" ∷ [])
    × All
        (IsTimed counting two_jobs 2)
        (jobs_info counting (info 1 (codes "a") ∷ info 0 (codes "b") ∷ []) two_jobs 2)
unfolding add_func_with_name run lookup insert text_eq new_engine sort_strings text_leb
    insert_sorted
jobs_info-sort_strings_example =
    jobs_info-sort_strings counting none
      (adds (codes "@daily") (codes "b") (λ w. w) ∷ adds (codes "@daily") (codes "a") (λ w. w) ∷ [])
      0 2 two_jobs (info 1 (codes "a") ∷ info 0 (codes "b") ∷ []) refl
      (Perm.swap (codes "b") (codes "a") [])
