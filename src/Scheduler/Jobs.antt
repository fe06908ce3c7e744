-- ===== src/Scheduler/Jobs.antt =====
-- The table of jobs of internal/scheduler/scheduler.go over any calls of its engine.
use mathlib.Core.List.{Perm}
use mathlib.Core.Option.{some_inj}
use go_infra.Prelude.{
  ℕ, Option, none, some, List, [], ◌∷◌, ◌≡◌, refl, sym, ap, ◌∙◌, arith, map, All, Option-cases,
  Bool-cases, inl, inr, subst,
}
use go_infra.Prelude.Text.{Text, text_eq, text_eq_iff}
use go_infra.Prelude.Sort.{text_leb, insert_sorted, sort_strings, sort_strings-perm}
use go_infra.Prelude.Dict.{Dict, lookup, insert, keys, lookup-insert, lookup-insert_self}
use go_infra.Scheduler.{
  Cron, Job, Scheduled, entered, refused, JobInfo, Engine, Added, panicked, failed, added,
  new_engine, add_entered, add_func_with_name, remove, start, stop, timed, jobs_info,
  insert_by_name, sort_by_name,
}

-- Every job stands under its name.
abbrev pub IsNamed : Dict JobInfo → Type 0
IsNamed = All (λ (p : Text × JobInfo). p.1.name ≡ p.0)

insert-IsNamed :
    (k : Text) (info : JobInfo) (m : Dict JobInfo)
    → info.name ≡ k
    → IsNamed m
    → IsNamed (insert k info m)
unfolding insert
insert-IsNamed k info [] e h = (e, tt)
insert-IsNamed k info ((j, x) ∷ m) e (h, hs) = elim (Bool-cases (text_eq j k)) [
  | inl same ↦ rw (same, insert) (e, hs)
  | inr other ↦ rw (other, insert) (h, insert-IsNamed k info m e hs)
]

-- The calls of an engine.
pub data Call (W : Type 0) : Type 0 where
  adds : Text → Text → Job W → Call W
  removes : ℕ → Call W
  starts stops : Call W

abbrev after_add : {W : Type 0} → Added W → Engine → Option (Engine × W)
after_add panicked e = none
after_add (failed why w) e = some (e, w)
after_add (added id e' w) e = some (e', w)

abbrev id_of : {W : Type 0} → ℕ → Added W → ℕ
id_of n panicked = n
id_of n (failed why w) = n
id_of n (added id e w) = id

abbrev table_of : {W : Type 0} → Dict JobInfo → Added W → Dict JobInfo
table_of m panicked = m
table_of m (failed why w) = m
table_of m (added id e w) = e.job_info

insert-new :
    (name : Text) (info info' : JobInfo) (m : Dict JobInfo)
    → lookup info'.name m ≡ none
    → lookup name m ≡ some info
    → lookup name (insert info'.name info' m) ≡ some info
insert-new name info info' m free found = elim (Bool-cases (text_eq info'.name name)) [
  | inl e ↦ cc (free, found, (text_eq_iff info'.name name).0 e)
  | inr e ↦ lookup-insert info'.name name info' m ∙ rw e found
]

module _ {W : Type 0} (lib : Cron W) where
  call : Call W → Engine × W → Option (Engine × W)
  call (adds spec name job) (e, w) = after_add (add_func_with_name lib spec name job e w) e
  call (removes id) (e, w) = some (e, remove lib id e w)
  call starts (e, w) = some (e, start lib e w)
  call stops (e, w) = some (stop lib e w)

  -- Some calls, one after another; `none` where one of them panics.
  unfoldable pub run : List (Call W) → Engine × W → Option (Engine × W)
  unfolding call
  run [] s = some s
  run (c ∷ cs) s = elim (call c s) [ none ↦ none | some s' ↦ run cs s' ]

  -- What holds of the jobs of an engine whatever an add did: `P` holds before, and after.
  add-keeps :
      (P : Dict JobInfo → Type 0) (spec name : Text) (job : Job W) (e : Engine) (w : W)
      (s : Engine × W)
      → ((info : JobInfo)
          → info.name ≡ name
          → lookup name e.job_info ≡ none
          → P e.job_info
          → P (insert name info e.job_info))
      → P e.job_info
      → after_add (add_func_with_name lib spec name job e w) e ≡ some s
      → P s.0.job_info
  unfolding add_func_with_name add_entered
  add-keeps P spec name job e w s keeps h r = elim (Option-cases (lookup name e.job_info)) [
    | inr (info, found) ↦ cc (rw (found, add_func_with_name) at r)
    | inl free ↦ go free (lib.add_entry e.cron spec job w) (rw (free, add_func_with_name) at r)
  ]
    where
      go :
          lookup name e.job_info ≡ none
          → (x : W × Scheduled) → after_add (add_entered lib spec name e x) e ≡ some s
          → P s.0.job_info
      go free (w', entered id) q =
          subst (λ (t : Engine × W). P t.0.job_info) (some_inj.0 q) (keeps _ refl free h)
      go free (w', refused why) q = elim (Bool-cases e.panic_on_any_add_error) [
        | inl y ↦ cc (rw (y, add_entered) at q)
        | inr y ↦
            subst (λ (t : Engine × W). P t.0.job_info) (some_inj.0 (rw (y, add_entered) at q)) h
      ]

  call-keeps :
      (P : Dict JobInfo → Type 0)
      → ((m : Dict JobInfo) (info : JobInfo)
          → lookup info.name m ≡ none
          → P m
          → P (insert info.name info m))
      → (c : Call W) (s s' : Engine × W) → P s.0.job_info
      → call c s ≡ some s'
      → P s'.0.job_info
  unfolding call
  call-keeps P keeps (adds spec name job) (e, w) s' h r =
      add-keeps P spec name job e w s'
        (λ info same free k.
          subst (λ n. P (insert n info e.job_info)) same
            (keeps e.job_info info (ap (λ n. lookup n e.job_info) same ∙ free) k))
        h r
  call-keeps P keeps (removes id) (e, w) s' h r =
      subst (λ (t : Engine × W). P t.0.job_info) (some_inj.0 r) h
  call-keeps P keeps starts (e, w) s' h r =
      subst (λ (t : Engine × W). P t.0.job_info) (some_inj.0 r) h
  call-keeps P keeps stops (e, w) s' h r =
      subst (λ (t : Engine × W). P t.0.job_info) (some_inj.0 r) h

  -- What every add keeps holds after any calls.
  pub run-keeps :
      (P : Dict JobInfo → Type 0)
      → ((m : Dict JobInfo) (info : JobInfo)
          → lookup info.name m ≡ none
          → P m
          → P (insert info.name info m))
      → (cs : List (Call W)) (s s' : Engine × W) → P s.0.job_info
      → run cs s ≡ some s'
      → P s'.0.job_info
  unfolding run
  run-keeps P keeps [] s s' h r = subst (λ (t : Engine × W). P t.0.job_info) (some_inj.0 r) h
  run-keeps P keeps (c ∷ cs) s s' h r = elim (Option-cases (call c s)) [
    | inl e ↦ cc (rw (e, run) at r)
    | inr (s1, e) ↦ run-keeps P keeps cs s1 s' (call-keeps P keeps c s s1 h e) (rw (e, run) at r)
  ]

  add-stored :
      (spec name : Text) (job : Job W) (e e' : Engine) (w w' : W) (id : ℕ)
      → add_func_with_name lib spec name job e w ≡ added id e' w'
      → (info : JobInfo) × (info.id ≡ id) × (lookup name e'.job_info ≡ some info)
  unfolding add_func_with_name add_entered
  add-stored spec name job e e' w w' id r = elim (Option-cases (lookup name e.job_info)) [
    | inr (info, found) ↦ cc (rw (found, add_func_with_name) at r)
    | inl free ↦ go (lib.add_entry e.cron spec job w) (rw (free, add_func_with_name) at r)
  ]
    where
      go :
          (x : W × Scheduled)
          → add_entered lib spec name e x ≡ added id e' w'
          → (info : JobInfo) × (info.id ≡ id) × (lookup name e'.job_info ≡ some info)
      go (w1, entered id1) q =
          let info : JobInfo = record { id = id1; name = name; spec = spec; next = 0; prev = 0 } in
          (
            info,
            ap (id_of id1) q,
            ap (λ x. lookup name (table_of e.job_info x)) (sym q)
                ∙ lookup-insert_self name info e.job_info,
          )
      go (w1, refused why) q = elim (Bool-cases e.panic_on_any_add_error) [
        | inl y ↦ cc (rw (y, add_entered) at q)
        | inr y ↦ cc (rw (y, add_entered) at q)
      ]

  -- Once a job was added, no call gives its name back: whatever calls follow without a panic, the
  -- removal of the job included, the table holds the job, and a second add under its name panics.
  pub name_taken :
      (spec spec' name : Text) (job job' : Job W) (cs : List (Call W)) (e e' e2 : Engine)
      (w w' w2 : W) (id : ℕ)
      → add_func_with_name lib spec name job e w ≡ added id e' w'
      → run cs (e', w') ≡ some (e2, w2)
      → ((info : JobInfo) × (info.id ≡ id) × (lookup name e2.job_info ≡ some info))
        × (add_func_with_name lib spec' name job' e2 w2 ≡ panicked)
  unfolding add_func_with_name
  name_taken spec spec' name job job' cs e e' e2 w w' w2 id r ran =
      let (info, same, found) = add-stored spec name job e e' w w' id r in
      let still : lookup name e2.job_info ≡ some info =
        run-keeps (λ m. lookup name m ≡ some info)
          (λ m info' free h. insert-new name info info' m free h) cs (e', w') (e2, w2) found ran in
      ((info, same, still), rw (still, add_func_with_name) refl)

names-insert :
    (x : JobInfo) (l : List JobInfo)
    → map (λ (i : JobInfo). i.name) (insert_by_name x l)
      ≡ insert_sorted x.name (map (λ (i : JobInfo). i.name) l)
unfolding insert_by_name insert_sorted
names-insert x [] = refl
names-insert x (y ∷ ys) = ground (arith, names-insert x ys)

names-sort :
    (l : List JobInfo)
    → map (λ (i : JobInfo). i.name) (sort_by_name l)
      ≡ sort_strings (map (λ (i : JobInfo). i.name) l)
unfolding sort_by_name sort_strings
names-sort [] = refl
names-sort (x ∷ xs) = names-insert x (sort_by_name xs) ∙ ap (insert_sorted x.name) (names-sort xs)

All-insert :
    (P : JobInfo → Type 0) (x : JobInfo) (l : List JobInfo)
    → P x
    → All P l
    → All P (insert_by_name x l)
unfolding insert_by_name
All-insert P x [] h hs = (h, tt)
All-insert P x (y ∷ ys) h (k, ks) = elim (Bool-cases (text_leb x.name y.name)) [
  | inl e ↦ rw (e, insert_by_name) (h, (k, ks))
  | inr e ↦ rw (e, insert_by_name) (k, All-insert P x ys h ks)
]

All-sort : (P : JobInfo → Type 0) (l : List JobInfo) → All P l → All P (sort_by_name l)
unfolding sort_by_name
All-sort P [] h = tt
All-sort P (x ∷ xs) (h, hs) = All-insert P x (sort_by_name xs) h (All-sort P xs hs)

-- The jobs of a table.
abbrev pub infos : Dict JobInfo → List JobInfo
infos = map (λ (p : Text × JobInfo). p.1)

names-infos : (m : Dict JobInfo) → IsNamed m → map (λ (i : JobInfo). i.name) (infos m) ≡ keys m
names-infos [] h = refl
names-infos ((k, x) ∷ m) (e, h) = cc (e, names-infos m h)

module _ {W : Type 0} (lib : Cron W) where
  -- A job is listed with the times of its entry.
  abbrev pub IsTimed : Engine → W → JobInfo → Type 0
  IsTimed e w info =
      (info.next ≡ (lib.entry e.cron info.id w).next)
      × (info.prev ≡ (lib.entry e.cron info.id w).prev)

  timed-IsTimed :
      (e : Engine) (w : W) (l : List JobInfo) → All (IsTimed e w) (map (timed lib e w) l)
  timed-IsTimed e w [] = tt
  timed-IsTimed e w (x ∷ xs) = ((refl, refl), timed-IsTimed e w xs)

  timed-names :
      (e : Engine) (w : W) (l : List JobInfo)
      → map (λ (i : JobInfo). i.name) (map (timed lib e w) l) ≡ map (λ (i : JobInfo). i.name) l
  timed-names e w [] = refl
  timed-names e w (x ∷ xs) = ap (λ l. x.name ∷ l) (timed-names e w xs)

  -- After any calls of a new engine that do not panic, in whatever order the map is ranged over,
  -- the jobs are listed by name in ascending order, one for each name of the table, with the times
  -- of their entries.
  pub jobs_info-sort_strings :
      (location : Option Text) (cs : List (Call W)) (w w' : W) (e : Engine) (ranged : List JobInfo)
      → run lib cs (new_engine lib location w) ≡ some (e, w')
      → Perm
          (map (λ (i : JobInfo). i.name) ranged)
          (map (λ (i : JobInfo). i.name) (infos e.job_info))
      → (map (λ (i : JobInfo). i.name) (jobs_info lib ranged e w') ≡ sort_strings (keys e.job_info))
        × All (IsTimed e w') (jobs_info lib ranged e w')
  unfolding jobs_info new_engine
  jobs_info-sort_strings location cs w w' e ranged ran p =
      let named : IsNamed e.job_info =
        run-keeps lib IsNamed (λ m info free h. insert-IsNamed info.name info m refl h) cs
          (new_engine lib location w) (e, w') tt ran in
      (
        names-sort (map (timed lib e w') ranged)
            ∙ ap sort_strings (timed-names e w' ranged)
            ∙ sort_strings-perm _ _ p
            ∙ ap sort_strings (names-infos e.job_info named),
        All-sort (IsTimed e w') _ (timed-IsTimed e w' ranged),
      )
