-- ===== src/Module/Tasks.antt =====
-- The tasks of the components of app/module/, as they follow from the registry.
pub mod Plan
use go_infra.Prelude.{
  ℕ, zero, suc, Bool, true, false, Option, none, some, List, [], ◌∷◌, ◌++◌, ◌≡◌, refl, arith, ap,
  sym, ◌∙◌, Option-cases, inl, inr, if◌then◌else◌,
}
use go_infra.Prelude.Text.{Text, text_eq}
use go_infra.Prelude.Dict.{Dict, lookup, insert}
use go_infra.App.Lifecycle.{Task, StartupLifecycle, ShutdownLifecycle}
use go_infra.App.Runtime.{LifecycleManager}
use go_infra.Module.{
  ComponentType, kafka, rabbitmq, mongo, grpc, grpc_client, db, redis, redis_lock, deduplicator,
  scheduler, Component, AppRuntime, Environment, lookup_as, register_as, new_app_runtime,
}
use go_infra.Module.Initialize.{
  initialize, kafka_initialize, rabbitmq_initialize, mongo_initialize, db_initialize,
  redis_initialize, grpc_client_initialize, grpc_initialize, scheduler_initialize,
}
use go_infra.Module.Calls.{new_component, counted, create}

abbrev pub is_background : ComponentType → Bool
is_background kafka = true
is_background rabbitmq = true
is_background scheduler = true
is_background _ = false

abbrev pub is_server : ComponentType → Bool
is_server grpc = true
is_server _ = false

abbrev pub is_producer : ComponentType → Bool
is_producer kafka = true
is_producer _ = false

abbrev pub is_client : ComponentType → Bool
is_client rabbitmq = true
is_client mongo = true
is_client grpc_client = true
is_client db = true
is_client redis = true
is_client _ = false

abbrev added : {A : Type 0} → Bool → A → List A → List A
added true x xs = xs ++ x ∷ []
added false x xs = xs

join_added :
    {A : Type 0} (b c : Bool) (x y : A) (xs : List A)
    → added b x (if c then y ∷ xs else xs) ≡ (if c then y ∷ added b x xs else added b x xs)
join_added b c x y xs = ground arith

-- The numbers of the components, in the order in which they were made.
abbrev pub ids : Dict Component → List ℕ
ids [] = []
ids ((n, c) ∷ d) = c.id ∷ ids d

abbrev pub up_to : ℕ → List ℕ
up_to zero = []
up_to (suc n) = up_to n ++ n ∷ []

ids-insert :
    (n : Text) (c : Component) (d : Dict Component)
    → lookup n d ≡ none
    → ids (insert n c d) ≡ ids d ++ c.id ∷ []
unfolding lookup insert
ids-insert n c [] new = refl
ids-insert n c ((m, b) ∷ d) new = ground (arith, ids-insert n c d)

module _ {W : Type 0} where
  -- A task for each component of some types.
  abbrev pub tasks_of : (ComponentType → Bool) → (ℕ → Task W) → Dict Component → List (Task W)
  tasks_of p f [] = []
  tasks_of p f ((n, c) ∷ d) = let rest = tasks_of p f d in if p c.kind then f c.id ∷ rest else rest

  tasks_of-insert :
      (p : ComponentType → Bool) (f : ℕ → Task W) (n : Text) (c : Component) (d : Dict Component)
      → lookup n d ≡ none
      → tasks_of p f (insert n c d) ≡ added (p c.kind) (f c.id) (tasks_of p f d)
  unfolding lookup insert
  tasks_of-insert p f n c [] new = ground arith
  tasks_of-insert p f n c ((m, b) ∷ d) new = ground (
    arith,
    tasks_of-insert p f n c d,
    join_added (p c.kind) (p b.kind) (f c.id) (f b.id) (tasks_of p f d),
  )

module _ {W : Type 0} (env : Environment W) where
  -- What the lifecycle holds, by the components that are registered.
  abbrev pub lifecycle_of : Dict Component → LifecycleManager W
  lifecycle_of d = record {
    startup = record {
      initialize = [];
      start = tasks_of is_background env.start d;
      serve = env.web_start ∷ tasks_of is_server env.start d;
    };
    shutdown = record {
      stop_ingress = [];
      await_requests = [];
      stop_background = tasks_of is_background env.stop d;
      await_background = tasks_of is_background env.await_termination d;
      close_producers = tasks_of is_producer env.close_producer d;
      release_resources = tasks_of is_client env.close d;
      stop_server = env.web_shutdown ∷ tasks_of is_server env.shutdown d;
    };
    started = false;
  }

  -- What a component of a type adds.
  abbrev grown : ComponentType → ℕ → LifecycleManager W → LifecycleManager W
  grown t i l = record {
    startup = record {
      initialize = l.startup.initialize;
      start = added (is_background t) (env.start i) l.startup.start;
      serve = added (is_server t) (env.start i) l.startup.serve;
    };
    shutdown = record {
      stop_ingress = l.shutdown.stop_ingress;
      await_requests = l.shutdown.await_requests;
      stop_background = added (is_background t) (env.stop i) l.shutdown.stop_background;
      await_background =
          added (is_background t) (env.await_termination i) l.shutdown.await_background;
      close_producers = added (is_producer t) (env.close_producer i) l.shutdown.close_producers;
      release_resources = added (is_client t) (env.close i) l.shutdown.release_resources;
      stop_server = added (is_server t) (env.shutdown i) l.shutdown.stop_server;
    };
    started = l.started;
  }

  initialize-grown :
      (t : ComponentType) (rn : Text) (r : AppRuntime W)
      → let p = initialize env t (counted r, new_component t rn r) in
        (p.0.lifecycle ≡ grown t r.next_id r.lifecycle)
        × (p.0.next_id ≡ suc r.next_id)
        × (p.0.components ≡ r.components)
        × (p.1.id ≡ r.next_id)
        × (p.1.kind ≡ t)
  unfolding initialize kafka_initialize rabbitmq_initialize mongo_initialize db_initialize
      redis_initialize grpc_client_initialize grpc_initialize scheduler_initialize
  initialize-grown kafka rn r = (refl, refl, refl, refl, refl)
  initialize-grown rabbitmq rn r = (refl, refl, refl, refl, refl)
  initialize-grown mongo rn r = (refl, refl, refl, refl, refl)
  initialize-grown grpc rn r = (refl, refl, refl, refl, refl)
  initialize-grown grpc_client rn r = (refl, refl, refl, refl, refl)
  initialize-grown db rn r = (refl, refl, refl, refl, refl)
  initialize-grown redis rn r = (refl, refl, refl, refl, refl)
  initialize-grown redis_lock rn r = (refl, refl, refl, refl, refl)
  initialize-grown deduplicator rn r = (refl, refl, refl, refl, refl)
  initialize-grown scheduler rn r = (refl, refl, refl, refl, refl)

  added_cons :
      {A : Type 0} (b : Bool) (x y : A) (xs : List A) → added b x (y ∷ xs) ≡ y ∷ added b x xs
  added_cons b x y xs = ground arith

  lifecycle_of-insert :
      (n : Text) (c : Component) (d : Dict Component)
      → lookup n d ≡ none
      → lifecycle_of (insert n c d) ≡ grown c.kind c.id (lifecycle_of d)
  lifecycle_of-insert n c d new =
      rw
        (
          tasks_of-insert is_background env.start n c d new,
          tasks_of-insert is_server env.start n c d new,
          tasks_of-insert is_background env.stop n c d new,
          tasks_of-insert is_background env.await_termination n c d new,
          tasks_of-insert is_producer env.close_producer n c d new,
          tasks_of-insert is_client env.close n c d new,
          tasks_of-insert is_server env.shutdown n c d new,
          added_cons (is_server c.kind) (env.start c.id),
          added_cons (is_server c.kind) (env.shutdown c.id),
        )
        refl

  -- The registry and the lifecycle agree, and the components are numbered as they were made.
  pub record Planned (r : AppRuntime W) : Type 0 where
    pub lifecycle : r.lifecycle ≡ lifecycle_of r.components
    pub numbered : ids r.components ≡ up_to r.next_id

  pub new_app_runtime-Planned : Planned (new_app_runtime env)
  unfolding new_app_runtime
  new_app_runtime-Planned = record { lifecycle = refl; numbered = refl }

  pub create-Planned :
      (t : ComponentType) (n rn : Text) (r : AppRuntime W)
      → Planned r
      → lookup_as n r ≡ none
      → Planned (create env t n rn r).0
  unfolding create register_as lookup_as
  create-Planned t n rn r ok new =
      let p = initialize env t (counted r, new_component t rn r) in
      let (life, next, comps, i, k) = initialize-grown t rn r in
      record {
        lifecycle =
            life
            ∙ ap (grown t r.next_id) ok.lifecycle
            ∙ sym (rw (comps, lifecycle_of-insert n p.1 r.components new, i, k) refl);
        numbered = rw (comps, ids-insert n p.1 r.components new, ok.numbered, next, i) refl;
      }
