-- ===== src/Module/Sound.antt =====
-- What the accessors keep of the registry: every component stands under a name of its type, and a
-- lock manager or a deduplicator finds its component for Redis.
use go_infra.Prelude.{
  Bool, true, false, none, some, ◌≡◌, ◌⊎◌, refl, arith, Bool-cases, inl, inr, subst, if◌then◌else◌,
}
use go_infra.Prelude.Text.{Text, text_eq, text_eq_iff}
use go_infra.Prelude.Dict.{lookup-insert}
use go_infra.Module.{
  ComponentType, kafka, rabbitmq, mongo, grpc, grpc_client, db, redis, redis_lock, deduplicator,
  scheduler, Component, AppRuntime, Environment, register_as, lookup_as,
}
use go_infra.Module.Initialize.{
  initialize, kafka_initialize, rabbitmq_initialize, mongo_initialize, db_initialize,
  redis_initialize, grpc_client_initialize, grpc_initialize, scheduler_initialize,
}
use go_infra.Module.Calls.{new_component, counted, create}
use go_infra.Module.Names.{type_of}

-- The types that are made over a component for Redis.
abbrev pub is_over_redis : ComponentType → Bool
is_over_redis redis_lock = true
is_over_redis deduplicator = true
is_over_redis _ = false

module _ {W : Type 0} where
  pub record HasRedis (name : Text) (r : AppRuntime W) : Type 0 where
    pub found : Component
    pub there : lookup_as name r ≡ some found
    pub is_redis : found.kind ≡ redis

  pub record Sound (r : AppRuntime W) : Type 0 where
    pub types : (n : Text) {c : Component} → lookup_as n r ≡ some c → type_of n ≡ some c.kind
    pub finds_redis :
        (n : Text) {c : Component}
        → lookup_as n r ≡ some c
        → is_over_redis c.kind ≡ true
        → HasRedis c.redis_component_name r

  -- What is registered stays registered.
  abbrev pub Extends : AppRuntime W → AppRuntime W → Type 0
  Extends r s = (n : Text) (c : Component) → lookup_as n r ≡ some c → lookup_as n s ≡ some c

  pub HasRedis-Extends : {n : Text} {r s : AppRuntime W} → HasRedis n r → Extends r s → HasRedis n s
  HasRedis-Extends h e = record { found = h.found; there = e _ _ h.there; is_redis = h.is_redis }

module _ {W : Type 0} (env : Environment W) where
  -- What `initialize` leaves as it is.
  abbrev initialized : ComponentType → Text → AppRuntime W → AppRuntime W × Component
  initialized t rn r = initialize env t (counted r, new_component t rn r)

  initialize_keeps :
      (t : ComponentType) (rn : Text) (r : AppRuntime W)
      → ((initialized t rn r).0.components ≡ r.components)
        × ((initialized t rn r).0.lifecycle.started ≡ r.lifecycle.started)
        × ((initialized t rn r).1.kind ≡ t)
        × ((initialized t rn r).1.redis_component_name ≡ rn)
  unfolding initialize kafka_initialize rabbitmq_initialize mongo_initialize db_initialize
      redis_initialize grpc_client_initialize grpc_initialize scheduler_initialize
  initialize_keeps kafka rn r = (refl, refl, refl, refl)
  initialize_keeps rabbitmq rn r = (refl, refl, refl, refl)
  initialize_keeps mongo rn r = (refl, refl, refl, refl)
  initialize_keeps grpc rn r = (refl, refl, refl, refl)
  initialize_keeps grpc_client rn r = (refl, refl, refl, refl)
  initialize_keeps db rn r = (refl, refl, refl, refl)
  initialize_keeps redis rn r = (refl, refl, refl, refl)
  initialize_keeps redis_lock rn r = (refl, refl, refl, refl)
  initialize_keeps deduplicator rn r = (refl, refl, refl, refl)
  initialize_keeps scheduler rn r = (refl, refl, refl, refl)

  -- A component that was just made stands in the registry, beside what was there.
  pub lookup-create :
      (t : ComponentType) (n rn m : Text) (r : AppRuntime W)
      → lookup_as m (create env t n rn r).0
        ≡ (if text_eq n m then some (create env t n rn r).1 else lookup_as m r)
  unfolding lookup_as create register_as
  lookup-create t n rn m r =
      rw (initialize_keeps t rn r).0 (lookup-insert n m (create env t n rn r).1 r.components)

  pub create_kind :
      (t : ComponentType) (n rn : Text) (r : AppRuntime W)
      → ((create env t n rn r).1.kind ≡ t)
        × ((create env t n rn r).1.redis_component_name ≡ rn)
        × ((create env t n rn r).0.lifecycle.started ≡ r.lifecycle.started)
  unfolding create register_as
  create_kind t n rn r = let (_, s, k, x) = initialize_keeps t rn r in (k, x, s)

  pub create-Extends :
      (t : ComponentType) (n rn : Text) (r : AppRuntime W)
      → lookup_as n r ≡ none
      → Extends r (create env t n rn r).0
  create-Extends t n rn r new m c e = ground (arith, lookup-create t n rn m r, text_eq_iff n m)

  lookup-create_cases :
      (t : ComponentType) (n rn m : Text) (r : AppRuntime W) {c : Component}
      → lookup_as m (create env t n rn r).0 ≡ some c
      → ((n ≡ m) × ((create env t n rn r).1 ≡ c)) ⊎ (lookup_as m r ≡ some c)
  lookup-create_cases t n rn m r {c} e = elim (Bool-cases (text_eq n m)) [
    | inl h ↦ inl ((text_eq_iff n m).0 h, ground (arith, lookup-create t n rn m r))
    | inr h ↦ inr (ground (arith, lookup-create t n rn m r))
  ]

  pub create-Sound :
      (t : ComponentType) (n rn : Text) (r : AppRuntime W)
      → Sound r
      → lookup_as n r ≡ none
      → type_of n ≡ some t
      → (is_over_redis t ≡ true → HasRedis rn r)
      → Sound (create env t n rn r).0
  create-Sound t n rn r ok new named over = record {
    types = λ m {c} e. elim (lookup-create_cases t n rn m r e) [
      | inl (at, is) ↦ cc (create_kind t n rn r).0
      | inr old ↦ ok.types m old
    ];
    finds_redis = λ m {c} e o. elim (lookup-create_cases t n rn m r e) [
      | inl (at, is) ↦
          let made = create_kind t n rn r in
          let name_kept : rn ≡ c.redis_component_name = cc made.1 in
          let over_t : is_over_redis t ≡ true = cc made.0 in
          subst (λ x. HasRedis x (create env t n rn r).0) name_kept
            (HasRedis-Extends (over over_t) (create-Extends t n rn r new))
      | inr old ↦ HasRedis-Extends (ok.finds_redis m old o) (create-Extends t n rn r new)
    ];
  }
