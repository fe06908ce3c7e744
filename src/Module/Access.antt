-- ===== src/Module/Access.antt =====
-- A call of an accessor of module_base.go before the start.
use go_infra.Prelude.{
  Bool, true, false, Option, none, some, List, [], ◌≡◌, refl, arith, Option-cases, Bool-cases, inl,
  inr, ◌∙◌, sym, subst,
}
use go_infra.Prelude.Text.{Text, text_eq, text_eq_iff}
use go_infra.Module.{
  ComponentType, kafka, rabbitmq, mongo, grpc, grpc_client, db, redis, redis_lock, deduplicator,
  scheduler, Component, AppRuntime, Environment, name_of, given_name, has_type, has_type_self,
  typed, lookup_as,
}
use go_infra.Module.Calls.{create, access, access_over_redis, get_component}
use go_infra.Module.Names.{type_of, full_name, type_of-name_of, type_of-full_name}
use go_infra.Module.Sound.{
  is_over_redis, HasRedis, Sound, Extends, lookup-create, create_kind, create-Extends, create-Sound,
}
use go_infra.Module.Tasks.{Planned, create-Planned}

pub has_type-kind : (t : ComponentType) (c : Component) → c.kind ≡ t → has_type t c ≡ true
has_type-kind t c e = subst (λ k. has_type k c ≡ true) e (has_type_self c)

abbrev can_be_over_redis : Option ComponentType → Bool
can_be_over_redis none = false
can_be_over_redis (some t) = is_over_redis t

redis_apart :
    (name m : Text) → can_be_over_redis (type_of m) ≡ true → text_eq (name_of redis name) m ≡ false
redis_apart name m over = elim (Bool-cases (text_eq (name_of redis name) m)) [
  | inr h ↦ h
  | inl h ↦
      let at : name_of redis name ≡ m = (text_eq_iff _ m).0 h in cc (type_of-name_of redis name)
]

module _ {W : Type 0} where
  type_there :
      (t : ComponentType) (n : Text) (r : AppRuntime W) {c : Component}
      → Sound r
      → type_of n ≡ some t
      → lookup_as n r ≡ some c
      → c.kind ≡ t
  type_there t n r {c} ok named there = cc (ok.types n there)

module _ {W : Type 0} (env : Environment W) where
  -- What a call of an accessor leaves, if it leaves `out`.
  pub record Gives (t : ComponentType) (n : Text) (r : AppRuntime W)
      (out : Option (AppRuntime W × Component)) : Type 0 where
    pub after : AppRuntime W
    pub component : Component
    pub gives : out ≡ some (after, component)
    pub kind : component.kind ≡ t
    pub there : lookup_as n after ≡ some component
    pub sound : Sound after
    pub extends : Extends r after
    pub quiet : after.lifecycle.started ≡ false
    pub others :
        (m : Text)
        → can_be_over_redis (type_of m) ≡ true
        → text_eq n m ≡ false
        → lookup_as m after ≡ lookup_as m r
    pub planned : Planned env r → Planned env after

  -- The component is there.
  known-Gives :
      (t : ComponentType) (n : Text) (r : AppRuntime W) {c : Component}
      → Sound r
      → r.lifecycle.started ≡ false
      → type_of n ≡ some t
      → lookup_as n r ≡ some c
      → Gives t n r (typed t c r)
  known-Gives t n r {c} ok quiet named there =
      let k = type_there t n r ok named there in
      record {
        after = r;
        component = c;
        gives = rw (has_type-kind t c k) refl;
        kind = k;
        there = there;
        sound = ok;
        extends = λ m d e. e;
        quiet = quiet;
        others = λ m o apart. refl;
        planned = λ p. p;
      }

  -- It is made, perhaps after another one was.
  create-Gives :
      (t : ComponentType) (n rn : Text) (r s : AppRuntime W)
      → Sound s
      → s.lifecycle.started ≡ false
      → Extends r s
      → lookup_as n s ≡ none
      → type_of n ≡ some t
      → (is_over_redis t ≡ true → HasRedis rn s)
      → ((m : Text) → can_be_over_redis (type_of m) ≡ true → lookup_as m s ≡ lookup_as m r)
      → (Planned env r → Planned env s)
      → Gives t n r (some (create env t n rn s))
  create-Gives t n rn r s ok quiet ext new named over others_too planned_too =
      let made = create_kind env t n rn s in
      record {
        after = (create env t n rn s).0;
        component = (create env t n rn s).1;
        gives = refl;
        kind = made.0;
        there = ground (arith, lookup-create env t n rn n s, text_eq_iff n n);
        sound = create-Sound env t n rn s ok new named over;
        extends = λ m d e. create-Extends env t n rn s new m d (ext m d e);
        quiet = made.2 ∙ quiet;
        others = λ m o apart. ground (arith, lookup-create env t n rn m s, others_too m o);
        planned = λ p. create-Planned env t n rn s (planned_too p) new;
      }

  access_new :
      (t : ComponentType) (n : Text) (r : AppRuntime W)
      → lookup_as n r ≡ none
      → r.lifecycle.started ≡ false
      → access env t n r ≡ some (create env t n [] r)
  unfolding access
  access_new t n r new quiet = rw (new, access, quiet) refl

  access_over_redis_new :
      (t : ComponentType) (name : Text) (r s : AppRuntime W) (c : Component)
      → lookup_as (name_of t name) r ≡ none
      → r.lifecycle.started ≡ false
      → access env redis (name_of redis name) r ≡ some (s, c)
      → access_over_redis env t name r ≡ some (create env t (name_of t name) (name_of redis name) s)
  unfolding access_over_redis
  access_over_redis_new t name r s c new quiet made = rw (new, access_over_redis) (ground arith)

  access-Gives :
      (t : ComponentType) (n : Text) (r : AppRuntime W)
      → Sound r
      → r.lifecycle.started ≡ false
      → is_over_redis t ≡ false
      → type_of n ≡ some t
      → Gives t n r (access env t n r)
  unfolding access
  access-Gives t n r ok quiet plain named = elim (Option-cases (lookup_as n r)) [
    | inr (c, there) ↦ rw (there, access) (known-Gives t n r ok quiet named there)
    | inl new ↦
        subst (Gives t n r) (sym (access_new t n r new quiet)) (
          create-Gives t n [] r r ok quiet (λ m d e. e) new named (λ o. cc o) (λ m o. refl)
            (λ p. p))
  ]

  access_over_redis-Gives :
      (t : ComponentType) (name : Text) (r : AppRuntime W)
      → Sound r
      → r.lifecycle.started ≡ false
      → is_over_redis t ≡ true
      → Gives t (name_of t name) r (access_over_redis env t name r)
  unfolding access_over_redis
  access_over_redis-Gives t name r ok quiet over =
      elim (Option-cases (lookup_as (name_of t name) r)) [
        | inr (c, there) ↦
            rw (there, access_over_redis)
              (known-Gives t _ r ok quiet (type_of-name_of t name) there)
        | inl new ↦
            let g =
              access-Gives redis (name_of redis name) r ok quiet refl
                (type_of-name_of redis name) in
            let named = type_of-name_of t name in
            let has : HasRedis (name_of redis name) g.after = record {
              found = g.component;
              there = g.there;
              is_redis = g.kind;
            } in
            subst (Gives t (name_of t name) r)
              (sym (access_over_redis_new t name r g.after g.component new quiet g.gives))
              (create-Gives t (name_of t name) (name_of redis name) r g.after g.sound g.quiet
                g.extends
                (g.others (name_of t name) (rw named over) (redis_apart name _ (rw named over))
                  ∙ new)
                named (λ o. has) (λ m o. g.others m o (redis_apart name m o)) g.planned)
      ]

  pub get_component-Gives :
      (t : ComponentType) (names : List Text) (r : AppRuntime W)
      → Sound r
      → r.lifecycle.started ≡ false
      → Gives t (full_name t names) r (get_component env t names r)
  unfolding get_component
  get_component-Gives kafka names r ok quiet =
      access-Gives _ _ r ok quiet refl (type_of-full_name kafka names)
  get_component-Gives rabbitmq names r ok quiet =
      access-Gives _ _ r ok quiet refl (type_of-full_name rabbitmq names)
  get_component-Gives mongo names r ok quiet =
      access-Gives _ _ r ok quiet refl (type_of-full_name mongo names)
  get_component-Gives grpc names r ok quiet =
      access-Gives _ _ r ok quiet refl (type_of-full_name grpc names)
  get_component-Gives grpc_client names r ok quiet =
      access-Gives _ _ r ok quiet refl (type_of-full_name grpc_client names)
  get_component-Gives db names r ok quiet =
      access-Gives _ _ r ok quiet refl (type_of-full_name db names)
  get_component-Gives redis names r ok quiet =
      access-Gives _ _ r ok quiet refl (type_of-full_name redis names)
  get_component-Gives redis_lock names r ok quiet =
      access_over_redis-Gives redis_lock (given_name names) r ok quiet refl
  get_component-Gives deduplicator names r ok quiet =
      access_over_redis-Gives deduplicator (given_name names) r ok quiet refl
  get_component-Gives scheduler names r ok quiet =
      access-Gives _ _ r ok quiet refl (type_of-full_name scheduler names)
