-- ===== src/Module/Runs.antt =====
-- Calls of the accessors of module_base.go one after the other, before the start of the
-- application and after it.
use go_infra.Prelude.{true, false, none, some, List, [], ◌∷◌, ◌≡◌, refl, subst, map}
use go_infra.Prelude.Text.{Text}
use go_infra.Prelude.Dict.{lookup}
use go_infra.Module.{
  ComponentType, kafka, rabbitmq, mongo, grpc, grpc_client, db, redis, redis_lock, deduplicator,
  scheduler, Component, AppRuntime, Environment, name_of, given_name, lookup_as, new_app_runtime,
  mark_started,
}
use go_infra.Module.Calls.{access, access_over_redis, get_component, redis_of, Call, get_components}
use go_infra.Module.Names.{full_name}
use go_infra.Module.Sound.{is_over_redis, Sound, Extends}
use go_infra.Module.Access.{has_type-kind, get_component-Gives}
use go_infra.Module.Tasks.{Planned, new_app_runtime-Planned}

abbrev pub kinds : List Component → List ComponentType
kinds cs = map (λ c. c.kind) cs

abbrev pub asked : List Call → List ComponentType
asked calls = map (λ k. k.0) calls

module _ {W : Type 0} (env : Environment W) where
  lookup-new_app_runtime : (n : Text) → lookup_as n (new_app_runtime env) ≡ none
  unfolding lookup_as new_app_runtime lookup
  lookup-new_app_runtime n = refl

  new_app_runtime-Sound : Sound (new_app_runtime env)
  new_app_runtime-Sound = record {
    types = λ n e. absurd (cc (lookup-new_app_runtime n));
    finds_redis = λ n e o. absurd (cc (lookup-new_app_runtime n));
  }

  new_app_runtime_quiet : (new_app_runtime env).lifecycle.started ≡ false
  unfolding new_app_runtime
  new_app_runtime_quiet = refl

  access_known :
      (t : ComponentType) (n : Text) (r : AppRuntime W) (c : Component)
      → lookup_as n r ≡ some c
      → c.kind ≡ t
      → access env t n r ≡ some (r, c)
  unfolding access
  access_known t n r c there k = rw (there, access, has_type-kind t c k) refl

  access_over_redis_known :
      (t : ComponentType) (name : Text) (r : AppRuntime W) (c : Component)
      → lookup_as (name_of t name) r ≡ some c
      → c.kind ≡ t
      → access_over_redis env t name r ≡ some (r, c)
  unfolding access_over_redis
  access_over_redis_known t name r c there k =
      rw (there, access_over_redis, has_type-kind t c k) refl

  known_component :
      (t : ComponentType) (names : List Text) (r : AppRuntime W) (c : Component)
      → lookup_as (full_name t names) r ≡ some c
      → c.kind ≡ t
      → get_component env t names r ≡ some (r, c)
  unfolding get_component
  known_component kafka names r c = access_known _ _ r c
  known_component rabbitmq names r c = access_known _ _ r c
  known_component mongo names r c = access_known _ _ r c
  known_component grpc names r c = access_known _ _ r c
  known_component grpc_client names r c = access_known _ _ r c
  known_component db names r c = access_known _ _ r c
  known_component redis names r c = access_known _ _ r c
  known_component redis_lock names r c = access_over_redis_known _ (given_name names) r c
  known_component deduplicator names r c = access_over_redis_known _ (given_name names) r c
  known_component scheduler names r c = access_known _ _ r c

  -- What a run of calls leaves.
  record Given (calls : List Call) (r : AppRuntime W) : Type 0 where
    after : AppRuntime W
    components : List Component
    gives : get_components env calls r ≡ some (after, components)
    typed_as : kinds components ≡ asked calls
    sound : Sound after
    extends : Extends r after
    quiet : after.lifecycle.started ≡ false
    again : (u : AppRuntime W) → Extends after u → get_components env calls u ≡ some (u, components)
    planned : Planned env r → Planned env after

  get_components-Given :
      (calls : List Call) (r : AppRuntime W) → Sound r → r.lifecycle.started ≡ false → Given calls r
  unfolding get_components
  get_components-Given [] r ok quiet = record {
    after = r;
    components = [];
    gives = refl;
    typed_as = refl;
    sound = ok;
    extends = λ n c e. e;
    quiet = quiet;
    again = λ u ext. refl;
    planned = λ p. p;
  }
  get_components-Given ((t, names) ∷ calls) r ok quiet =
      let g = get_component-Gives env t names r ok quiet in
      let rest = get_components-Given calls g.after g.sound g.quiet in
      record {
        after = rest.after;
        components = g.component ∷ rest.components;
        gives = rw (g.gives, get_components, rest.gives) refl;
        typed_as = rw (g.kind, rest.typed_as) refl;
        sound = rest.sound;
        extends = λ n c e. rest.extends n c (g.extends n c e);
        quiet = rest.quiet;
        again = λ u ext.
            let there = ext (full_name t names) g.component (rest.extends _ g.component g.there) in
            rw
              (known_component t names u g.component there g.kind, get_components, rest.again u ext)
              refl;
        planned = λ p. rest.planned (g.planned p);
      }

  -- Before the start no accessor panics: any calls of a new runtime give one component for each,
  -- and it has the type that was asked for.
  pub accessors-typed :
      (calls : List Call)
      → (s : AppRuntime W) × (cs : List Component) × (get_components env calls (new_app_runtime env)
          ≡ some (s, cs))
        × (kinds cs ≡ asked calls)
  accessors-typed calls =
      let g =
        get_components-Given calls (new_app_runtime env) new_app_runtime-Sound
          new_app_runtime_quiet in
      (g.after, g.components, g.gives, g.typed_as)

  -- The run of some calls that is known to end in `s`.
  run_at :
      (calls : List Call) (r s : AppRuntime W) (cs : List Component)
      → Sound r
      → r.lifecycle.started ≡ false
      → get_components env calls r ≡ some (s, cs)
      → (g : Given calls r) × (g.after ≡ s) × (g.components ≡ cs)
  run_at calls r s cs ok quiet e =
      let g = get_components-Given calls r ok quiet in (g, cc g.gives, cc g.gives)

  -- Whatever calls were made of a new runtime before the start, and whatever others after them: the
  -- first calls made again, after the start, give the same components and change nothing.
  pub accessors_again :
      (calls more : List Call) (s u : AppRuntime W) (cs ds : List Component)
      → get_components env calls (new_app_runtime env) ≡ some (s, cs)
      → get_components env more s ≡ some (u, ds)
      → get_components env calls (mark_started u) ≡ some (mark_started u, cs)
  unfolding lookup_as
  accessors_again calls more s u cs ds e f =
      let (g, at, same) = run_at calls _ s cs new_app_runtime-Sound new_app_runtime_quiet e in
      let (h, end, _) =
        run_at more s u ds (subst Sound at g.sound)
          (subst (λ (x : AppRuntime W). x.lifecycle.started ≡ false) at g.quiet) f in
      let ext : Extends g.after u = λ n c there.
        subst (λ x. lookup_as n x ≡ some c) end
          (h.extends n c (subst (λ x. lookup_as n x ≡ some c) at there)) in
      rw⁻¹ same (g.again (mark_started u) ext)

  -- After any calls of a new runtime, and after the start, every lock manager and every deduplicator
  -- that is registered finds a component under the name that it was made with, and that component is
  -- one for Redis.
  pub redis_of-registered :
      (calls : List Call) (s : AppRuntime W) (cs : List Component) (n : Text) (c : Component)
      → get_components env calls (new_app_runtime env) ≡ some (s, cs)
      → lookup_as n s ≡ some c
      → is_over_redis c.kind ≡ true
      → (found : Component) × (redis_of c (mark_started s) ≡ some found) × (found.kind ≡ redis)
  unfolding lookup_as redis_of
  redis_of-registered calls s cs n c e there over =
      let (g, at, _) = run_at calls _ s cs new_app_runtime-Sound new_app_runtime_quiet e in
      let has = (subst Sound at g.sound).finds_redis n there over in
      (
        has.found,
        rw (has.there, redis_of, has_type-kind redis has.found has.is_redis) refl,
        has.is_redis,
      )

  pub get_components-Planned :
      (calls : List Call) (s : AppRuntime W) (cs : List Component)
      → get_components env calls (new_app_runtime env) ≡ some (s, cs)
      → Planned env s
  get_components-Planned calls s cs e =
      let (g, at, _) = run_at calls _ s cs new_app_runtime-Sound new_app_runtime_quiet e in
      subst (Planned env) at (g.planned (new_app_runtime-Planned env))
