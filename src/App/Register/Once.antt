-- ===== src/App/Register/Once.antt =====
-- What `Register` leaves: one component for a name, and the component for Redis that it needs.
use go_infra.Prelude.{
  true, false, Option, none, some, [], ◌∷◌, ◌≡◌, refl, arith, Option-cases, inl, inr, ap, ◌∙◌,
}
use go_infra.Prelude.Text.{Text, text_eq}
use go_infra.Prelude.Dict.{lookup, insert, lookup-insert, lookup-insert_self}
use go_infra.App.Runtime.{
  Kind, redis, redis_lock, dedupe, kafka, rabbitmq, scheduler, db, postgres, other, Component,
  Runtime, Environment, lookup_component, register_in,
}
use go_infra.App.Runtime.Components.{
  initialize_redis, initialize_db, initialize_postgres, initialize_kafka, initialize_rabbitmq,
  initialize_scheduler, initialize_kind, validates_kind, register_component,
}
use go_infra.App.Register.{
  redis_name, lock_name, dedupe_name, is_kind, new_component, register_new, register_plain,
  redis_register, made, after_redis, lock_register, dedupe_register, ensure_redis,
}

lock_name-redis_name : (name : Text) → text_eq (lock_name name) (redis_name name) ≡ false
unfolding text_eq lock_name redis_name
lock_name-redis_name [] = refl
lock_name-redis_name (x ∷ xs) = refl

dedupe_name-redis_name : (name : Text) → text_eq (dedupe_name name) (redis_name name) ≡ false
unfolding text_eq dedupe_name redis_name
dedupe_name-redis_name [] = refl
dedupe_name-redis_name (x ∷ xs) = refl

-- The kinds whose `Initialize` is modelled.
abbrev IsOwn : Kind → Type 0
IsOwn other = ⊥
IsOwn _ = Unit {0}

-- What is registered for Redis, if anything, is of that type.
abbrev pub IsUsable : Option Component → Type 0
IsUsable none = Unit {0}
IsUsable (some c) = is_kind redis c ≡ true

module _ {W : Type 0} (env : Environment W) where
  initialize_keeps :
      (k : Kind) (c : Component) (n : Text) (r : Runtime W)
      → IsOwn k
      → (r' : Runtime W) × (initialize_kind env k c n r ≡ some r')
        × (r'.components ≡ r.components)
        × (r'.lifecycle.started ≡ r.lifecycle.started)
        × (validates_kind env k c ≡ true)
  unfolding initialize_kind validates_kind initialize_redis initialize_db initialize_postgres
      initialize_kafka initialize_rabbitmq initialize_scheduler
  initialize_keeps redis c n r own = (_, refl, ground arith, ground arith, refl)
  initialize_keeps redis_lock c n r own = (_, refl, refl, refl, refl)
  initialize_keeps dedupe c n r own = (_, refl, refl, refl, refl)
  initialize_keeps kafka c n r own = (_, refl, ground arith, ground arith, refl)
  initialize_keeps rabbitmq c n r own = (_, refl, ground arith, ground arith, refl)
  initialize_keeps scheduler c n r own = (_, refl, ground arith, ground arith, refl)
  initialize_keeps db c n r own = (_, refl, ground arith, ground arith, refl)
  initialize_keeps postgres c n r own = (_, refl, ground arith, ground arith, refl)
  initialize_keeps other c n r own = elim own [ ]

  -- Before the start a new component of a kind of ours is registered, under its name alone.
  register_new_lem :
      (k : Kind) (n redis_component : Text) (r : Runtime W)
      → IsOwn k
      → r.lifecycle.started ≡ false
      → (r' : Runtime W) × (register_new env k n redis_component r
          ≡ some (r', new_component k redis_component r))
        × (r'.components ≡ insert n (new_component k redis_component r) r.components)
        × (r'.lifecycle.started ≡ false)
  unfolding register_new register_component register_in
  register_new_lem k n rn r own e =
      let c = new_component k rn r in
      let (r', ran, comps, started, valid) = initialize_keeps k c n (made r) own in
      (
        register_in n c r',
        rw (register_component, ran, valid, e) refl,
        ap (insert n c) comps,
        started ∙ e,
      )

  -- `redis.Register` before the start: the component that is then under the name, and nothing else.
  redis_register_lem :
      (name : Text) (r : Runtime W)
      → r.lifecycle.started ≡ false
      → IsUsable (lookup (redis_name name) r.components)
      → (r' : Runtime W) × (found : Component) × (redis_register env name r ≡ some (r', found))
        × (lookup (redis_name name) r'.components ≡ some found)
        × (is_kind redis found ≡ true)
        × (r'.lifecycle.started ≡ false)
  unfolding register_plain lookup_component
  redis_register_lem name r e u = elim (Option-cases (lookup (redis_name name) r.components)) [
    | inl none_there ↦
        let (r', made_it, comps, s) = register_new_lem redis (redis_name name) [] r tt e in
        (
          r',
          new_component redis [] r,
          rw (none_there, register_plain) made_it,
          rw comps (lookup-insert_self (redis_name name) _ r.components),
          refl,
          s,
        )
    | inr (c, there) ↦
        let usable : is_kind redis c ≡ true = rw there at u in
        (r, c, rw (there, register_plain, usable) refl, there, usable, e)
  ]

  -- The rest of `Register` of a client of Redis, after `redis.Register`.
  after_redis_lem :
      (k : Kind) (cname name : Text) (r : Runtime W)
      → IsOwn k
      → r.lifecycle.started ≡ false
      → IsUsable (lookup (redis_name name) r.components)
      → text_eq cname (redis_name name) ≡ false
      → (r' : Runtime W) × (c found : Component) × (after_redis env k cname
            (redis_name name)
            (redis_register env name r)
          ≡ some (r', c))
        × (c.kind ≡ k)
        × (c.redis_component_name ≡ redis_name name)
        × (lookup cname r'.components ≡ some c)
        × (lookup (redis_name name) r'.components ≡ some found)
        × (is_kind redis found ≡ true)
  unfolding after_redis
  after_redis_lem k cname name r own e u other_name =
      let (r1, found, ran, there, is_redis, s) = redis_register_lem name r e u in
      let c = new_component k (redis_name name) r1 in
      let (r2, made_it, comps, s2) = register_new_lem k cname (redis_name name) r1 own s in
      (
        r2,
        c,
        found,
        rw (ran, after_redis) made_it,
        refl,
        refl,
        rw comps (lookup-insert_self cname c r1.components),
        rw (comps, lookup-insert cname (redis_name name) c r1.components, other_name) there,
        is_redis,
      )

  -- Before the start, and where what already stands under the Redis name, if anything, is a component
  -- of package redis, `redislock.Register` of a new name gives a component that is registered from
  -- then on: registering the name again gives the same one, it finds the component for Redis of its
  -- name, and `redis.Register` gives that very component.
  pub lock_register-once :
      (name : Text) (r : Runtime W)
      → r.lifecycle.started ≡ false
      → lookup_component (lock_name name) r ≡ none
      → IsUsable (lookup_component (redis_name name) r)
      → (r' : Runtime W) × (c found : Component) × (lock_register env name r ≡ some (r', c))
        × (lock_register env name r' ≡ some (r', c))
        × (ensure_redis c r' ≡ some found)
        × (redis_register env name r' ≡ some (r', found))
  unfolding lock_register lookup_component ensure_redis register_plain
  lock_register-once name r e new u =
      let (r', c, found, ran, k, n, there, redis_there, is_redis) =
        after_redis_lem redis_lock (lock_name name) name r tt e u (lock_name-redis_name name) in
      (
        r',
        c,
        found,
        rw (new, lock_register) ran,
        rw (there, lock_register, k) refl,
        rw (n, ensure_redis, redis_there, is_redis) refl,
        rw (redis_there, register_plain, is_redis) refl,
      )

  -- Before the start, and where what already stands under the Redis name, if anything, is a component
  -- of package redis, `dedupe.Register` of a new name gives a component that is registered from then
  -- on: registering the name again gives the same one, it finds the component for Redis of its name,
  -- and `redis.Register` gives that very component.
  pub dedupe_register-once :
      (name : Text) (r : Runtime W)
      → r.lifecycle.started ≡ false
      → lookup_component (dedupe_name name) r ≡ none
      → IsUsable (lookup_component (redis_name name) r)
      → (r' : Runtime W) × (c found : Component) × (dedupe_register env name r ≡ some (r', c))
        × (dedupe_register env name r' ≡ some (r', c))
        × (ensure_redis c r' ≡ some found)
        × (redis_register env name r' ≡ some (r', found))
  unfolding dedupe_register lookup_component ensure_redis register_plain
  dedupe_register-once name r e new u =
      let (r', c, found, ran, k, n, there, redis_there, is_redis) =
        after_redis_lem dedupe (dedupe_name name) name r tt e u (dedupe_name-redis_name name) in
      (
        r',
        c,
        found,
        rw (new, dedupe_register) ran,
        rw (there, dedupe_register, k) refl,
        rw (n, ensure_redis, redis_there, is_redis) refl,
        rw (redis_there, register_plain, is_redis) refl,
      )
