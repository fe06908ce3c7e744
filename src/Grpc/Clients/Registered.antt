-- ===== src/Grpc/Clients/Registered.antt =====
-- What a service of app/module/grpc_client_component.go has once it is registered.
use mathlib.Core.Option.{some_inj}
use go_infra.Prelude.{
  ℕ, ◌<◌, false, Option, none, some, List, ◌++◌, ◌≡◌, refl, sym, ap, ◌∙◌, arith, length, Bool-cases,
  Option-cases, inl, inr,
}
use go_infra.Prelude.Text.{Text, is_empty, text_eq}
use go_infra.Prelude.Dict.{lookup, insert, lookup-insert, lookup-insert_self}
use go_infra.Grpc.Pool.{ClientPool, Dialler, new_client_pool, bumped}
use go_infra.Grpc.Pool.Turns.{get_lem, new_client_pool_lem}
use go_infra.Grpc.Clients.{GrpcClients, registered_with, register, with_conn, conn}

-- The pool of a service, which has a connection; the pools of the others are as they were.
abbrev pub HasPool : {O : Type 0} → Text → GrpcClients O → GrpcClients O → ClientPool → Type 0
HasPool service c c' p =
    (lookup service c'.pools ≡ some p)
    × (0 < length p.conns)
    × ((other : Text)
        → text_eq service other ≡ false
        → lookup other c'.pools ≡ lookup other c.pools)

module _ {W O : Type 0} (lib : Dialler W O) (split : Text → Option (Text × Text)) where
  registered_with-HasPool :
      (service address : Text) (opts : List O) (c c' : GrpcClients O) (w w' : W)
      → registered_with lib split service address c
          (new_client_pool lib address c.pool_size (c.global_opts ++ opts) w)
        ≡ some (c', w')
      → (p : ClientPool) × HasPool service c c' p
  unfolding registered_with
  registered_with-HasPool service address opts c c' w w' h =
      elim (Option-cases (new_client_pool lib address c.pool_size (c.global_opts ++ opts) w)) [
        | inl e ↦ cc (rw (e, registered_with) at h)
        | inr ((p, w1), e) ↦
            let made = some_inj.0 (rw (e, registered_with) at h) in
            let (many, fresh) =
              new_client_pool_lem lib address c.pool_size (c.global_opts ++ opts) w w1 p e in
            let pools : insert service p c.pools ≡ c'.pools =
              ap (λ (x : GrpcClients O × W). x.0.pools) made in
            (
              p,
              (
                ap (lookup service) (sym pools) ∙ lookup-insert_self service p c.pools,
                ground (arith, many),
                λ other new.
                    ap (lookup other) (sym pools)
                    ∙ lookup-insert service other p c.pools
                    ∙ rw new refl,
              ),
            )
      ]

  register-HasPool :
      (service address : Text) (opts : List O) (c c' : GrpcClients O) (w w' : W)
      → register lib split service address opts c w ≡ some (c', w')
      → (p : ClientPool) × HasPool service c c' p
  unfolding register
  register-HasPool service address opts c c' w w' h = elim (Bool-cases (is_empty service)) [
    | inl x ↦ cc (rw (x, register) at h)
    | inr x ↦ elim (Bool-cases (is_empty address)) [
      | inl y ↦ cc (rw (x, register, y) at h)
      | inr y ↦ elim (Option-cases (lookup service c.pools)) [
        | inr (p, z) ↦ cc (rw (x, register, y, z) at h)
        | inl z ↦
            registered_with-HasPool service address opts c c' w w' (rw (x, register, y, z) at h)
      ]
    ]
  ]

  -- A service that was registered has connections: `Conn` gives one and does not panic, the other
  -- services have the pools they had, and to register the service again panics.
  pub register-conn :
      (service address address' : Text) (opts opts' : List O) (c c' : GrpcClients O) (w w' w2 : W)
      → register lib split service address opts c w ≡ some (c', w')
      → ((x : ℕ) × (c2 : GrpcClients O) × (conn service c' ≡ some (c2, some x)))
        × ((other : Text)
            → text_eq service other ≡ false
            → lookup other c'.pools ≡ lookup other c.pools)
        × (register lib split service address' opts' c' w2 ≡ none)
  unfolding conn with_conn register
  register-conn service address address' opts opts' c c' w w' w2 h =
      let (p, pool) = register-HasPool service address opts c c' w w' h in
      let (has, some_, others) = pool in
      let (x, got, at) = get_lem p some_ in
      (
        (x, record c' { pools = insert service (bumped p) c'.pools }, rw (has, conn, got) refl),
        others,
        ground (arith, has),
      )
