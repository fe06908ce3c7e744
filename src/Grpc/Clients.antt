-- ===== src/Grpc/Clients.antt =====
-- `GrpcClientComponent` of app/module/grpc_client_component.go. `none` is a panic.
pub mod Registered
use go_infra.Prelude.{
  ℕ, Bool, true, false, ◌||◌, Option, none, some, List, [], ◌∷◌, ◌++◌, if◌then◌else◌,
}
use go_infra.Prelude.Text.{Text, codes, is_empty, text_eq}
use go_infra.Prelude.Int.{ℤ, pos, leb_ℤ}
use go_infra.Prelude.Dict.{Dict, lookup, insert}
use go_infra.Prelude.Net.{join_host_port}
use go_infra.Config.Property.{PropertyRuntime, required_property}
use go_infra.Grpc.Pool.{ClientPool, Dialler, first_error, new_client_pool, pool_close, get}

pub record GrpcClients (O : Type 0) : Type 0 where
  pub pool_size : ℤ
  pub global_opts : List O
  pub pools : Dict ClientPool
  pub registered : Dict Text
  pub property : PropertyRuntime
  pub host_uris : List Text

abbrev no_pools : Dict ClientPool → Bool
no_pools [] = true
no_pools (p ∷ ps) = false

-- `grpcClientProbeHostURI`; `net.SplitHostPort` is a parameter.
unfoldable pub grpc_client_probe_host_uri : (Text → Option (Text × Text)) → Text → Text
grpc_client_probe_host_uri split address = if is_empty address then [] else elim (split address) [
  | none ↦ address
  | some (host, port) ↦
      if is_empty host || (text_eq host (codes "0.0.0.0") || text_eq host (codes "::"))
      then []
      else join_host_port host port
]

abbrev with_host_uri : Text → List Text → List Text
with_host_uri uri uris = if is_empty uri then uris else uris ++ uri ∷ []

module _ {O : Type 0} where
  -- `initialize`, of what the component keeps.
  unfoldable pub initialize : GrpcClients O → GrpcClients O
  initialize c = if leb_ℤ c.pool_size (pos 0) then record c { pool_size = pos 3 } else c

  unfoldable pub set_pool_size : ℤ → GrpcClients O → Option (GrpcClients O)
  set_pool_size n c =
      if no_pools c.pools
      then some (record c { pool_size = if leb_ℤ n (pos 0) then pos 1 else n })
      else none

  unfoldable pub add_opt : List O → GrpcClients O → Option (GrpcClients O)
  add_opt opts c =
      if no_pools c.pools then some (record c { global_opts = c.global_opts ++ opts }) else none

  with_conn : Text → GrpcClients O → Option (ClientPool × ℕ) → Option (GrpcClients O × Option ℕ)
  with_conn service c none = none
  with_conn service c (some (p, conn)) =
      some (record c { pools = insert service p c.pools }, some conn)

  -- `Conn`; without a connection it is an error.
  unfoldable pub conn : Text → GrpcClients O → Option (GrpcClients O × Option ℕ)
  unfolding with_conn
  conn service c = elim (lookup service c.pools) [
    | none ↦ some (c, none)
    | some p ↦ with_conn service c (get p)
  ]

module _ {W O : Type 0} (lib : Dialler W O) (split : Text → Option (Text × Text)) where
  registered_with :
      Text → Text → GrpcClients O → Option (ClientPool × W) → Option (GrpcClients O × W)
  registered_with service address c none = none
  registered_with service address c (some (p, w)) = some (
    record c {
      pools = insert service p c.pools;
      registered = insert service address c.registered;
      host_uris = with_host_uri (grpc_client_probe_host_uri split address) c.host_uris;
    },
    w,
  )

  unfoldable pub register : Text → Text → List O → GrpcClients O → W → Option (GrpcClients O × W)
  unfolding registered_with
  register service address opts c w =
      if is_empty service
      then none
      else if is_empty address
      then none
      else elim (lookup service c.pools) [
        | some p ↦ none
        | none ↦
            registered_with service address c
              (new_client_pool lib address c.pool_size (c.global_opts ++ opts) w)
      ]

  register_required :
      Text → List O → GrpcClients O → W → PropertyRuntime × Option Text → Option (GrpcClients O × W)
  register_required service opts c w (p, none) = none
  register_required service opts c w (p, some address) =
      register service address opts (record c { property = p }) w

  unfoldable pub register_by_property :
      Text → Text → List O → GrpcClients O → W → Option (GrpcClients O × W)
  unfolding register_required
  register_by_property service key opts c w =
      if is_empty key
      then none
      else register_required service opts c w (required_property key c.property)

  -- `Close`; `ranged` are the pools in the order in which the map is ranged over.
  close_pools : List ClientPool → W → W × Option Text
  close_pools [] w = (w, none)
  close_pools (p ∷ ps) w =
      let (w1, e1) = pool_close lib p w in
      let (w2, e2) = close_pools ps w1 in (w2, first_error e1 e2)
