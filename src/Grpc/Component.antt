-- ===== src/Grpc/Component.antt =====
-- `GrpcComponent` of app/module/grpc_component.go, over the server of internal/grpc/. `none` is a
-- panic. `net.SplitHostPort` is a parameter, and so are the options of the library, `O`.
use go_infra.Prelude.{arith, ◌||◌, Option, none, some, List, [], ◌∷◌, ◌++◌, ◌≡◌, if◌then◌else◌}
use go_infra.Prelude.Text.{Text, codes, text_eq, is_empty}
use go_infra.Prelude.Int.{ℤ, pos, ltb_ℤ}
use go_infra.Prelude.Net.{join_host_port}
use go_infra.Config.Property.{PropertyRuntime, required_property}
use go_infra.Config.Loading.{Loading}
use go_infra.Grpc.Server.{
  Server, Host, Stopped, new_server, set_listen, server_start, server_shutdown,
}

-- `options` are those that its server was made with.
pub record GrpcComponent (O : Type 0) : Type 0 where
  pub server : Option Server
  pub listen : Text
  pub max_connections : ℤ
  pub opts : List O
  pub options : List O

-- `grpcProbeHostURI`
unfoldable pub grpc_probe_host_uri : (Text → Option (Text × Text)) → Text → Text
grpc_probe_host_uri split_host_port listen =
    if is_empty listen then [] else elim (split_host_port listen) [
      | none ↦ []
      | some (host, port) ↦
          if is_empty host || text_eq host (codes "0.0.0.0") || text_eq host (codes "::")
          then []
          else join_host_port host port
    ]

module _ {O : Type 0} where
  unfoldable pub grpc_add_opt : List O → GrpcComponent O → Option (GrpcComponent O)
  grpc_add_opt more c = elim c.server [
    | some s ↦ none
    | none ↦ some (record c { opts = c.opts ++ more })
  ]

  unfoldable pub set_max_connections : ℤ → GrpcComponent O → Option (GrpcComponent O)
  set_max_connections n c = elim c.server [
    | some s ↦ none
    | none ↦ some (record c { max_connections = n })
  ]

  unfoldable pub grpc_listen :
      (Text → Option (Text × Text)) → Text → Loading (GrpcComponent O) → Loading (GrpcComponent O)
  grpc_listen split_host_port listen l =
      let host_uri = grpc_probe_host_uri split_host_port listen in
      record l {
        component = record l.component { listen = listen };
        host_uris = if is_empty host_uri then l.host_uris else l.host_uris ++ host_uri ∷ [];
      }

  listen_loaded :
      (Text → Option (Text × Text))
      → Loading (GrpcComponent O)
      → PropertyRuntime × Option Text
      → Option (Loading (GrpcComponent O))
  listen_loaded split_host_port l (p, none) = none
  listen_loaded split_host_port l (p, some listen) =
      some (grpc_listen split_host_port listen (record l { property = p }))

  unfoldable pub grpc_load_from_prefix :
      (Text → Option (Text × Text))
      → Text
      → Loading (GrpcComponent O)
      → Option (Loading (GrpcComponent O))
  unfolding listen_loaded
  grpc_load_from_prefix split_host_port prefix l =
      if is_empty prefix
      then none
      else listen_loaded split_host_port l
          (required_property (prefix ++ codes ".listen") l.property)

  -- What the server is made with; `max_streams` is the option for the number of streams.
  abbrev pub server_options : (ℤ → O) → GrpcComponent O → List O
  server_options max_streams c =
      if ltb_ℤ (pos 0) c.max_connections
      then c.opts ++ max_streams c.max_connections ∷ []
      else c.opts

  -- `ensureServer`, with the server that the component then has.
  unfoldable pub ensure_server : (ℤ → O) → GrpcComponent O → Option (GrpcComponent O × Server)
  ensure_server max_streams c = elim c.server [
    | some s ↦ some (c, s)
    | none ↦
        if is_empty c.listen
        then none
        else let s = set_listen c.listen new_server in
          some (record c { server = some s; options = server_options max_streams c }, s)
  ]

module _ {W O : Type 0} (lib : Host W) (max_streams : ℤ → O) where
  abbrev put_server : GrpcComponent O → Server × W × Option Text → GrpcComponent O × W × Option Text
  put_server c (s, w, e) = (record c { server = some s }, w, e)

  started_or_panic : GrpcComponent O × W × Option Text → Option (GrpcComponent O × W)
  started_or_panic (c, w, none) = some (c, w)
  started_or_panic (c, w, some e) = none

  unfoldable pub grpc_start : GrpcComponent O → W → Option (GrpcComponent O × W)
  unfolding started_or_panic
  grpc_start c w = elim (ensure_server max_streams c) [
    | none ↦ none
    | some (c', s) ↦ started_or_panic (put_server c' (server_start lib s w))
  ]

  unfoldable pub grpc_shutdown : Stopped → GrpcComponent O → W → GrpcComponent O × W × Option Text
  grpc_shutdown how c w = elim c.server [
    | none ↦ (c, w, none)
    | some s ↦ put_server c (server_shutdown lib how s w)
  ]

  -- Once the server was started, its options are settled: whatever was given before is what it was
  -- made with, and another option, or another limit, is a panic.
  pub grpc_start-frozen :
      (c c' : GrpcComponent O) (w w' : W) (more : List O) (n : ℤ)
      → grpc_start c w ≡ some (c', w')
      → c.server ≡ none
      → (c'.options ≡ server_options max_streams c)
        × (grpc_add_opt more c' ≡ none)
        × (set_max_connections n c' ≡ none)
  unfolding grpc_start started_or_panic ensure_server grpc_add_opt set_max_connections
  grpc_start-frozen c c' w w' more n e fresh = ground arith
