-- ===== src/Sql.antt =====
-- The components of db/component.go and postgres/component.go, which differ in the life time of a
-- connection that only the second has. `none` is a panic. `url.Parse`, `time.ParseDuration` and the
-- database library are parameters.
pub mod Load
pub mod Once
use go_infra.Prelude.{
  ℕ, Bool, true, false, ◌&&◌, Option, none, some, List, [], ◌∷◌, ◌++◌, if◌then◌else◌, and_then,
}
use go_infra.Prelude.Text.{Text, codes, is_empty}
use go_infra.Prelude.Int.{ℤ}
use go_infra.Config.Strconv.{atoi}
use go_infra.Config.Property.{PropertyRuntime, property, required_property}
use go_infra.Config.Loading.{Loading, load_parsed}

-- A client of the library is a number.
pub record SqlComponent : Type 0 where
  pub client : Option ℕ
  pub dsn : Text
  pub max_idle_conns : ℤ
  pub max_open_conns : ℤ
  pub conn_max_idle_time : ℤ
  pub conn_max_lifetime : ℤ

abbrev pub set_pool_size : ℤ → ℤ → SqlComponent → SqlComponent
set_pool_size max_idle max_open c = record c {
  max_idle_conns = max_idle;
  max_open_conns = max_open;
}

abbrev pub set_conn_max_idle_time : ℤ → SqlComponent → SqlComponent
set_conn_max_idle_time d c = record c { conn_max_idle_time = d }

abbrev pub set_conn_max_lifetime : ℤ → SqlComponent → SqlComponent
set_conn_max_lifetime d c = record c { conn_max_lifetime = d }

abbrev pub default_string : Text → Text → Text
default_string value fallback = if is_empty value then fallback else value

-- The host that `postgresHostFromDSN` and `hostFromDSN` give; `parse_url` gives that of a URL.
abbrev pub host_from_dsn : (Text → Option Text) → Text → Text
host_from_dsn parse_url dsn = elim (parse_url dsn) [ none ↦ [] | some host ↦ host ]

abbrev pub host_uris_of : Text → List Text
host_uris_of host_uri = if is_empty host_uri then [] else host_uri ∷ []

unfoldable pub set_dsn : (Text → Option Text) → Text → Loading SqlComponent → Loading SqlComponent
set_dsn parse_url dsn l = record l {
  component = record l.component { dsn = dsn };
  host_uris = l.host_uris ++ host_uris_of (host_from_dsn parse_url dsn);
}

set_pool : Option ℤ → Option ℤ → Loading SqlComponent → Option (Loading SqlComponent)
set_pool none max_open l = none
set_pool (some max_idle) none l = none
set_pool (some max_idle) (some max_open) l =
    some (record l { component = set_pool_size max_idle max_open l.component })

unfoldable pub load_pool : Text → Loading SqlComponent → Option (Loading SqlComponent)
unfolding set_pool
load_pool prefix l =
    let (p1, idle) = property (prefix ++ codes ".pool.maxIdleConns") l.property in
    let (p2, open_) = property (prefix ++ codes ".pool.maxOpenConns") p1 in
    let l' = record l { property = p2 } in
    if is_empty idle && is_empty open_
    then some l'
    else set_pool (atoi (default_string idle (codes "0"))) (atoi (default_string open_ (codes "0")))
        l'

module _ (parse_url : Text → Option Text) (parse_duration : Text → Option ℤ) where
  abbrev pub load_idle_time : Text → Loading SqlComponent → Option (Loading SqlComponent)
  load_idle_time prefix =
      load_parsed parse_duration (prefix ++ codes ".connMaxIdleTime") set_conn_max_idle_time

  abbrev pub load_lifetime : Text → Loading SqlComponent → Option (Loading SqlComponent)
  load_lifetime prefix =
      load_parsed parse_duration (prefix ++ codes ".connMaxLifetime") set_conn_max_lifetime

  load_dsn :
      Text → Loading SqlComponent → PropertyRuntime × Option Text → Option (Loading SqlComponent)
  load_dsn prefix l (p, none) = none
  load_dsn prefix l (p, some dsn) =
      and_then (load_pool prefix (set_dsn parse_url dsn (record l { property = p })))
        (load_idle_time prefix)

  -- `LoadFromPrefix` of db/component.go
  unfoldable pub db_load_from_prefix : Text → Loading SqlComponent → Option (Loading SqlComponent)
  unfolding load_dsn
  db_load_from_prefix prefix l =
      if is_empty prefix
      then none
      else load_dsn prefix l (required_property (prefix ++ codes ".dsn") l.property)

  -- `LoadFromPrefix` of postgres/component.go
  unfoldable pub postgres_load_from_prefix :
      Text → Loading SqlComponent → Option (Loading SqlComponent)
  unfolding db_load_from_prefix
  postgres_load_from_prefix prefix l =
      and_then (db_load_from_prefix prefix l) (load_lifetime prefix)

-- The library: a client for the settings of a component, and its `Close`.
pub record SqlLib (W : Type 0) : Type 0 where
  pub new_client : SqlComponent → W → ℕ × W
  pub close_client : ℕ → W → W × Option Text

module _ {W : Type 0} (lib : SqlLib W) where
  -- `EnsureClient`, with the client that the component then has.
  unfoldable pub ensure_client : SqlComponent → W → Option (SqlComponent × ℕ × W)
  ensure_client c w = elim c.client [
    | some client ↦ some (c, client, w)
    | none ↦
        if is_empty c.dsn
        then none
        else let (client, w') = lib.new_client c w in
          some (record c { client = some client }, client, w')
  ]

  unfoldable pub close : SqlComponent → W → SqlComponent × W × Option Text
  close c w = elim c.client [
    | none ↦ (c, w, none)
    | some client ↦ let (w', e) = lib.close_client client w in (record c { client = none }, w', e)
  ]
