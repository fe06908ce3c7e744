-- ===== src/Tests/SqlLoad.antt =====
-- `LoadFromPrefix` of postgres/component.go at concrete properties.
use go_infra.Prelude.{none, [], ◌∷◌}
use go_infra.Prelude.Text.{codes}
use go_infra.Prelude.Int.{pos}
use go_infra.Config.Property.{PropertyStore}
use go_infra.Config.Property.Usage.{fresh}
use go_infra.Config.Loading.{Loading}
use go_infra.Sql.{SqlComponent}

abbrev idle : SqlComponent
idle = record {
  client = none;
  dsn = [];
  max_idle_conns = pos 2;
  max_open_conns = pos 8;
  conn_max_idle_time = pos 0;
  conn_max_lifetime = pos 0;
}

abbrev store : PropertyStore
store = record {
  values =
      (codes "p.dsn", codes "postgres://h:5")
      ∷ (codes "p.pool.maxOpenConns", codes "9")
      ∷ (codes "p.connMaxLifetime", codes "1m")
      ∷ [];
}

abbrev loading : Loading SqlComponent
loading = record { component = idle; property = fresh store; host_uris = [] }
