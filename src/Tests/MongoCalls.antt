-- ===== src/Tests/MongoCalls.antt =====
-- A component of app/module/mongo_component.go that is set up before and after its client is made.
use go_infra.Prelude.{ℕ, none, some, List, [], ◌∷◌, ◌≡◌, refl}
use go_infra.Prelude.Text.{codes, text_eq}
use go_infra.Prelude.Int.{pos}
use go_infra.Prelude.Dict.{lookup}
use go_infra.Config.Strconv.{parse_uint}
use go_infra.Config.Property.{property, required_property}
use go_infra.Config.Loading.{Loading}
use go_infra.Mongo.{
  MongoClient, MongoLib, connected, secondary, new_mongo_client, client_set_uri,
  client_set_read_preference, client_set_timeout, client_set_pool_size, client_set_max_connecting,
  client_set_tls_config, client_initialize,
}
use go_infra.Mongo.Component.{
  MongoComponent, set_timeout, set_uri, set_max_connecting, mongo_load_from_prefix, mongo_load_pool,
  load_preference, set_read_preference, mongo_set_pool_size, mongo_ensure_client, force_start,
}
use go_infra.Mongo.Agrees.{IsSetIn}
use go_infra.Mongo.Agrees.Calls.{
  Call, loads, prefers, times_out, pools, starts, run_calls, run_calls-IsSetIn,
}

abbrev lib : MongoLib ℕ
lib = record {
  connect = λ o w. (w, connected 1);
  ping_connection = λ c w. (w, none);
  disconnect = λ c w. (w, none);
}

abbrev fresh : MongoComponent
fresh = record {
  client = none;
  uri = codes "mongodb://db";
  read_preference = none;
  timeout = pos 0;
  min_pool_size = 0;
  max_pool_size = 0;
  max_connecting = 0;
  tls_config = none;
  slow_operation_threshold = pos 0;
}

abbrev loading : Loading MongoComponent
loading = record {
  component = fresh;
  property = record {
    store = record {
      values = (codes "m.uri", codes "mongodb://db2") ∷ (codes "m.max.connecting", codes "3") ∷ [];
    };
    validator = record { used_keys = [] };
  };
  host_uris = [];
}

abbrev calls : List Call
calls =
    loads (codes "m")
    ∷ pools 2 8
    ∷ times_out (pos 5)
    ∷ starts
    ∷ prefers (some secondary)
    ∷ times_out (pos 7)
    ∷ []

record Run : Type 0 where
  last : Loading MongoComponent
  client : MongoClient
  runs : run_calls (λ uri o. o) lib (λ uri. none) (λ s. none) calls loading 0 ≡ some (last, 0)
  there : last.component.client ≡ some client

abbrev run : Run
unfolding new_mongo_client client_set_uri client_set_read_preference client_set_timeout
    client_set_pool_size client_set_max_connecting client_set_tls_config client_initialize
    set_timeout set_read_preference set_uri set_max_connecting mongo_load_from_prefix property
    required_property lookup text_eq load_preference mongo_load_pool parse_uint mongo_set_pool_size
    mongo_ensure_client force_start
run = record { last = _; client = _; runs = refl; there = refl }

run_timeout : run.client.options.timeout ≡ pos 7
unfolding run client_set_timeout
run_timeout = refl

run_calls-IsSetIn_example : IsSetIn run.last.component run.client.options
run_calls-IsSetIn_example =
    run_calls-IsSetIn (λ uri o. o) lib (λ uri. none) (λ s. none) calls loading run.last 0 0
      run.client refl run.runs run.there
