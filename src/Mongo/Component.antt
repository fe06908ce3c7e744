-- ===== src/Mongo/Component.antt =====
-- `MongoComponent` of app/module/mongo_component.go. `none` is a panic. `time.ParseDuration`, the
-- host that `url.Parse` gives, and `ApplyURI` of the driver are parameters.
use go_infra.Prelude.{
  ℕ, ltb, ◌&&◌, ◌||◌, Option, none, some, [], ◌∷◌, ◌++◌, if◌then◌else◌, and_then,
}
use go_infra.Prelude.Text.{Text, codes, text_eq, is_empty}
use go_infra.Prelude.Int.{ℤ, pos, ltb_ℤ}
use go_infra.Config.Strconv.{parse_uint}
use go_infra.Config.Property.{PropertyRuntime, property, required_property}
use go_infra.Config.Loading.{Loading, load_parsed}
use go_infra.Mongo.{
  ReadPref, primary_preferred, secondary, secondary_preferred, nearest, ClientOptions, MongoClient,
  new_mongo_client, client_set_uri, client_set_read_preference, client_set_timeout,
  client_set_pool_size, client_set_max_connecting, client_set_tls_config, MongoLib,
  client_initialize, client_ping, client_close,
}

pub record MongoComponent : Type 0 where
  pub client : Option MongoClient
  pub uri : Text
  pub read_preference : Option ReadPref
  pub timeout : ℤ
  pub min_pool_size : ℕ
  pub max_pool_size : ℕ
  pub max_connecting : ℕ
  pub tls_config : Option ℕ
  pub slow_operation_threshold : ℤ

-- `if mc.client != nil`
abbrev pub on_client : (MongoClient → MongoClient) → Option MongoClient → Option MongoClient
on_client f none = none
on_client f (some c) = some (f c)

unfoldable pub set_read_preference : Option ReadPref → MongoComponent → MongoComponent
set_read_preference rp m = record m {
  read_preference = rp;
  client = on_client (client_set_read_preference rp) m.client;
}

unfoldable pub set_timeout : ℤ → MongoComponent → MongoComponent
set_timeout timeout m = record m {
  timeout = timeout;
  client = on_client (client_set_timeout timeout) m.client;
}

unfoldable pub mongo_set_pool_size : ℕ → ℕ → MongoComponent → MongoComponent
mongo_set_pool_size min_size max_size m = record m {
  min_pool_size = min_size;
  max_pool_size = max_size;
  client = on_client (client_set_pool_size min_size max_size) m.client;
}

unfoldable pub set_max_connecting : ℕ → MongoComponent → MongoComponent
set_max_connecting n m = record m {
  max_connecting = n;
  client = on_client (client_set_max_connecting n) m.client;
}

unfoldable pub set_tls_config : Option ℕ → MongoComponent → MongoComponent
set_tls_config conf m = record m {
  tls_config = conf;
  client = on_client (client_set_tls_config conf) m.client;
}

unfoldable pub set_slow_operation_threshold : ℤ → MongoComponent → MongoComponent
set_slow_operation_threshold threshold m = record m { slow_operation_threshold = threshold }

-- `mongoHostFromURI`; `parse_url` gives the host of a URL.
abbrev mongo_host_from_uri : (Text → Option Text) → Text → Text
mongo_host_from_uri parse_url uri = elim (parse_url uri) [ none ↦ [] | some host ↦ host ]

unfoldable pub set_uri :
    (Text → Option Text) → Text → Loading MongoComponent → Loading MongoComponent
set_uri parse_url uri l =
    let host = mongo_host_from_uri parse_url uri in
    record l {
      component = record l.component { uri = uri };
      host_uris = if is_empty host then l.host_uris else l.host_uris ++ host ∷ [];
    }

-- The cases of the switch over `<prefix>.read.preference`.
abbrev pub named_preference : Text → Option ReadPref
named_preference s =
    if text_eq s (codes "secondary")
    then some secondary
    else if text_eq s (codes "secondaryPreferred")
    then some secondary_preferred
    else if text_eq s (codes "primaryPreferred")
    then some primary_preferred
    else if text_eq s (codes "nearest")
    then some nearest
    else none

unfoldable pub prefer : Option ReadPref → MongoComponent → MongoComponent
prefer none m = m
prefer (some rp) m = set_read_preference (some rp) m

unfoldable pub load_preference : Text → Loading MongoComponent → Loading MongoComponent
unfolding prefer
load_preference prefix l =
    let (p, value) = property (prefix ++ codes ".read.preference") l.property in
    record l { property = p; component = prefer (named_preference value) l.component }

abbrev pub or_zero : Text → Text
or_zero value = if is_empty value then codes "0" else value

unfoldable pub mongo_set_pool :
    Option ℕ → Option ℕ → Loading MongoComponent → Option (Loading MongoComponent)
mongo_set_pool none max_pool l = none
mongo_set_pool (some min_pool) none l = none
mongo_set_pool (some min_pool) (some max_pool) l =
    some (record l { component = mongo_set_pool_size min_pool max_pool l.component })

unfoldable pub mongo_load_pool : Text → Loading MongoComponent → Option (Loading MongoComponent)
unfolding mongo_set_pool
mongo_load_pool prefix l =
    let (p1, min_value) = property (prefix ++ codes ".pool.min") l.property in
    let (p2, max_value) = property (prefix ++ codes ".pool.max") p1 in
    let l' = record l { property = p2 } in
    if is_empty min_value && is_empty max_value
    then some l'
    else mongo_set_pool (parse_uint (or_zero min_value)) (parse_uint (or_zero max_value)) l'

module _ (parse_url : Text → Option Text) (parse_duration : Text → Option ℤ) where
  unfoldable pub load_with_uri :
      Text
      → Loading MongoComponent
      → PropertyRuntime × Option Text
      → Option (Loading MongoComponent)
  load_with_uri prefix l (p, none) = none
  load_with_uri prefix l (p, some uri) =
      let l1 = load_preference prefix (set_uri parse_url uri (record l { property = p })) in
      let l2 = load_parsed parse_duration (prefix ++ codes ".timeout") set_timeout l1 in
      let l3 = and_then l2 (mongo_load_pool prefix) in
      and_then l3 (load_parsed parse_uint (prefix ++ codes ".max.connecting") set_max_connecting)

  unfoldable pub mongo_load_from_prefix :
      Text → Loading MongoComponent → Option (Loading MongoComponent)
  unfolding load_with_uri
  mongo_load_from_prefix prefix l =
      if is_empty prefix
      then none
      else load_with_uri prefix l (required_property (prefix ++ codes ".uri") l.property)

-- The settings that `ensureClient` hands to a new client, one after another.
abbrev pub with_preference : Option ReadPref → MongoClient → MongoClient
with_preference none c = c
with_preference (some rp) c = client_set_read_preference (some rp) c

abbrev pub with_timeout : ℤ → MongoClient → MongoClient
with_timeout t c = if ltb_ℤ (pos 0) t then client_set_timeout t c else c

abbrev pub with_pool_size : ℕ → ℕ → MongoClient → MongoClient
with_pool_size a b c = if ltb 0 a || ltb 0 b then client_set_pool_size a b c else c

abbrev pub with_max_connecting : ℕ → MongoClient → MongoClient
with_max_connecting n c = if ltb 0 n then client_set_max_connecting n c else c

abbrev pub with_settings :
    (Text → ClientOptions → ClientOptions) → MongoComponent → MongoClient → MongoClient
with_settings apply_uri m c = client_set_tls_config m.tls_config (
    with_max_connecting m.max_connecting (
      with_pool_size m.min_pool_size m.max_pool_size (
        with_timeout m.timeout
          (with_preference m.read_preference (client_set_uri apply_uri m.uri c)))))

-- `ensureClient`, with the client that the component then has.
unfoldable pub mongo_ensure_client :
    (Text → ClientOptions → ClientOptions) → MongoComponent → Option (MongoComponent × MongoClient)
mongo_ensure_client apply_uri m = elim m.client [
  | some c ↦ some (m, c)
  | none ↦
      if is_empty m.uri
      then none
      else let c = with_settings apply_uri m new_mongo_client in
        some (record m { client = some c }, c)
]

module _ {W : Type 0} (apply_uri : Text → ClientOptions → ClientOptions) (lib : MongoLib W) where
  abbrev pub put_client :
      MongoComponent → MongoClient × W × Option Text → MongoComponent × W × Option Text
  put_client m (c, w, e) = (record m { client = some c }, w, e)

  abbrev pub called :
      (MongoClient → W → MongoClient × W × Option Text)
      → W
      → Option (MongoComponent × MongoClient)
      → Option (MongoComponent × W × Option Text)
  called call w none = none
  called call w (some (m, c)) = some (put_client m (call c w))

  -- What a call of the client leaves, if `ensureClient` does not panic.
  abbrev pub through_client :
      (MongoClient → W → MongoClient × W × Option Text)
      → MongoComponent
      → W
      → Option (MongoComponent × W × Option Text)
  through_client call m w = called call w (mongo_ensure_client apply_uri m)

  -- `ForceStart` and `MustPing`, where an error is a panic.
  abbrev pub or_panic : Option (MongoComponent × W × Option Text) → Option (MongoComponent × W)
  or_panic none = none
  or_panic (some (m, w, none)) = some (m, w)
  or_panic (some (m, w, some e)) = none

  unfoldable pub force_start : MongoComponent → W → Option (MongoComponent × W)
  force_start m w = or_panic (through_client (client_initialize lib) m w)

  unfoldable pub mongo_ping : MongoComponent → W → Option (MongoComponent × W × Option Text)
  mongo_ping m w = through_client (client_ping lib) m w

  unfoldable pub mongo_must_ping : MongoComponent → W → Option (MongoComponent × W)
  mongo_must_ping m w = or_panic (mongo_ping m w)

  unfoldable pub mongo_close : MongoComponent → W → MongoComponent × W × Option Text
  mongo_close m w = elim m.client [
    | none ↦ (m, w, none)
    | some c ↦ let (c', w', e) = client_close lib c w in (record m { client = none }, w', e)
  ]
