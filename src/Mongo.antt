-- ===== src/Mongo.antt =====
-- `Client` of internal/mongo/client.go. The driver is a parameter over the world `W`: a connection
-- is a number, and `apply_uri` is what `ApplyURI` makes of the options.
pub mod Component
pub mod Agrees
use go_infra.Prelude.{ℕ, ◌*◌, ◌^◌, Bool, true, false, Option, none, some, if◌then◌else◌}
use go_infra.Prelude.Text.{Text, codes, is_empty}
use go_infra.Prelude.Int.{ℤ, pos, mul64}

pub data ReadPref : Type 0 where
  primary primary_preferred secondary secondary_preferred nearest : ReadPref

-- `options.ClientOptions`, as far as the client sets it. A TLS configuration is a number.
pub record ClientOptions : Type 0 where
  pub min_pool_size : ℕ
  pub max_pool_size : ℕ
  pub max_connecting : ℕ
  pub max_conn_idle_time : ℤ
  pub retry_reads : Bool
  pub retry_writes : Bool
  pub connect_timeout : ℤ
  pub timeout : ℤ
  pub socket_timeout : Option ℤ
  pub server_selection_timeout : Option ℤ
  pub read_preference : Option ReadPref
  pub tls_config : Option ℕ

-- `client` is the connection of the driver.
pub record MongoClient : Type 0 where
  pub uri : Text
  pub options : ClientOptions
  pub client : Option ℕ
  pub initialized : Bool

abbrev pub second : ℕ
second = 10 ^ 9

unfoldable pub new_mongo_client : MongoClient
new_mongo_client = record {
  uri = codes "";
  options = record {
    min_pool_size = 10;
    max_pool_size = 50;
    max_connecting = 50;
    max_conn_idle_time = pos (30 * 60 * second);
    retry_reads = true;
    retry_writes = true;
    connect_timeout = pos (5 * second);
    timeout = pos (120 * second);
    socket_timeout = none;
    server_selection_timeout = none;
    read_preference = none;
    tls_config = none;
  };
  client = none;
  initialized = false;
}

unfoldable pub client_set_uri :
    (Text → ClientOptions → ClientOptions) → Text → MongoClient → MongoClient
client_set_uri apply_uri uri c = record c { uri = uri; options = apply_uri uri c.options }

unfoldable pub client_set_read_preference : Option ReadPref → MongoClient → MongoClient
client_set_read_preference rp c = record c { options = record c.options { read_preference = rp } }

unfoldable pub client_set_timeout : ℤ → MongoClient → MongoClient
client_set_timeout timeout c = record c {
  options = record c.options {
    timeout = timeout;
    socket_timeout = some timeout;
    server_selection_timeout = some (mul64 (pos 3) timeout);
  };
}

unfoldable pub client_set_pool_size : ℕ → ℕ → MongoClient → MongoClient
client_set_pool_size min_size max_size c = record c {
  options = record c.options { min_pool_size = min_size; max_pool_size = max_size };
}

unfoldable pub client_set_max_connecting : ℕ → MongoClient → MongoClient
client_set_max_connecting n c = record c { options = record c.options { max_connecting = n } }

unfoldable pub client_set_tls_config : Option ℕ → MongoClient → MongoClient
client_set_tls_config none c = c
client_set_tls_config (some conf) c = record c {
  options = record c.options { tls_config = some conf };
}

pub data Connected : Type 0 where
  connected : ℕ → Connected
  connect_failed : Text → Connected

-- The driver: `Connect`, the ping of a connection, and `Disconnect`.
pub record MongoLib (W : Type 0) : Type 0 where
  pub connect : ClientOptions → W → W × Connected
  pub ping_connection : ℕ → W → W × Option Text
  pub disconnect : ℕ → W → W × Option Text

module _ {W : Type 0} (lib : MongoLib W) where
  keep_pinged : ℕ → MongoClient → W × Option Text → MongoClient × W × Option Text
  keep_pinged conn c (w, some e) = (c, (lib.disconnect conn w).0, some e)
  keep_pinged conn c (w, none) = (record c { client = some conn; initialized = true }, w, none)

  keep_connected : MongoClient → W × Connected → MongoClient × W × Option Text
  unfolding keep_pinged
  keep_connected c (w, connect_failed e) = (c, w, some e)
  keep_connected c (w, connected conn) = keep_pinged conn c (lib.ping_connection conn w)

  unfoldable pub client_initialize : MongoClient → W → MongoClient × W × Option Text
  unfolding keep_connected
  client_initialize c w =
      if c.initialized
      then (c, w, none)
      else if is_empty c.uri
      then (c, w, some (codes "mongo uri is required"))
      else keep_connected c (lib.connect c.options w)

  -- A client that is initialized has its connection.
  ping_initialized : MongoClient × W × Option Text → MongoClient × W × Option Text
  ping_initialized (c, w, some e) = (c, w, some e)
  ping_initialized (c, w, none) = elim c.client [
    | none ↦ (c, w, none)
    | some conn ↦ let (w', e) = lib.ping_connection conn w in (c, w', e)
  ]

  unfoldable pub client_ping : MongoClient → W → MongoClient × W × Option Text
  unfolding ping_initialized
  client_ping c w = ping_initialized (client_initialize c w)

  unfoldable pub client_close : MongoClient → W → MongoClient × W × Option Text
  client_close c w = elim c.client [
    | none ↦ (c, w, none)
    | some conn ↦
        let (w', e) = lib.disconnect conn w in
        (record c { client = none; initialized = false }, w', e)
  ]

-- `Raw`; `none` is a panic.
unfoldable pub client_raw : MongoClient → Option (Option ℕ)
client_raw c = if c.initialized then some c.client else none
