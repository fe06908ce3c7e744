-- ===== src/Mongo/Agrees.antt =====
-- The settings of the component of app/module/mongo_component.go and those of its client.
pub mod Loads
pub mod Calls
use go_infra.Prelude.{
  ℕ, Bool, true, false, ltb, ◌||◌, Option, none, some, List, [], ◌∷◌, ◌≡◌, refl, arith, sym, subst,
  ◌⊎◌, if◌then◌else◌, Option-cases, Bool-cases, inl, inr,
}
use go_infra.Prelude.Text.{Text, is_empty}
use go_infra.Prelude.Int.{ℤ, pos, ltb_ℤ}
use go_infra.Mongo.{
  ReadPref, ClientOptions, MongoClient, new_mongo_client, client_set_uri,
  client_set_read_preference, client_set_timeout, client_set_pool_size, client_set_max_connecting,
  client_set_tls_config, Connected, connected, connect_failed, MongoLib, keep_pinged,
  keep_connected, client_initialize, ping_initialized, client_ping, client_close,
}
use go_infra.Mongo.Component.{
  MongoComponent, on_client, set_read_preference, set_timeout, mongo_set_pool_size,
  set_max_connecting, set_tls_config, with_settings, with_timeout, with_pool_size,
  with_max_connecting, with_preference, mongo_ensure_client, through_client, called, or_panic,
  force_start, mongo_ping, mongo_close,
}

-- What the component has set is what the options of its client have.
pub record IsSetIn (m : MongoComponent) (o : ClientOptions) : Type 0 where
  pub preference : (rp : ReadPref) → m.read_preference ≡ some rp → o.read_preference ≡ some rp
  pub timeout : ltb_ℤ (pos 0) m.timeout ≡ true → o.timeout ≡ m.timeout
  pub pool :
      ltb 0 m.min_pool_size || ltb 0 m.max_pool_size ≡ true
      → (o.min_pool_size ≡ m.min_pool_size) × (o.max_pool_size ≡ m.max_pool_size)
  pub connecting : ltb 0 m.max_connecting ≡ true → o.max_connecting ≡ m.max_connecting
  pub tls : (conf : ℕ) → m.tls_config ≡ some conf → o.tls_config ≡ some conf

abbrev pub Agrees : MongoComponent → Option MongoClient → Type 0
Agrees m none = Unit {0}
Agrees m (some c) = IsSetIn m c.options

pub prefers-Agrees :
    (rp : Option ReadPref) (m : MongoComponent) (cl : Option MongoClient)
    → Agrees m cl
    → Agrees (set_read_preference rp m) (on_client (client_set_read_preference rp) cl)
unfolding set_read_preference client_set_read_preference
prefers-Agrees rp m none a = tt
prefers-Agrees rp m (some c) a = record {
  preference = λ x e. e;
  timeout = a.timeout;
  pool = a.pool;
  connecting = a.connecting;
  tls = a.tls;
}

pub times_out-Agrees :
    (t : ℤ) (m : MongoComponent) (cl : Option MongoClient)
    → Agrees m cl
    → Agrees (set_timeout t m) (on_client (client_set_timeout t) cl)
unfolding set_timeout client_set_timeout
times_out-Agrees t m none a = tt
times_out-Agrees t m (some c) a = record {
  preference = a.preference;
  timeout = λ e. refl;
  pool = a.pool;
  connecting = a.connecting;
  tls = a.tls;
}

pub pools-Agrees :
    (x y : ℕ) (m : MongoComponent) (cl : Option MongoClient)
    → Agrees m cl
    → Agrees (mongo_set_pool_size x y m) (on_client (client_set_pool_size x y) cl)
unfolding mongo_set_pool_size client_set_pool_size
pools-Agrees x y m none a = tt
pools-Agrees x y m (some c) a = record {
  preference = a.preference;
  timeout = a.timeout;
  pool = λ e. (refl, refl);
  connecting = a.connecting;
  tls = a.tls;
}

pub connects-Agrees :
    (n : ℕ) (m : MongoComponent) (cl : Option MongoClient)
    → Agrees m cl
    → Agrees (set_max_connecting n m) (on_client (client_set_max_connecting n) cl)
unfolding set_max_connecting client_set_max_connecting
connects-Agrees n m none a = tt
connects-Agrees n m (some c) a = record {
  preference = a.preference;
  timeout = a.timeout;
  pool = a.pool;
  connecting = λ e. refl;
  tls = a.tls;
}

pub secures-Agrees :
    (conf : Option ℕ) (m : MongoComponent) (cl : Option MongoClient)
    → Agrees m cl
    → Agrees (set_tls_config conf m) (on_client (client_set_tls_config conf) cl)
unfolding set_tls_config client_set_tls_config
secures-Agrees conf m none a = tt
secures-Agrees none m (some c) a = record {
  preference = a.preference;
  timeout = a.timeout;
  pool = a.pool;
  connecting = a.connecting;
  tls = λ k e. cc;
}
secures-Agrees (some x) m (some c) a = record {
  preference = a.preference;
  timeout = a.timeout;
  pool = a.pool;
  connecting = a.connecting;
  tls = λ k e. e;
}

pub with_settings-IsSetIn :
    (apply_uri : Text → ClientOptions → ClientOptions) (m : MongoComponent)
    → IsSetIn m (with_settings apply_uri m new_mongo_client).options
unfolding client_set_uri client_set_read_preference client_set_timeout client_set_pool_size
    client_set_max_connecting client_set_tls_config
with_settings-IsSetIn apply_uri m = record {
  preference = λ rp e. ground arith;
  timeout = λ e. ground arith;
  pool = λ e. ground arith;
  connecting = λ e. ground arith;
  tls = λ k e. ground arith;
}
