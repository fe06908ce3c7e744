-- ===== src/Mongo/Agrees/Calls.antt =====
-- The client of the component of app/module/mongo_component.go over any calls of the component.
use go_infra.Prelude.{
  ℕ, Option, none, some, List, [], ◌∷◌, ◌≡◌, arith, sym, subst, ◌⊎◌, Option-cases, Bool-cases, inl,
  inr,
}
use go_infra.Prelude.Text.{Text, is_empty}
use go_infra.Prelude.Int.{ℤ}
use go_infra.Config.Loading.{Loading}
use go_infra.Mongo.{
  ReadPref, ClientOptions, MongoClient, new_mongo_client, MongoLib, keep_pinged, keep_connected,
  client_initialize, ping_initialized, client_ping,
}
use go_infra.Mongo.Component.{
  MongoComponent, set_read_preference, set_timeout, mongo_set_pool_size, set_max_connecting,
  set_tls_config, set_slow_operation_threshold, set_uri, mongo_load_from_prefix, with_settings,
  mongo_ensure_client, through_client, called, or_panic, force_start, mongo_ping, mongo_close,
}
use go_infra.Mongo.Agrees.{
  IsSetIn, Agrees, prefers-Agrees, times_out-Agrees, pools-Agrees, connects-Agrees, secures-Agrees,
  with_settings-IsSetIn,
}
use go_infra.Mongo.Agrees.Loads.{
  OnSome, AgreesLoaded, uri-Agrees, slows-Agrees, load_from_prefix-Agrees,
}

-- A call of the component. The first seven are its setters, and `loads` is `LoadFromPrefix`.
pub data Call : Type 0 where
  addresses : Text → Call
  prefers : Option ReadPref → Call
  times_out : ℤ → Call
  pools : ℕ → ℕ → Call
  connects : ℕ → Call
  secures : Option ℕ → Call
  slows : ℤ → Call
  loads : Text → Call
  starts pings closes : Call

-- The client of a component is not one of its settings.
IsSetIn-client :
    {m : MongoComponent} {o : ClientOptions} (cl : Option MongoClient)
    → IsSetIn m o
    → IsSetIn (record m { client = cl }) o
IsSetIn-client cl a = record {
  preference = a.preference;
  timeout = a.timeout;
  pool = a.pool;
  connecting = a.connecting;
  tls = a.tls;
}

module _ {W : Type 0} (apply_uri : Text → ClientOptions → ClientOptions) (lib : MongoLib W) where
  client_initialize-options :
      (c : MongoClient) (w : W) → (client_initialize lib c w).0.options ≡ c.options
  unfolding client_initialize keep_connected keep_pinged
  client_initialize-options c w = ground arith

  client_ping-options : (c : MongoClient) (w : W) → (client_ping lib c w).0.options ≡ c.options
  unfolding client_ping ping_initialized
  client_ping-options c w = ground (arith, client_initialize-options c w)

  ensure_there :
      (m : MongoComponent) (c : MongoClient)
      → m.client ≡ some c
      → mongo_ensure_client apply_uri m ≡ some (m, c)
  unfolding mongo_ensure_client
  ensure_there m c e = ground arith

  ensure_new :
      (m : MongoComponent)
      → m.client ≡ none
      → (mongo_ensure_client apply_uri m ≡ none)
        ⊎ (let c = with_settings apply_uri m new_mongo_client in
            mongo_ensure_client apply_uri m ≡ some (record m { client = some c }, c))
  unfolding mongo_ensure_client
  ensure_new m e = elim (Bool-cases (is_empty m.uri)) [
    | inl u ↦ inl (ground arith)
    | inr u ↦ inr (ground arith)
  ]

  abbrev GivesSet : Option (MongoComponent × MongoClient) → Type 0
  GivesSet o = OnSome (λ (p : MongoComponent × MongoClient). IsSetIn p.0 p.1.options) o

  ensure_client-GivesSet :
      (m : MongoComponent) → Agrees m m.client → GivesSet (mongo_ensure_client apply_uri m)
  ensure_client-GivesSet m a = elim (Option-cases m.client) [
    | inr (c, e) ↦
        let set : IsSetIn m c.options = subst (Agrees m) e a in
        subst GivesSet (sym (ensure_there m c e)) set
    | inl e ↦ elim (ensure_new m e) [
      | inl u ↦ subst GivesSet (sym u) tt
      | inr u ↦ subst GivesSet (sym u) (IsSetIn-client _ (with_settings-IsSetIn apply_uri m))
    ]
  ]

  abbrev AgreesBeside : Option (MongoComponent × W × Option Text) → Type 0
  AgreesBeside o = OnSome (λ (p : MongoComponent × W × Option Text). Agrees p.0 p.0.client) o

  abbrev AgreesAfter : Option (MongoComponent × W) → Type 0
  AgreesAfter o = OnSome (λ (p : MongoComponent × W). Agrees p.0 p.0.client) o

  -- A call that leaves the options of the client alone.
  called-Agrees :
      (call : MongoClient → W → MongoClient × W × Option Text) (w : W)
      (o : Option (MongoComponent × MongoClient))
      → ((c : MongoClient) → (call c w).0.options ≡ c.options)
      → GivesSet o
      → AgreesBeside (called apply_uri lib call w o)
  called-Agrees call w none keeps a = tt
  called-Agrees call w (some (m, c)) keeps a =
      IsSetIn-client _ (subst (IsSetIn m) (sym (keeps c)) a)

  or_panic-Agrees :
      (o : Option (MongoComponent × W × Option Text))
      → AgreesBeside o
      → AgreesAfter (or_panic apply_uri lib o)
  or_panic-Agrees none a = tt
  or_panic-Agrees (some (m, w, none)) a = a
  or_panic-Agrees (some (m, w, some e)) a = tt

  abbrev without_error : Option (MongoComponent × W × Option Text) → Option (MongoComponent × W)
  without_error none = none
  without_error (some (m, w, e)) = some (m, w)

  without_error-Agrees :
      (o : Option (MongoComponent × W × Option Text))
      → AgreesBeside o
      → AgreesAfter (without_error o)
  without_error-Agrees none a = tt
  without_error-Agrees (some (m, w, e)) a = a

  abbrev without_client : W → Option (MongoComponent × MongoClient) → Option (MongoComponent × W)
  without_client w none = none
  without_client w (some (m, c)) = some (m, w)

  mongo_close-none : (m : MongoComponent) (w : W) → (mongo_close apply_uri lib m w).0.client ≡ none
  unfolding mongo_close
  mongo_close-none m w = ground arith

-- The component beside what its configuration works on.
abbrev beside :
    {W : Type 0}
    → Loading MongoComponent
    → Option (MongoComponent × W)
    → Option (Loading MongoComponent × W)
beside l none = none
beside l (some (m, w)) = some (record l { component = m }, w)

abbrev with_world :
    {W : Type 0} → W → Option (Loading MongoComponent) → Option (Loading MongoComponent × W)
with_world w none = none
with_world w (some l) = some (l, w)

module _ {W : Type 0} (apply_uri : Text → ClientOptions → ClientOptions) (lib : MongoLib W)
    (parse_url : Text → Option Text) (parse_duration : Text → Option ℤ) where
  abbrev change :
      (MongoComponent → MongoComponent)
      → Loading MongoComponent
      → W
      → Option (Loading MongoComponent × W)
  change f l w = some (record l { component = f l.component }, w)

  -- A call; `none` is a panic.
  abbrev pub run_call : Call → Loading MongoComponent → W → Option (Loading MongoComponent × W)
  run_call (addresses uri) l w = some (set_uri parse_url uri l, w)
  run_call (prefers rp) l w = change (set_read_preference rp) l w
  run_call (times_out t) l w = change (set_timeout t) l w
  run_call (pools a b) l w = change (mongo_set_pool_size a b) l w
  run_call (connects n) l w = change (set_max_connecting n) l w
  run_call (secures conf) l w = change (set_tls_config conf) l w
  run_call (slows t) l w = change (set_slow_operation_threshold t) l w
  run_call (loads prefix) l w =
      with_world w (mongo_load_from_prefix parse_url parse_duration prefix l)
  run_call starts l w = beside l (force_start apply_uri lib l.component w)
  run_call pings l w =
      beside l (without_error apply_uri lib (mongo_ping apply_uri lib l.component w))
  run_call closes l w =
      let (m', w', e) = mongo_close apply_uri lib l.component w in
      some (record l { component = m' }, w')

  abbrev pub AgreesIn : Option (Loading MongoComponent × W) → Type 0
  AgreesIn o =
      OnSome (λ (p : Loading MongoComponent × W). Agrees p.0.component p.0.component.client) o

  beside-AgreesIn :
      (l : Loading MongoComponent) (o : Option (MongoComponent × W))
      → AgreesAfter apply_uri lib o
      → AgreesIn (beside l o)
  beside-AgreesIn l none a = tt
  beside-AgreesIn l (some (m, w)) a = a

  with_world-AgreesIn :
      (w : W) (o : Option (Loading MongoComponent)) → AgreesLoaded o → AgreesIn (with_world w o)
  with_world-AgreesIn w none a = tt
  with_world-AgreesIn w (some l) a = a

  run_call-Agrees :
      (k : Call) (l : Loading MongoComponent) (w : W)
      → Agrees l.component l.component.client
      → AgreesIn (run_call k l w)
  unfolding set_read_preference set_timeout mongo_set_pool_size set_max_connecting set_tls_config
      set_slow_operation_threshold force_start mongo_ping set_uri
  run_call-Agrees (addresses uri) l w a = uri-Agrees uri l.component l.component.client a
  run_call-Agrees (prefers rp) l w a = prefers-Agrees rp l.component l.component.client a
  run_call-Agrees (times_out t) l w a = times_out-Agrees t l.component l.component.client a
  run_call-Agrees (pools x y) l w a = pools-Agrees x y l.component l.component.client a
  run_call-Agrees (connects n) l w a = connects-Agrees n l.component l.component.client a
  run_call-Agrees (secures conf) l w a = secures-Agrees conf l.component l.component.client a
  run_call-Agrees (slows t) l w a = slows-Agrees t l.component l.component.client a
  run_call-Agrees (loads prefix) l w a =
      with_world-AgreesIn w _ (load_from_prefix-Agrees parse_url parse_duration prefix l a)
  run_call-Agrees starts l w a =
      let m = l.component in
      beside-AgreesIn l _ (
        or_panic-Agrees apply_uri lib (through_client apply_uri lib (client_initialize lib) m w) (
          called-Agrees apply_uri lib (client_initialize lib) w (mongo_ensure_client apply_uri m)
            (λ c. client_initialize-options apply_uri lib c w)
            (ensure_client-GivesSet apply_uri lib m a)))
  run_call-Agrees pings l w a =
      let m = l.component in
      beside-AgreesIn l _ (
        without_error-Agrees apply_uri lib (through_client apply_uri lib (client_ping lib) m w) (
          called-Agrees apply_uri lib (client_ping lib) w (mongo_ensure_client apply_uri m)
            (λ c. client_ping-options apply_uri lib c w)
            (ensure_client-GivesSet apply_uri lib m a)))
  run_call-Agrees closes l w a =
      subst (Agrees (mongo_close apply_uri lib l.component w).0)
        (sym (mongo_close-none apply_uri lib l.component w)) tt

  abbrev pub run_calls :
      List Call → Loading MongoComponent → W → Option (Loading MongoComponent × W)
  run_calls [] l w = some (l, w)
  run_calls (k ∷ ks) l w = elim (run_call k l w) [
    | none ↦ none
    | some (l', w') ↦ run_calls ks l' w'
  ]

  run_calls-Agrees :
      (ks : List Call) (l : Loading MongoComponent) (w : W)
      → Agrees l.component l.component.client
      → AgreesIn (run_calls ks l w)
  run_calls-Agrees [] l w a = a
  run_calls-Agrees (k ∷ ks) l w a = elim (Option-cases (run_call k l w)) [
    | inl e ↦ rw (e, run_calls) tt
    | inr ((l', w'), e) ↦
        let kept : Agrees l'.component l'.component.client =
          subst AgreesIn e (run_call-Agrees k l w a) in
        rw (e, run_calls) (run_calls-Agrees ks l' w' kept)
  ]

  -- Over any calls of its setters, of LoadFromPrefix, ForceStart, Ping and Close of a component that
  -- has no client yet, whether a setter came before its client was made or after: the client has the
  -- read preference that the component has, its time-out above zero, its sizes of the pool unless
  -- both are zero, its number of connecting ones above zero, and its TLS configuration. (The URI and
  -- the threshold of slow operations are not among them: SetURI does not reach a client that is
  -- there.)
  pub run_calls-IsSetIn :
      (ks : List Call) (l l' : Loading MongoComponent) (w w' : W) (c : MongoClient)
      → l.component.client ≡ none
      → run_calls ks l w ≡ some (l', w')
      → l'.component.client ≡ some c
      → IsSetIn l'.component c.options
  run_calls-IsSetIn ks l l' w w' c none_there e there =
      let start : Agrees l.component l.component.client =
        subst (Agrees l.component) (sym none_there) tt in
      subst (Agrees l'.component) there (subst AgreesIn e (run_calls-Agrees ks l w start))
