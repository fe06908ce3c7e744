-- ===== src/Mongo/Agrees/Loads.antt =====
-- What `SetURI`, `SlowOperationThreshold` and `LoadFromPrefix` of app/module/mongo_component.go leave
-- of the settings of a client.
use go_infra.Prelude.{
  ℕ, Option, none, some, ◌++◌, Bool-cases, Option-cases, inl, inr, and_then, ◌&&◌,
}
use go_infra.Prelude.Text.{Text, codes, is_empty}
use go_infra.Prelude.Int.{ℤ}
use go_infra.Config.Strconv.{parse_uint}
use go_infra.Config.Property.{PropertyRuntime, property, required_property}
use go_infra.Config.Loading.{Loading, load_parsed}
use go_infra.Mongo.{ReadPref, MongoClient}
use go_infra.Mongo.Component.{
  MongoComponent, set_timeout, mongo_set_pool_size, set_max_connecting,
  set_slow_operation_threshold, set_uri, named_preference, prefer, load_preference, or_zero,
  mongo_set_pool, mongo_load_pool, load_with_uri, mongo_load_from_prefix, set_read_preference,
}
use go_infra.Mongo.Agrees.{Agrees, prefers-Agrees, times_out-Agrees, pools-Agrees, connects-Agrees}

-- A predicate of a result that is not a panic.
abbrev pub OnSome : {A : Type 0} → (A → Type 0) → Option A → Type 0
OnSome P none = Unit {0}
OnSome P (some x) = P x

pub uri-Agrees :
    (uri : Text) (m : MongoComponent) (cl : Option MongoClient)
    → Agrees m cl
    → Agrees (record m { uri = uri }) cl
uri-Agrees uri m none a = tt
uri-Agrees uri m (some c) a = record {
  preference = a.preference;
  timeout = a.timeout;
  pool = a.pool;
  connecting = a.connecting;
  tls = a.tls;
}

pub slows-Agrees :
    (t : ℤ) (m : MongoComponent) (cl : Option MongoClient)
    → Agrees m cl
    → Agrees (set_slow_operation_threshold t m) cl
unfolding set_slow_operation_threshold
slows-Agrees t m none a = tt
slows-Agrees t m (some c) a = record {
  preference = a.preference;
  timeout = a.timeout;
  pool = a.pool;
  connecting = a.connecting;
  tls = a.tls;
}

abbrev IsAgreed : Loading MongoComponent → Type 0
IsAgreed l = Agrees l.component l.component.client

abbrev pub AgreesLoaded : Option (Loading MongoComponent) → Type 0
AgreesLoaded o = OnSome IsAgreed o

and_then-Agrees :
    (o : Option (Loading MongoComponent))
    (f : Loading MongoComponent → Option (Loading MongoComponent))
    → AgreesLoaded o
    → ((l : Loading MongoComponent) → IsAgreed l → AgreesLoaded (f l))
    → AgreesLoaded (and_then o f)
and_then-Agrees none f a keeps = tt
and_then-Agrees (some l) f a keeps = keeps l a

load_preference-Agrees :
    (prefix : Text) (l : Loading MongoComponent) → IsAgreed l → IsAgreed (load_preference prefix l)
unfolding load_preference prefer set_read_preference
load_preference-Agrees prefix l a =
    go (named_preference (property (prefix ++ codes ".read.preference") l.property).1)
  where
    go : (rp : Option ReadPref) → Agrees (prefer rp l.component) (prefer rp l.component).client
    go none = a
    go (some rp) = prefers-Agrees (some rp) l.component l.component.client a

-- A setter that keeps the client as the component has it, in a load of a property.
load_parsed-Agrees :
    {A : Type 0} (parse : Text → Option A) (key : Text)
    (setter : A → MongoComponent → MongoComponent) (l : Loading MongoComponent)
    → ((a : A) → Agrees (setter a l.component) (setter a l.component).client)
    → IsAgreed l
    → AgreesLoaded (load_parsed parse key setter l)
load_parsed-Agrees parse key setter l keeps a =
    let value = (property key l.property).1 in
    elim (Bool-cases (is_empty value)) [
      | inl e ↦ rw e a
      | inr e ↦ elim (Option-cases (parse value)) [
        | inl p ↦ rw (e, p) tt
        | inr (x, p) ↦ rw (e, p) (keeps x)
      ]
    ]

set_pool-Agrees :
    (x y : Option ℕ) (l : Loading MongoComponent) → IsAgreed l → AgreesLoaded (mongo_set_pool x y l)
unfolding mongo_set_pool mongo_set_pool_size
set_pool-Agrees none y l a = tt
set_pool-Agrees (some x) none l a = tt
set_pool-Agrees (some x) (some y) l a = pools-Agrees x y l.component l.component.client a

load_pool-Agrees :
    (prefix : Text) (l : Loading MongoComponent)
    → IsAgreed l
    → AgreesLoaded (mongo_load_pool prefix l)
unfolding mongo_load_pool
load_pool-Agrees prefix l a =
    let (p1, x) = property (prefix ++ codes ".pool.min") l.property in
    let (p2, y) = property (prefix ++ codes ".pool.max") p1 in
    elim (Bool-cases (is_empty x && is_empty y)) [
      | inl e ↦ rw (e, mongo_load_pool) a
      | inr e ↦
          rw (e, mongo_load_pool)
            (set_pool-Agrees (parse_uint (or_zero x)) (parse_uint (or_zero y))
              (record l { property = p2 }) a)
    ]

module _ (parse_url : Text → Option Text) (parse_duration : Text → Option ℤ) where
  timeout-Agrees :
      (t : ℤ) (l : Loading MongoComponent)
      → IsAgreed l
      → Agrees (set_timeout t l.component) (set_timeout t l.component).client
  unfolding set_timeout
  timeout-Agrees t l a = times_out-Agrees t l.component l.component.client a

  connecting-Agrees :
      (n : ℕ) (l : Loading MongoComponent)
      → IsAgreed l
      → Agrees (set_max_connecting n l.component) (set_max_connecting n l.component).client
  unfolding set_max_connecting
  connecting-Agrees n l a = connects-Agrees n l.component l.component.client a

  load_with_uri-Agrees :
      (prefix : Text) (l : Loading MongoComponent) (r : PropertyRuntime × Option Text)
      → IsAgreed l
      → AgreesLoaded (load_with_uri parse_url parse_duration prefix l r)
  unfolding load_with_uri set_uri
  load_with_uri-Agrees prefix l (p, none) a = tt
  load_with_uri-Agrees prefix l (p, some uri) a =
      let l0 = set_uri parse_url uri (record l { property = p }) in
      let l1 = load_preference prefix l0 in
      let a1 : IsAgreed l1 =
        load_preference-Agrees prefix l0 (uri-Agrees uri l.component l.component.client a) in
      and_then-Agrees _
        (load_parsed parse_uint (prefix ++ codes ".max.connecting") set_max_connecting)
        (and_then-Agrees _ (mongo_load_pool prefix)
          (load_parsed-Agrees parse_duration (prefix ++ codes ".timeout") set_timeout l1
            (λ t. timeout-Agrees t l1 a1) a1)
          (load_pool-Agrees prefix))
        (λ l2 a2.
          load_parsed-Agrees parse_uint (prefix ++ codes ".max.connecting") set_max_connecting l2
            (λ n. connecting-Agrees n l2 a2) a2)

  pub load_from_prefix-Agrees :
      (prefix : Text) (l : Loading MongoComponent)
      → IsAgreed l
      → AgreesLoaded (mongo_load_from_prefix parse_url parse_duration prefix l)
  unfolding mongo_load_from_prefix
  load_from_prefix-Agrees prefix l a = elim (Bool-cases (is_empty prefix)) [
    | inl e ↦ rw (e, mongo_load_from_prefix) tt
    | inr e ↦
        rw (e, mongo_load_from_prefix)
          (load_with_uri-Agrees prefix l (required_property (prefix ++ codes ".uri") l.property) a)
  ]
