-- ===== src/Sql/Load.antt =====
-- What `LoadFromPrefix` of db/component.go and of postgres/component.go leaves.
use mathlib.Core.Option.{some_inj}
use go_infra.Prelude.{
  Bool, false, ◌&&◌, Option, some, ◌++◌, ◌≡◌, refl, ap, ◌∙◌, if◌then◌else◌, and_then, Bool-cases,
  inl, inr,
}
use go_infra.Prelude.Text.{Text, codes, is_empty}
use go_infra.Prelude.Int.{ℤ}
use go_infra.Config.Strconv.{atoi}
use go_infra.Config.Property.{property, required_property, get}
use go_infra.Config.Property.Usage.{required_lem}
use go_infra.Config.Loading.{Loading, setting, load_parsed_lem}
use go_infra.Sql.{
  SqlComponent, set_pool_size, set_conn_max_idle_time, set_conn_max_lifetime, default_string,
  host_from_dsn, host_uris_of, set_dsn, set_pool, load_pool, load_idle_time, load_lifetime,
  load_dsn, db_load_from_prefix, postgres_load_from_prefix,
}

abbrev pub text_at : Text → Text → Loading SqlComponent → Text
text_at prefix suffix l = get (prefix ++ suffix) l.property.store

-- Neither size of the pool is there.
abbrev pub is_unset : Text → Loading SqlComponent → Bool
is_unset prefix l =
    is_empty (text_at prefix (codes ".pool.maxIdleConns") l)
    && is_empty (text_at prefix (codes ".pool.maxOpenConns") l)

-- A size of the pool: the old one where neither is there, and zero where only this one is not.
abbrev pub pool_setting : Bool → ℤ → Text → Option ℤ
pool_setting unset old value = if unset then some old else atoi (default_string value (codes "0"))

load_pool_lem :
    (prefix : Text) (l : Loading SqlComponent) (a b : ℤ)
    → pool_setting
        (is_unset prefix l)
        l.component.max_idle_conns
        (text_at prefix (codes ".pool.maxIdleConns") l)
      ≡ some a
    → pool_setting
        (is_unset prefix l)
        l.component.max_open_conns
        (text_at prefix (codes ".pool.maxOpenConns") l)
      ≡ some b
    → load_pool prefix l
      ≡ some (record l {
        property =
            (property
              (prefix ++ codes ".pool.maxOpenConns")
              (property (prefix ++ codes ".pool.maxIdleConns") l.property).0).0;
        component = set_pool_size a b l.component;
      })
unfolding load_pool set_pool property
load_pool_lem prefix l a b ea eb = elim (Bool-cases (is_unset prefix l)) [
  | inl x ↦
      let idle : l.component.max_idle_conns ≡ a = some_inj.0 (rw x at ea) in
      let open_ : l.component.max_open_conns ≡ b = some_inj.0 (rw x at eb) in
      rw (x, load_pool) (rw (← idle, ← open_) refl)
  | inr x ↦
      let idle : atoi (default_string (text_at prefix (codes ".pool.maxIdleConns") l) (codes "0"))
          ≡ some a =
        rw x at ea in
      let open_ : atoi (default_string (text_at prefix (codes ".pool.maxOpenConns") l) (codes "0"))
          ≡ some b =
        rw x at eb in
      rw (x, load_pool, idle, set_pool, open_) refl
]

named_lem :
    (parse_url : Text → Option Text) (parse_duration : Text → Option ℤ) (prefix : Text)
    (l : Loading SqlComponent)
    → is_empty prefix ≡ false
    → db_load_from_prefix parse_url parse_duration prefix l
      ≡ load_dsn parse_url parse_duration prefix l
          (required_property (prefix ++ codes ".dsn") l.property)
unfolding db_load_from_prefix
named_lem parse_url parse_duration prefix l e = rw e refl

-- Under a prefix, with a DSN, and every other property empty or well formed, LoadFromPrefix of
-- postgres/ takes each setting from its property: the sizes of the pool both, zero for the one
-- that is not there, or neither; and the old values for the times that are empty. The host of the
-- DSN, if it has one, joins those of the probe.
pub postgres_load-settings :
    (parse_url : Text → Option Text) (parse_duration : Text → Option ℤ) (prefix : Text)
    (l : Loading SqlComponent) (a b d e : ℤ)
    → is_empty prefix ≡ false
    → is_empty (text_at prefix (codes ".dsn") l) ≡ false
    → pool_setting
        (is_unset prefix l)
        l.component.max_idle_conns
        (text_at prefix (codes ".pool.maxIdleConns") l)
      ≡ some a
    → pool_setting
        (is_unset prefix l)
        l.component.max_open_conns
        (text_at prefix (codes ".pool.maxOpenConns") l)
      ≡ some b
    → setting parse_duration l.component.conn_max_idle_time
        (text_at prefix (codes ".connMaxIdleTime") l)
      ≡ some d
    → setting parse_duration l.component.conn_max_lifetime
        (text_at prefix (codes ".connMaxLifetime") l)
      ≡ some e
    → (l' : Loading SqlComponent) × (postgres_load_from_prefix parse_url parse_duration prefix l
        ≡ some l')
      × (l'.component ≡ record l.component {
        dsn = text_at prefix (codes ".dsn") l;
        max_idle_conns = a;
        max_open_conns = b;
        conn_max_idle_time = d;
        conn_max_lifetime = e;
      })
      × (l'.host_uris
          ≡ l.host_uris ++ host_uris_of (host_from_dsn parse_url (text_at prefix (codes ".dsn") l)))
unfolding postgres_load_from_prefix load_dsn set_dsn property
postgres_load-settings parse_url parse_duration prefix l a b d e named dsn pa pb pd pe =
    let l1 =
      set_dsn parse_url (text_at prefix (codes ".dsn") l)
        (record l { property = (property (prefix ++ codes ".dsn") l.property).0 }) in
    let l2 = record l1 {
      property =
          (property (prefix ++ codes ".pool.maxOpenConns")
            (property (prefix ++ codes ".pool.maxIdleConns") l1.property).0).0;
      component = set_pool_size a b l1.component;
    } in
    let l3 = record l2 {
      property = (property (prefix ++ codes ".connMaxIdleTime") l2.property).0;
      component = set_conn_max_idle_time d l2.component;
    } in
    let l4 = record l3 {
      property = (property (prefix ++ codes ".connMaxLifetime") l3.property).0;
      component = set_conn_max_lifetime e l3.component;
    } in
    let read2 =
      load_parsed_lem parse_duration (prefix ++ codes ".connMaxIdleTime") set_conn_max_idle_time l2
        l.component.conn_max_idle_time d refl pd in
    let read3 =
      load_parsed_lem parse_duration (prefix ++ codes ".connMaxLifetime") set_conn_max_lifetime l3
        l.component.conn_max_lifetime e refl pe in
    (
      l4,
      ap (λ o. and_then o (load_lifetime parse_url parse_duration prefix))
            (named_lem parse_url parse_duration prefix l named
              ∙ ap (load_dsn parse_url parse_duration prefix l)
                  (required_lem (prefix ++ codes ".dsn") l.property dsn)
              ∙ ap (λ o. and_then o (load_idle_time parse_url parse_duration prefix))
                  (load_pool_lem prefix l1 a b pa pb)
              ∙ read2)
          ∙ read3,
      refl,
      refl,
    )
