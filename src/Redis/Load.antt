-- ===== src/Redis/Load.antt =====
-- What `LoadFromPrefix` of redis/component.go leaves.
use go_infra.Prelude.{false, some, [], ◌∷◌, ◌++◌, ◌≡◌, refl, ap, ◌∙◌, and_then}
use go_infra.Prelude.Text.{Text, codes, is_empty}
use go_infra.Prelude.Int.{ℤ}
use go_infra.Config.Strconv.{atoi}
use go_infra.Config.Property.{property, required_property, get}
use go_infra.Config.Property.Usage.{required_lem}
use go_infra.Config.Loading.{Loading, setting, load_parsed_lem}
use go_infra.Redis.{
  RedisComponent, set_addr, set_db, set_password, load_password, load_addr, load_from_prefix,
}

named_lem :
    (prefix : Text) (l : Loading RedisComponent)
    → is_empty prefix ≡ false
    → load_from_prefix prefix l
      ≡ load_addr prefix l (required_property (prefix ++ codes ".addr") l.property)
unfolding load_from_prefix
named_lem prefix l e = rw e refl

-- Under a prefix, with an address, and a number for the database or none, LoadFromPrefix takes the
-- address, the number and the password from their properties, the old number where there is none,
-- and the address joins the hosts of the probe.
pub redis_load-settings :
    (prefix : Text) (l : Loading RedisComponent) (n : ℤ)
    → is_empty prefix ≡ false
    → is_empty (get (prefix ++ codes ".addr") l.property.store) ≡ false
    → setting atoi l.component.db (get (prefix ++ codes ".db") l.property.store) ≡ some n
    → (l' : Loading RedisComponent) × (load_from_prefix prefix l ≡ some l')
      × (l'.component ≡ record l.component {
        addr = get (prefix ++ codes ".addr") l.property.store;
        db = n;
        password = get (prefix ++ codes ".password") l.property.store;
      })
      × (l'.host_uris ≡ l.host_uris ++ get (prefix ++ codes ".addr") l.property.store ∷ [])
unfolding load_addr set_addr property
redis_load-settings prefix l n named addr db =
    let l1 =
      set_addr (get (prefix ++ codes ".addr") l.property.store)
        (record l { property = (property (prefix ++ codes ".addr") l.property).0 }) in
    let l2 = record l1 {
      property = (property (prefix ++ codes ".db") l1.property).0;
      component = set_db n l1.component;
    } in
    let l3 = record l2 {
      property = (property (prefix ++ codes ".password") l2.property).0;
      component = set_password (get (prefix ++ codes ".password") l.property.store) l2.component;
    } in
    (
      l3,
      named_lem prefix l named
          ∙ ap (load_addr prefix l) (required_lem (prefix ++ codes ".addr") l.property addr)
          ∙ ap (λ o. and_then o (load_password prefix))
              (load_parsed_lem atoi (prefix ++ codes ".db") set_db l1 l.component.db n refl db),
      refl,
      refl,
    )
