-- ===== src/Kafka/Load.antt =====
-- What `LoadFromPrefix` of kafka/component.go leaves.
use go_infra.Prelude.{
  if◌then◌else◌, true, false, some, List, [], ◌∷◌, ◌++◌, ◌≡◌, refl, ap, ◌∙◌, arith,
}
use go_infra.Prelude.Text.{Text, text_eq, is_empty}
use go_infra.Prelude.Int.{ℤ, pos, leb_ℤ, ltb_ℤ}
use go_infra.Config.Strconv.{atoi}
use go_infra.Config.Property.{
  PropertyUsageValidator, property, required_property, add, used, contains, get, store_keys,
  validate,
}
use go_infra.Config.Property.Usage.{validate-unread, required_lem}
use go_infra.Config.Loading.{Loading}
use go_infra.Kafka.{
  KafkaComponent, kept_brokers, set_queue_capacity, load_capacity, after_pool, key_brokers,
  key_group, key_pool, key_capacity, set_brokers, set_group_id, set_pool_size, split, load_pool,
  after_brokers, load_brokers, load_from_prefix,
}

text_eq-append : (p a b : Text) → text_eq (p ++ a) (p ++ b) ≡ text_eq a b
unfolding text_eq
text_eq-append [] a b = refl
text_eq-append (x ∷ xs) a b = ground (arith, text_eq-append xs a b)

-- The component where the pool's size is not given.
abbrev without_pool : Text → Loading KafkaComponent → Loading KafkaComponent
without_pool prefix l = record l {
  property = (property (prefix ++ key_pool) (property (prefix ++ key_group) l.property).0).0;
  component =
      set_pool_size (pos 1)
        (set_group_id (property (prefix ++ key_group) l.property).1 l.component);
}

module _ (prefix : Text) where
  after_brokers_lem :
      (l : Loading KafkaComponent)
      → get (prefix ++ key_pool) l.property.store ≡ []
      → after_brokers prefix l ≡ some (without_pool prefix l)
  unfolding after_brokers load_pool property
  after_brokers_lem l e = rw (e, after_brokers, load_pool) refl

  -- The keys that `LoadFromPrefix` reads without the pool's size.
  used_keys :
      (v : PropertyUsageValidator)
      → used (prefix ++ key_capacity) v ≡ false
      → used
          (prefix ++ key_capacity)
          (add (prefix ++ key_pool) (add (prefix ++ key_group) (add (prefix ++ key_brokers) v)))
        ≡ false
  unfolding used add contains text_eq
  used_keys v e =
      rw
        (
          text_eq-append prefix key_pool key_capacity,
          text_eq-append prefix key_group key_capacity,
          text_eq-append prefix key_brokers key_capacity,
        )
        e

  named_lem :
      (l : Loading KafkaComponent)
      → is_empty prefix ≡ false
      → load_from_prefix prefix l
        ≡ load_brokers prefix l (required_property (prefix ++ key_brokers) l.property)
  unfolding load_from_prefix
  named_lem l e = rw e refl

  -- With brokers and without a pool size under its prefix, `LoadFromPrefix` does not read the
  -- capacity of the queue: the component keeps the capacity that it had, and where the property is
  -- stored and nobody else has read it, the check of unused properties fails.
  pub load-capacity_unread :
      (l : Loading KafkaComponent)
      → is_empty prefix ≡ false
      → is_empty (get (prefix ++ key_brokers) l.property.store) ≡ false
      → get (prefix ++ key_pool) l.property.store ≡ []
      → contains (prefix ++ key_capacity) (store_keys l.property.store) ≡ true
      → used (prefix ++ key_capacity) l.property.validator ≡ false
      → (l' : Loading KafkaComponent) × (load_from_prefix prefix l ≡ some l')
        × (l'.component.queue_capacity ≡ l.component.queue_capacity)
        × ((unused : List Text) × (validate l'.property ≡ some unused))
  unfolding load_brokers property set_brokers set_group_id set_pool_size
  load-capacity_unread l named brokers no_pool stored unread =
      let p = (property (prefix ++ key_brokers) l.property).0 in
      let l1 =
        set_brokers (split b',' (get (prefix ++ key_brokers) l.property.store))
          (record l { property = p }) in
      (
        without_pool prefix l1,
        named_lem l named
            ∙ ap (load_brokers prefix l) (required_lem (prefix ++ key_brokers) l.property brokers)
            ∙ after_brokers_lem l1 no_pool,
        refl,
        validate-unread (prefix ++ key_capacity) (without_pool prefix l1).property stored
            (used_keys l.property.validator unread),
      )

  load_capacity_lem :
      (l : Loading KafkaComponent) (value : Text) (n : ℤ)
      → atoi value ≡ some n
      → load_capacity l value ≡ some (record l { component = set_queue_capacity n l.component })
  unfolding load_capacity atoi
  load_capacity_lem l [] n e = cc
  load_capacity_lem l (c ∷ cs) n e = rw (e, load_capacity) refl

  load_pool_lem :
      (l : Loading KafkaComponent) (value : Text) (n : ℤ)
      → atoi value ≡ some n
      → load_pool prefix l value
        ≡ after_pool prefix (record l { component = set_pool_size n l.component })
  unfolding load_pool atoi
  load_pool_lem l [] n e = cc
  load_pool_lem l (c ∷ cs) n e = rw (e, load_pool) refl

  -- With brokers, and numbers for the pool's size and the queue's capacity, `LoadFromPrefix` takes
  -- each from its property: the trimmed brokers, the group, the size raised to one at least and the
  -- capacity raised to zero at least. The brokers join the hosts of the probe.
  pub load-component :
      (l : Loading KafkaComponent) (size capacity : ℤ)
      → is_empty prefix ≡ false
      → is_empty (get (prefix ++ key_brokers) l.property.store) ≡ false
      → atoi (get (prefix ++ key_pool) l.property.store) ≡ some size
      → atoi (get (prefix ++ key_capacity) l.property.store) ≡ some capacity
      → let brokers = kept_brokers (split b',' (get (prefix ++ key_brokers) l.property.store)) in
        (l' : Loading KafkaComponent) × (load_from_prefix prefix l ≡ some l')
        × (l'.component ≡ record {
          brokers = brokers;
          group_id = get (prefix ++ key_group) l.property.store;
          pool_size = if leb_ℤ size (pos 0) then pos 1 else size;
          queue_capacity = if ltb_ℤ capacity (pos 0) then pos 0 else capacity;
        })
        × (l'.host_uris ≡ l.host_uris ++ brokers)
  unfolding load_brokers after_brokers after_pool property set_brokers set_group_id set_pool_size
      set_queue_capacity
  load-component l size capacity named brokers pool queue =
      let value = get (prefix ++ key_brokers) l.property.store in
      let l1 =
        set_brokers (split b',' value)
          (record l { property = (property (prefix ++ key_brokers) l.property).0 }) in
      let p2 = (property (prefix ++ key_group) l1.property).0 in
      let p3 = (property (prefix ++ key_pool) p2).0 in
      let group = get (prefix ++ key_group) l.property.store in
      let l2 : Loading KafkaComponent = record l1 {
        property = p3;
        component = set_group_id group l1.component;
      } in
      let l3 : Loading KafkaComponent = record l2 {
        property = (property (prefix ++ key_capacity) p3).0;
        component = set_pool_size size l2.component;
      } in
      (
        record l3 { component = set_queue_capacity capacity l3.component },
        named_lem l named
            ∙ ap (load_brokers prefix l) (required_lem (prefix ++ key_brokers) l.property brokers)
            ∙ load_pool_lem l2 (get (prefix ++ key_pool) l.property.store) size pool
            ∙ load_capacity_lem l3 (get (prefix ++ key_capacity) l.property.store) capacity queue,
        refl,
        refl,
      )
