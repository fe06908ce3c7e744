-- ===== src/Rabbitmq/Component/Load.antt =====
-- What `LoadFromPrefix` of rabbitmq/component.go leaves.
use go_infra.Prelude.{Bool, false, Option, some, ◌++◌, ◌≡◌, refl, ap, ◌∙◌, if◌then◌else◌, and_then}
use go_infra.Prelude.Text.{Text, codes, is_empty}
use go_infra.Prelude.Int.{ℤ, pos, ltb_ℤ}
use go_infra.Config.Strconv.{atoi, parse_bool}
use go_infra.Config.Property.{property, required_property, get}
use go_infra.Config.Property.Usage.{required_lem}
use go_infra.Config.Loading.{Loading, setting, load_parsed_lem}
use go_infra.Rabbitmq.Component.{
  RabbitComponent, set_prefetch, host_port_from_url, host_uris_of, set_url, load_texts,
  load_auto_ack, load_requeue, load_parsed_all, load_url, load_from_prefix,
}

named_lem :
    (parse_url : Text → Option (Text × Text)) (prefix : Text) (l : Loading RabbitComponent)
    → is_empty prefix ≡ false
    → load_from_prefix parse_url prefix l
      ≡ load_url parse_url prefix l (required_property (prefix ++ codes ".url") l.property)
unfolding load_from_prefix
named_lem parse_url prefix l e = rw e refl

-- The texts of the component, each from its property.
abbrev pub text_at : Text → Text → Loading RabbitComponent → Text
text_at prefix suffix l = get (prefix ++ suffix) l.property.store

-- Under a prefix, with a URL, a prefetch count so far that is not negative, and every other
-- property empty or well formed, LoadFromPrefix takes each setting from its property: the texts as
-- they are, the prefetch count raised to zero at least, and the old values for the numbers and
-- flags that are empty. The host of the URL, if it has one, joins those of the probe, with the
-- port 5672 where it names none.
pub load-settings :
    (parse_url : Text → Option (Text × Text)) (prefix : Text) (l : Loading RabbitComponent) (n : ℤ)
    (ack again : Bool)
    → is_empty prefix ≡ false
    → is_empty (text_at prefix (codes ".url") l) ≡ false
    → ltb_ℤ l.component.prefetch (pos 0) ≡ false
    → setting atoi l.component.prefetch (text_at prefix (codes ".prefetch") l) ≡ some n
    → setting parse_bool l.component.auto_ack (text_at prefix (codes ".auto.ack") l) ≡ some ack
    → setting parse_bool l.component.requeue (text_at prefix (codes ".requeue") l) ≡ some again
    → (l' : Loading RabbitComponent) × (load_from_prefix parse_url prefix l ≡ some l')
      × (l'.component ≡ record l.component {
        url = text_at prefix (codes ".url") l;
        exchange = text_at prefix (codes ".exchange") l;
        queue = text_at prefix (codes ".queue") l;
        routing_key = text_at prefix (codes ".routing.key") l;
        consumer_tag = text_at prefix (codes ".consumer.tag") l;
        prefetch = if ltb_ℤ n (pos 0) then pos 0 else n;
        auto_ack = ack;
        requeue = again;
      })
      × (l'.host_uris
          ≡ l.host_uris
            ++ host_uris_of (host_port_from_url (parse_url (text_at prefix (codes ".url") l))))
unfolding load_url load_texts load_parsed_all set_url property
load-settings parse_url prefix l n ack again named url positive p q r =
    let l1 = load_texts prefix (
      set_url parse_url (text_at prefix (codes ".url") l)
        (record l { property = (property (prefix ++ codes ".url") l.property).0 })) in
    let l2 = record l1 {
      property = (property (prefix ++ codes ".prefetch") l1.property).0;
      component = set_prefetch n l1.component;
    } in
    let l3 = record l2 {
      property = (property (prefix ++ codes ".auto.ack") l2.property).0;
      component = record l2.component { auto_ack = ack };
    } in
    let l4 = record l3 {
      property = (property (prefix ++ codes ".requeue") l3.property).0;
      component = record l3.component { requeue = again };
    } in
    let read1 =
      load_parsed_lem atoi (prefix ++ codes ".prefetch") set_prefetch l1 l.component.prefetch n
        (rw positive refl) p in
    let read2 =
      load_parsed_lem parse_bool (prefix ++ codes ".auto.ack") (λ b c. record c { auto_ack = b }) l2
        l.component.auto_ack ack refl q in
    let read3 =
      load_parsed_lem parse_bool (prefix ++ codes ".requeue") (λ b c. record c { requeue = b }) l3
        l.component.requeue again refl r in
    (
      l4,
      named_lem parse_url prefix l named
          ∙ ap (load_url parse_url prefix l) (required_lem (prefix ++ codes ".url") l.property url)
          ∙ ap
              (λ (o : Option (Loading RabbitComponent)).
                and_then (and_then o (load_auto_ack prefix)) (load_requeue prefix))
              read1
          ∙ ap (λ (o : Option (Loading RabbitComponent)). and_then o (load_requeue prefix)) read2
          ∙ read3,
      refl,
      refl,
    )
