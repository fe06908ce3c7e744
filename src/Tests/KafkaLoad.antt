-- ===== src/Tests/KafkaLoad.antt =====
-- `LoadFromPrefix` of kafka/component.go at concrete properties.
use go_infra.Prelude.{some, List, [], ◌∷◌, ◌≡◌, refl}
use go_infra.Prelude.Text.{Text, codes, text_eq}
use go_infra.Prelude.Dict.{lookup}
use go_infra.Prelude.Int.{pos}
use go_infra.Config.Property.{PropertyStore, get, store_keys, contains, used, validate}
use go_infra.Config.Property.Usage.{fresh}
use go_infra.Config.Loading.{Loading}
use go_infra.Kafka.{KafkaComponent, load_from_prefix}
use go_infra.Kafka.Load.{load-capacity_unread}

abbrev idle : KafkaComponent
idle = record { brokers = []; group_id = []; pool_size = pos 0; queue_capacity = pos 0 }

abbrev no_pool_store : PropertyStore
no_pool_store = record {
  values = (codes "k.brokers", codes "a:1, b:2,") ∷ (codes "k.queue.capacity", codes "64") ∷ [];
}

abbrev full_store : PropertyStore
full_store = record { values = (codes "k.pool.size", codes "3") ∷ no_pool_store.values }

abbrev loading : PropertyStore → Loading KafkaComponent
loading s = record { component = idle; property = fresh s; host_uris = [] }

load-capacity_unread_example :
    (l' : Loading KafkaComponent) × (load_from_prefix (codes "k") (loading no_pool_store) ≡ some l')
    × (l'.component.queue_capacity ≡ pos 0)
    × ((unused : List Text) × (validate l'.property ≡ some unused))
unfolding get lookup text_eq contains store_keys used
load-capacity_unread_example =
    load-capacity_unread (codes "k") (loading no_pool_store) refl refl refl refl refl
