-- ===== src/Module/Names.antt =====
-- The names of the components of app/module/ tell their types apart.
use go_infra.Prelude.{◌==◌, Option, none, some, List, [], ◌∷◌, ◌≡◌, refl, if◌then◌else◌}
use go_infra.Prelude.Text.{Text, codes, text_eq}
use go_infra.Module.{
  ComponentType, kafka, rabbitmq, mongo, grpc, grpc_client, db, redis, redis_lock, deduplicator,
  scheduler, default_name, name_of, given_name,
}

abbrev before_colon : Text → Text
before_colon [] = []
before_colon (x ∷ xs) = if x == b':' then [] else x ∷ before_colon xs

abbrev type_of_default : Text → Option ComponentType
type_of_default s =
    if text_eq s (codes "Kafka")
    then some kafka
    else if text_eq s (codes "RabbitMQ")
    then some rabbitmq
    else if text_eq s (codes "Mongo")
    then some mongo
    else if text_eq s (codes "Grpc")
    then some grpc
    else if text_eq s (codes "GrpcClient")
    then some grpc_client
    else if text_eq s (codes "DB")
    then some db
    else if text_eq s (codes "Redis")
    then some redis
    else if text_eq s (codes "RedisLock")
    then some redis_lock
    else if text_eq s (codes "Deduplicator")
    then some deduplicator
    else if text_eq s (codes "Scheduler")
    then some scheduler
    else none

-- The type of the components that can stand under a name.
unfoldable pub type_of : Text → Option ComponentType
type_of name = type_of_default (before_colon name)

-- The name under which the accessor for a type registers.
abbrev pub full_name : ComponentType → List Text → Text
full_name grpc names = default_name grpc
full_name grpc_client names = default_name grpc_client
full_name scheduler names = default_name scheduler
full_name t names = name_of t (given_name names)

pub type_of-name_of : (t : ComponentType) (name : Text) → type_of (name_of t name) ≡ some t
unfolding type_of text_eq
type_of-name_of kafka [] = refl
type_of-name_of kafka (x ∷ name) = refl
type_of-name_of rabbitmq [] = refl
type_of-name_of rabbitmq (x ∷ name) = refl
type_of-name_of mongo [] = refl
type_of-name_of mongo (x ∷ name) = refl
type_of-name_of grpc [] = refl
type_of-name_of grpc (x ∷ name) = refl
type_of-name_of grpc_client [] = refl
type_of-name_of grpc_client (x ∷ name) = refl
type_of-name_of db [] = refl
type_of-name_of db (x ∷ name) = refl
type_of-name_of redis [] = refl
type_of-name_of redis (x ∷ name) = refl
type_of-name_of redis_lock [] = refl
type_of-name_of redis_lock (x ∷ name) = refl
type_of-name_of deduplicator [] = refl
type_of-name_of deduplicator (x ∷ name) = refl
type_of-name_of scheduler [] = refl
type_of-name_of scheduler (x ∷ name) = refl

pub type_of-full_name :
    (t : ComponentType) (names : List Text) → type_of (full_name t names) ≡ some t
type_of-full_name kafka names = type_of-name_of kafka (given_name names)
type_of-full_name rabbitmq names = type_of-name_of rabbitmq (given_name names)
type_of-full_name mongo names = type_of-name_of mongo (given_name names)
type_of-full_name grpc names = type_of-name_of grpc []
type_of-full_name grpc_client names = type_of-name_of grpc_client []
type_of-full_name db names = type_of-name_of db (given_name names)
type_of-full_name redis names = type_of-name_of redis (given_name names)
type_of-full_name redis_lock names = type_of-name_of redis_lock (given_name names)
type_of-full_name deduplicator names = type_of-name_of deduplicator (given_name names)
type_of-full_name scheduler names = type_of-name_of scheduler []
