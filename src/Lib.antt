-- ===== src/Lib.antt =====
-- A verification library for go-infra, a library of infrastructure components for Go services.
--
-- The parts of the program. An application (app/) registers components (kafka/, rabbitmq/, redis/,
-- db/, postgres/, redislock/, dedupe/, scheduler/). Each component reads its configuration from the
-- property runtime (config/), which afterwards refuses properties that nobody has read. The lock
-- manager (redislock/) gives out locks over keys: the goroutines of one process queue for a key in
-- the process, and the first of them takes the key in Redis with a random token.
--
-- The files.
--   Prelude: names of the library passed on, Boolean tests on numbers, lists, byte strings
--     (Prelude/Text), their order (Prelude/Sort), addresses (Prelude/Net), integers (Prelude/Int), and
--     association lists for maps (Prelude/Dict).
--   Redislock: redislock/manager.go. Errors has the sentinel errors and LockError; Queue is
--     localKeyQueue, with try_acquire for tryAcquire, acquire_begin and acquire_end for the parts of
--     acquire before and after its select, remove_waiter for removeWaiter, release for release;
--     Retry is the options and the two backoffs; Backend is the interface, RedisBackend and the two
--     scripts; Lock is Lock with Release, Refresh, finalize and the tick of its watchdog, one step each,
--     and Overlap the same methods section by section, as a step relation over any number of
--     calls of one lock; Manager is TryLock, Acquire and WithLock; System is any number of goroutines that call the local queue, a
--     step relation over the sections of Queue, one step for each section and for each select.
--   Config: config/property.go. Strings has what it uses of package strings; Property is
--     PropertyStore with Load, PropertyUsageValidator and PropertyRuntime; Strconv has what the
--     components use of package strconv, Loading how they read their settings one by one, and Files
--     LoadProperties over the file systems of the environments.
--   App: Lifecycle is internal/module/startup_tasks.go and shutdown_tasks.go; Runtime is
--     app/runtime.go, app/app.go with App.Start, register_component.go, component_registry.go, hooks.go;
--     Runtime/Components is register_component.go with Initialize of the components; Register is the
--     Register functions of the packages of components, and how redislock/ and dedupe/ find the
--     component for Redis.
--   Dedupe: dedupe/manager.go, with redis_* for the methods of RedisBackend and manager_* for those of
--     Manager.
--   Kafka: the setters and LoadFromPrefix of kafka/component.go; Client, Consumer and Producer are
--     kafka/client.go, with the two goroutines of ConsumerRunner.Start as the step relation of
--     Consumer, and AwaitTermination beside them in Consumer/Await; Component is the rest of kafka/component.go.
--   Rabbitmq: Client and Consumer are rabbitmq/client.go, with Client for its connection and its
--     publisher channel and Consumer for ConsumerRunner and its handle; Component is
--     rabbitmq/component.go.
--   Redis: redis/component.go; its registration is in App.
--   Scheduler: internal/scheduler/scheduler.go, with its Component scheduler/component.go.
--   Probe: probe/startup.go.
--   Mongo: internal/mongo/client.go, with its Component app/module/mongo_component.go.
--   Module: the runtime of app/module/, which holds its components in one package: Initialize has
--     the initialize of each component, Calls the accessors of module_base.go, Start app.go, and
--     Properties the accessors for the properties.
--   Web: internal/web/, with the two middlewares that web/runtime.go installs, and Runtime the
--     latter.
--   Sql: db/component.go and postgres/component.go, which differ in one setting.
--   Grpc: Pool is internal/grpc/client_pool.go, Server internal/grpc/server.go, Component
--     app/module/grpc_component.go, and Clients
--     app/module/grpc_client_component.go.
--   Tests: runs of the definitions on small inputs, and the theorems at them.
--
-- How the code is read. A mutex-guarded section is one function of the state, which returns the new
-- state. A channel is a number, and closing it is recorded. An error is a value; a panic is `none`.
-- A duration is an integer of nanoseconds. go-redis, the random source and the waits of Acquire are
-- parameters, with their documented behaviour as named hypotheses (Redislock.Backend.Ownership). So
-- are the other libraries; the hypotheses are OpensOn for AMQP (Rabbitmq.Client.Channels), IsBroker
-- for its broker (Rabbitmq.Consumer.Settled) and IsAssigning for Kafka (Kafka.Consumer.Assigned).
-- The value `none` of the loop of Acquire is fuel that ran out: as much as the number of the first
-- retry that its strategy refuses is enough.
--
-- What is not modelled. The goroutine of the watchdog is left out outside its ticks, which WithLock
-- has among the events while its callback runs. A file is given as the lines of its scanner, and a
-- file system by what its Open answers. Text is bytes. The libraries for Kafka, AMQP, cron, gRPC,
-- MongoDB, URLs and the network are parameters. Of the waits of AwaitTermination only the one of a
-- Kafka consumer is modelled. The drivers of the databases, the web server itself, and the copies
-- of the packages under internal/ and app/module/ are left out.
pub mod Prelude
pub mod App
pub mod Config
pub mod Dedupe
pub mod Grpc
pub mod Kafka
pub mod Module
pub mod Mongo
pub mod Probe
pub mod Rabbitmq
pub mod Redis
pub mod Redislock
pub mod Scheduler
pub mod Sql
pub mod Web
pub mod Tests
