-- ===== src/Tests.antt =====
-- The theorems at concrete inputs, and runs of the definitions.
mod KafkaLoad
mod KafkaConsumer
mod KafkaAwait
mod RabbitClient
mod SqlLoad
mod WebRequest
mod GrpcPool
mod Startup
mod SchedulerJobs
mod DedupeMarks
mod AppRuntime
mod ConfigProperty
mod LockQueue
mod LockSystem
mod LockOverlap
mod ModuleCalls
mod MongoCalls
mod LockBackend
mod LockManager
