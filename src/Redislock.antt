-- ===== src/Redislock.antt =====
-- redislock/manager.go: the distributed lock manager over Redis.
pub mod Errors
pub mod Queue
pub mod Retry
pub mod Backend
pub mod Lock
pub mod Overlap
pub mod Manager
pub mod System
