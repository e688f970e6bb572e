-- ===== src/Storage.antt =====
-- storage/: the in-memory storage engine of Mini Redis.
pub mod Ttl
pub mod Engine
pub mod Seats
pub mod Queues
