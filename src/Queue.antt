-- ===== src/Queue.antt =====
-- The delivery queue (src/queue).
pub mod Message
pub mod Serialize
pub mod Manager
pub mod Envelopes
pub mod Quota
pub mod Throttle
pub mod Delivery
pub mod Dsn
