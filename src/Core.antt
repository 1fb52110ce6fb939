-- ===== src/Core.antt =====
-- src/core: what the queue and the sessions share, the envelope and the rules that test it.
pub mod Envelope
pub mod Conditions
pub mod Key
pub mod Limiter
