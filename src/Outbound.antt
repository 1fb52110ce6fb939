-- ===== src/Outbound.antt =====
-- The sessions with other hosts (src/outbound).
pub mod Errors
pub mod Commands
pub mod Session
