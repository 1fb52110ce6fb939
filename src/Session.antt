-- ===== src/Session.antt =====
-- src/core and src/inbound: an SMTP session, from what it is told to its throttles.
pub mod Params
pub mod State
pub mod Config
pub mod Conn
pub mod Dnsbl
pub mod Parameters
pub mod Mail
pub mod Rcpt
pub mod Ehlo
pub mod Auth
pub mod Vrfy
pub mod Build
pub mod Received
pub mod Changes
pub mod Ingest
pub mod Connection
pub mod Throttle
