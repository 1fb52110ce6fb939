-- ===== src/Queue/Serialize.antt =====
-- src/queue/serialize.rs: the queue file's metadata, written behind the message and read back at
-- startup. `Values` has the encodings of single values, `Writer` and `Reader` the message's.
pub mod Class
pub mod Numbers
pub mod Text
pub mod Values
pub mod Writer
pub mod Reader
mod Edits
pub mod Log
pub mod Header
pub mod RoundTrip
pub mod Changes
pub mod Settled
pub mod Kept
