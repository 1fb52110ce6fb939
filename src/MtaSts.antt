-- ===== src/MtaSts.antt =====
-- src/outbound/mta_sts: the policies by which a domain tells which hosts take its mail.
pub mod Text
pub mod Policy
