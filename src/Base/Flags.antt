-- ===== src/Base/Flags.antt =====
-- The flags of the protocol (package smtp-proto), one bit each.
use Prim.Native.Nat.{ℕ}

pub record Flags : Type 0 where
  pub mail_requiretls : ℕ
  pub mail_by_notify : ℕ
  pub mail_by_return : ℕ
  pub rcpt_notify_success : ℕ
  pub rcpt_notify_failure : ℕ
  pub rcpt_notify_delay : ℕ
  pub rcpt_notify_never : ℕ
