-- ===== src/Session/Parameters.antt =====
-- src/inbound/mail.rs: the parameters of the MAIL command.
use smtp_server.Base.{
  ℕ, ◌-◌, ◌%◌, ◌^◌, Bool, ◌&&◌, ◌||◌, not, ◌++◌, Option, none, Bytes, ltb, leb, ◌==◌, if◌then◌else◌,
  is_some,
}
use smtp_server.Base.Decimal.{decimal}
use smtp_server.Base.Texts.{codes, line}
use smtp_server.Queue.Message.{has_flag}
use smtp_server.Session.Config.{SessionConfig, eval}
use smtp_server.Session.Conn.{
  World, M, when◌then◌else◌, on_option, ◌>>=◌, ◌>>◌, ask, change_data, write,
}
use smtp_server.Base.Flags.{Flags}

-- `MailFrom`; the signed `by` and `mt_priority` are patterns of 64 bits.
pub record MailFrom : Type 0 where
  pub address : Bytes
  pub flags : ℕ
  pub size : ℕ
  pub by : ℕ
  pub env_id : Option Bytes
  pub mt_priority : ℕ
  pub hold_for : ℕ
  pub hold_until : ℕ

-- `checked_abs().unwrap_or(0)`
abbrev pub abs_or_zero : ℕ → ℕ
abs_or_zero n = if ltb n (2 ^ 63) then n else if n == 2 ^ 63 then 0 else 2 ^ 64 - n

abbrev pub is_positive : ℕ → Bool
is_positive n = ltb 0 n && ltb n (2 ^ 63)

abbrev pub clear_sender : M (Unit {0})
clear_sender = change_data (λ d. record d { mail_from = none })

-- `self.data.mail_from = None; return self.write(..)`
unfoldable pub refuse : Bytes → M (Unit {0})
unfolding write
refuse reply = clear_sender >> write reply

module _ (fl : Flags) (w : World) (k : SessionConfig) where
  -- The checks of the parameters, each with what follows it.
  unfoldable pub check_requiretls : MailFrom → M (Unit {0}) → M (Unit {0})
  unfolding refuse
  check_requiretls from next = do
    s ← ask (λ s. s)
    when has_flag from.flags fl.mail_requiretls && not (eval k.extensions.requiretls s)
        then refuse (line "501 5.5.4 REQUIRETLS has been disabled.")
        else next

  unfoldable pub check_deliver_by : MailFrom → M (Unit {0}) → M (Unit {0})
  unfolding refuse
  check_deliver_by from next = do
    s ← ask (λ s. s)
    when has_flag from.flags fl.mail_by_notify || has_flag from.flags fl.mail_by_return
        then on_option (eval k.extensions.deliver_by s)
            (refuse (line "501 5.5.4 DELIVERBY extension has been disabled."))
            (λ duration.
              when leb (abs_or_zero from.by) duration
                && (is_positive from.by || has_flag from.flags fl.mail_by_notify)
              then (do change_data (λ d. record d { delivery_by = from.by }); next)
              else refuse (
                  codes "501 5.5.4 BY parameter exceeds maximum of "
                  ++ (decimal duration ++ line " seconds.")))
        else next

  unfoldable pub check_mt_priority : MailFrom → M (Unit {0}) → M (Unit {0})
  unfolding refuse
  check_mt_priority from next = do
    s ← ask (λ s. s)
    when from.mt_priority == 0
        then next
        else when is_some (eval k.extensions.mt_priority s)
        then (when ltb from.mt_priority 6 || leb (2 ^ 64 - 6) from.mt_priority
            then (do change_data (λ d. record d { priority = from.mt_priority % 2 ^ 16 }); next)
            else refuse (line "501 5.5.4 Invalid priority value."))
        else refuse (line "501 5.5.4 MT-PRIORITY extension has been disabled.")

  unfoldable pub check_size : MailFrom → M (Unit {0}) → M (Unit {0})
  unfolding refuse
  check_size from next = do
    s ← ask (λ s. s)
    when ltb 0 from.size && ltb (eval k.max_message_size s) from.size
        then refuse (line "552 5.3.4 Message too big for system.")
        else next

  abbrev pub hold_time : MailFrom → ℕ
  hold_time from = if from.hold_for == 0 then from.hold_until - w.system_now else from.hold_for

  unfoldable pub check_hold : MailFrom → M (Unit {0}) → M (Unit {0})
  unfolding refuse
  check_hold from next = do
    s ← ask (λ s. s)
    when from.hold_for == 0 && (from.hold_until == 0)
        then next
        else on_option (eval k.extensions.future_release_max s)
            (refuse (line "501 5.5.4 FUTURERELEASE extension has been disabled."))
            (λ max_hold.
              when leb (hold_time from) max_hold
              then (do change_data (λ d. record d { future_release = hold_time from }); next)
              else refuse (
                  codes "501 5.5.4 Requested hold time exceeds maximum of "
                  ++ (decimal max_hold ++ line " seconds.")))

  unfoldable pub check_dsn : MailFrom → M (Unit {0}) → M (Unit {0})
  unfolding refuse
  check_dsn from next = do
    s ← ask (λ s. s)
    when is_some from.env_id && not (eval k.extensions.dsn s)
        then refuse (line "501 5.5.4 DSN extension has been disabled.")
        else next
