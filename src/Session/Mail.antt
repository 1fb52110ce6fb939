-- ===== src/Session/Mail.antt =====
-- src/inbound/mail.rs: the MAIL command.
use smtp_server.Base.{
  Bool, true, false, ◌&&◌, ◌||◌, not, [], ◌∷◌, ◌++◌, Option, none, some, Bytes, if◌then◌else◌,
  is_some, is_empty,
}
use smtp_server.Base.Texts.{codes, line}
use smtp_server.Queue.Message.{has_flag, domain_part}
use smtp_server.Session.Params.{verifies, is_strict}
use smtp_server.Session.State.{
  Session, SessionAddress, Verdict, pass, temp_error, other, IprevOutput,
}
use smtp_server.Session.Config.{SessionConfig, eval, eval_rcpt_params}
use smtp_server.Session.Conn.{
  World, M, when◌then◌else◌, on_option, ◌>>=◌, ◌>>◌, pure, ask, change, change_data, write,
  throttle_allows,
}
use smtp_server.Session.Dnsbl.{
  dnsbl_iprev, dnsbl_return_path, is_domain_dnsbl_allowed, write_dnsbl_error, reset_dnsbl_error,
}
use smtp_server.Base.Flags.{Flags}
use smtp_server.Session.Parameters.{
  MailFrom, clear_sender, refuse, check_requiretls, check_deliver_by, check_mt_priority, check_size,
  check_hold, check_dsn,
}

-- `handle_spf`
unfoldable pub handle_spf : Verdict → Bool → M Bool
unfolding write
handle_spf pass strict = pure true
handle_spf temp_error strict =
    when strict
    then (do write (line "451 4.7.24 Temporary SPF validation error."); pure false)
    else pure true
handle_spf (other result) strict =
    when strict
    then (do
      write
          (codes "550 5.7.23 SPF validation failed, status: " ++ (result ++ (b'.' ∷ 13 ∷ 10 ∷ [])))
      pure false)
    else pure true

abbrev pub first_ptr : IprevOutput → Option Bytes
first_ptr o = elim o.ptr [ none ↦ none | some [] ↦ none | some (p ∷ ps) ↦ some p ]

module _ (fl : Flags) (w : World) (k : SessionConfig) where
  -- The reverse name of the client is looked up once; false when it is blocked.
  unfoldable pub check_iprev : M Bool
  unfolding is_domain_dnsbl_allowed verifies
  check_iprev = do
    s ← ask (λ s. s)
    when not (is_some s.session_data.iprev)
          && (verifies s.params.verify_iprev || has_flag s.params.dnsbl_policy dnsbl_iprev)
        then (do
          let found = w.iprev_of s.session_data.remote_ip
          allowed ←
              on_option (first_ptr found) (pure true)
                (λ ptr. is_domain_dnsbl_allowed w ptr dnsbl_iprev)
          when allowed
              then (do change_data (λ d. record d { iprev = some found }); pure true)
              else pure false)
        else pure true

  -- The reply if the reverse name is to be verified strictly and is not.
  abbrev pub iprev_refusal : Session → Option Bytes
  unfolding is_strict
  iprev_refusal s =
      if is_strict s.params.verify_iprev
      then elim s.session_data.iprev [
        | none ↦ some (line "550 5.7.25 Reverse DNS validation failed.")
        | some o ↦ elim o.iprev_result [
          | pass ↦ none
          | temp_error ↦ some (line "451 4.7.25 Temporary error validating reverse DNS.")
          | other t ↦ some (line "550 5.7.25 Reverse DNS validation failed.")
        ]
      ]
      else none

  abbrev pub new_sender : MailFrom → SessionAddress
  unfolding domain_part
  new_sender from =
      if is_empty from.address
      then record {
        address = [];
        address_lcase = [];
        domain = [];
        flags = from.flags;
        dsn_info = from.env_id;
      }
      else record {
        address = from.address;
        address_lcase = w.to_lowercase from.address;
        domain = domain_part (w.to_lowercase from.address);
        flags = from.flags;
        dsn_info = from.env_id;
      }

  -- The identity that SPF is asked about.
  abbrev pub spf_verdict : Session → SessionAddress → Verdict
  spf_verdict s a =
      if is_empty a.address
      then w.check_host s.session_data.remote_ip s.session_data.helo_domain
          s.session_data.helo_domain s.instance_data.hostname
          (codes "postmaster@" ++ s.session_data.helo_domain)
      else w.check_host s.session_data.remote_ip a.domain s.session_data.helo_domain
          s.instance_data.hostname a.address_lcase

  unfoldable pub check_spf : MailFrom → M Bool
  unfolding handle_spf verifies is_strict
  check_spf from = do
    s ← ask (λ s. s)
    when verifies s.params.verify_spf_mail_from
        then (do
          let verdict = spf_verdict s (new_sender from)
          valid ← handle_spf verdict (is_strict s.params.verify_spf_mail_from)
          when valid
              then change_data (λ d. record d { spf_mail_from = some verdict })
              else clear_sender
          pure valid)
        else pure true

  unfoldable pub accept_sender : MailFrom → M (Unit {0})
  unfolding throttle_allows check_spf eval_rcpt_params refuse write
  accept_sender from = do
    allowed ← throttle_allows w k
    when allowed
        then (do
          valid ← check_spf from
          when valid
              then (do change (eval_rcpt_params k); write (line "250 2.1.0 OK"))
              else pure tt)
        else refuse (line "451 4.4.5 Rate limit exceeded, try again later.")

  unfoldable pub check_parameters : MailFrom → M (Unit {0})
  unfolding check_requiretls check_deliver_by check_mt_priority check_size check_hold check_dsn
      accept_sender
  check_parameters from = check_requiretls fl w k from (
      check_deliver_by fl w k from (
        check_mt_priority fl w k from (
          check_size fl w k from
            (check_hold fl w k from (check_dsn fl w k from (accept_sender from))))))

  -- The sender is set, and its script is run.
  unfoldable pub set_sender : MailFrom → M (Unit {0})
  unfolding check_parameters refuse
  set_sender from = do
    change_data (λ d. record d { mail_from = some (new_sender from) })
    s ← ask (λ s. s)
    on_option (eval k.mail_script s) (check_parameters from) (λ script.
        on_option (w.run_script script s) (check_parameters from) (λ message. refuse message))

  unfoldable pub check_sender : MailFrom → M (Unit {0})
  unfolding is_domain_dnsbl_allowed write_dnsbl_error set_sender
  check_sender from = do
    allowed ←
        (when is_empty (new_sender from).domain
          then pure true
          else is_domain_dnsbl_allowed w (new_sender from).domain dnsbl_return_path)
    when allowed then set_sender from else (do write_dnsbl_error; reset_dnsbl_error)

  -- The reply of the first guards, if one of them holds.
  unfoldable pub mail_refusal : Session → Option Bytes
  unfolding verifies
  mail_refusal s =
      if is_empty s.session_data.helo_domain
        && (s.params.ehlo_require
            || (verifies s.params.verify_spf_ehlo || verifies s.params.verify_spf_mail_from))
      then some (line "503 5.5.1 Polite people say EHLO first.")
      else if is_some s.session_data.mail_from
      then some (line "503 5.5.1 Multiple MAIL commands not allowed.")
      else if s.params.auth_require && is_empty s.session_data.authenticated_as
      then some (line "503 5.5.1 You must authenticate first.")
      else s.session_data.dnsbl_error

  -- `handle_mail_from`
  unfoldable pub handle_mail_from : MailFrom → M (Unit {0})
  unfolding mail_refusal check_iprev check_sender write write_dnsbl_error
  handle_mail_from from = do
    s ← ask (λ s. s)
    on_option (mail_refusal s)
        (do
          allowed ← check_iprev
          when allowed
              then (do
                s' ← ask (λ s. s)
                on_option (iprev_refusal s') (check_sender from) (λ reply. write reply))
              else write_dnsbl_error)
        (λ reply. write reply)
