-- ===== src/Session/Ehlo.antt =====
-- src/inbound/ehlo.rs: the EHLO and LHLO commands.
use smtp_server.Base.{
  ℕ, ◌+◌, Bool, true, false, ◌&&◌, not, List, [], ◌∷◌, ◌++◌, Option, none, some, Bytes, bytes_eq,
  ltb, ◌==◌, if◌then◌else◌, is_some, is_empty,
}
use smtp_server.Base.Texts.{line}
use smtp_server.Queue.Message.{without_flag}
use smtp_server.Session.Params.{verifies, is_strict}
use smtp_server.Session.State.{Session, reset_data}
use smtp_server.Session.Config.{SessionConfig, eval}
use smtp_server.Session.Conn.{
  World, M, when◌then◌else◌, on_option, ◌>>=◌, ◌>>◌, pure, ask, change_data, write,
}
use smtp_server.Session.Dnsbl.{
  dnsbl_ehlo, is_domain_dnsbl_allowed, write_dnsbl_error, reset_dnsbl_error,
}
use smtp_server.Session.Mail.{handle_spf}

-- The extensions of the protocol.
pub data Extension : Type 0 where
  enhanced_status_codes eight_bit_mime binary_mime smtp_utf8 start_tls pipelining chunking :
      Extension
  expn vrfy require_tls dsn auth future_release deliver_by mt_priority size no_soliciting :
      Extension

pub record EhloResponse : Type 0 where
  pub ehlo_hostname : Bytes
  pub capabilities : List Extension
  pub auth_mechanisms : ℕ
  pub future_release_interval : ℕ
  pub future_release_datetime : ℕ
  pub deliver_by_interval : ℕ
  pub mt_priority_profile : Option ℕ
  pub max_size : ℕ
  pub soliciting : Option Bytes

-- The mechanisms of AUTH, one bit each.
pub record Mechanisms : Type 0 where
  pub auth_plain : ℕ
  pub auth_login : ℕ
  pub auth_oauthbearer : ℕ
  pub auth_xoauth2 : ℕ

abbrev offer : Bool → Extension → List Extension
offer true x = x ∷ []
offer false x = []

abbrev or_zero : Option ℕ → ℕ
or_zero none = 0
or_zero (some n) = n

abbrev non_empty : Option Bytes → Option Bytes
non_empty none = none
non_empty (some []) = none
non_empty (some (b ∷ bytes)) = some (b ∷ bytes)

module _ (mech : Mechanisms) (write_ehlo : EhloResponse → Bytes) (w : World)
    (k : SessionConfig) where
  -- Without TLS no mechanism is offered that shows the password.
  unfoldable pub offered_mechanisms : Session → ℕ
  offered_mechanisms s =
      let configured = eval k.auth.mechanisms s in
      if is_empty s.session_data.authenticated_as
      then if s.is_tls
        then configured
        else without_flag (without_flag configured mech.auth_plain) mech.auth_login
      else 0

  unfoldable pub ehlo_response : Session → EhloResponse
  unfolding offered_mechanisms
  ehlo_response s =
      let x = k.extensions in
      let release = eval x.future_release_max s in
      let by = eval x.deliver_by s in
      let limit = eval k.max_message_size s in
      record {
        ehlo_hostname = s.instance_data.hostname;
        capabilities =
            (enhanced_status_codes ∷ eight_bit_mime ∷ binary_mime ∷ smtp_utf8 ∷ [])
            ++ (offer (not s.is_tls) start_tls
                ++ (offer (eval x.pipelining s) pipelining
                    ++ (offer (eval x.chunking s) chunking
                        ++ (offer (is_some (eval k.rcpt.lookup_expn s)) expn
                            ++ (offer (is_some (eval k.rcpt.lookup_vrfy s)) vrfy
                                ++ (offer (eval x.requiretls s) require_tls
                                    ++ (offer (eval x.dsn s) dsn
                                        ++ (offer (not (offered_mechanisms s == 0)) auth
                                            ++ (offer (is_some release) future_release
                                                ++ (offer (is_some by) deliver_by
                                                    ++ (offer (is_some (eval x.mt_priority s))
                                                          mt_priority
                                                        ++ (offer (ltb 0 limit) size
                                                            ++ offer
                                                            (is_some (eval x.no_soliciting s))
                                                            no_soliciting))))))))))));
        auth_mechanisms = offered_mechanisms s;
        future_release_interval = or_zero release;
        future_release_datetime = elim release [ none ↦ 0 | some n ↦ w.system_now + n ];
        deliver_by_interval = or_zero by;
        mt_priority_profile = eval x.mt_priority s;
        max_size = limit;
        soliciting = non_empty (eval x.no_soliciting s);
      }

  unfoldable pub greet : M (Unit {0})
  unfolding ehlo_response write
  greet = do
    s ← ask (λ s. s)
    (when is_some s.session_data.mail_from then change_data reset_data else pure tt)
    s' ← ask (λ s. s)
    write (write_ehlo (ehlo_response s'))

  abbrev pub back_to : Bytes → M (Unit {0})
  back_to domain = change_data (λ d. record d { mail_from = none; helo_domain = domain })

  -- The script of a new domain, after its SPF check.
  unfoldable pub run_ehlo_script : Bytes → M (Unit {0})
  unfolding greet write
  run_ehlo_script before = do
    s ← ask (λ s. s)
    on_option (eval k.ehlo.ehlo_script s) (greet) (λ script.
        on_option (w.run_script script s) (greet) (λ message. do
          back_to before
          change_data (λ d. record d { spf_ehlo = none })
          write message))

  unfoldable pub set_domain : Bytes → M (Unit {0})
  unfolding run_ehlo_script handle_spf verifies is_strict
  set_domain domain = do
    before ← ask (λ s. s.session_data.helo_domain)
    change_data (λ d. record d { helo_domain = domain })
    s ← ask (λ s. s)
    when verifies s.params.verify_spf_ehlo
        then (do
          let verdict = w.verify_spf_helo s.session_data.remote_ip domain s.instance_data.hostname
          valid ← handle_spf verdict (is_strict s.params.verify_spf_ehlo)
          when valid
              then (do
                change_data (λ d. record d { spf_ehlo = some verdict })
                run_ehlo_script before)
              else back_to before)
        else run_ehlo_script before

  -- `handle_ehlo`
  unfoldable pub handle_ehlo : Bytes → M (Unit {0})
  unfolding set_domain greet is_domain_dnsbl_allowed write_dnsbl_error write
  handle_ehlo domain = do
    s ← ask (λ s. s)
    when bytes_eq domain s.session_data.helo_domain
        then greet
        else when s.params.ehlo_reject_non_fqdn && not (w.has_labels domain)
        then write (line "550 5.5.0 Invalid EHLO domain.")
        else (do
          allowed ← is_domain_dnsbl_allowed w domain dnsbl_ehlo
          when allowed then set_domain domain else (do write_dnsbl_error; reset_dnsbl_error))
