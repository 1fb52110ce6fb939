-- ===== src/Session/Config.antt =====
-- src/config/mod.rs: the configuration of sessions, and src/core/params.rs: its evaluation into the
-- parameters of a session.
use smtp_server.Base.{ℕ, ◌+◌, Bool, Option, Bytes}
use smtp_server.Core.Conditions.Eval.{IfBlock, if_block_eval}
use smtp_server.Session.Params.{VerifyStrategy, Credentials, Contains, Values}
use smtp_server.Session.State.{Session, session_envelope}
use smtp_server.Session.Throttle.{SessionThrottle}

pub record Ehlo : Type 0 where
  pub ehlo_script : IfBlock (Option ℕ)
  pub ehlo_require : IfBlock Bool
  pub reject_non_fqdn : IfBlock Bool

pub record Extensions : Type 0 where
  pub pipelining : IfBlock Bool
  pub chunking : IfBlock Bool
  pub requiretls : IfBlock Bool
  pub dsn : IfBlock Bool
  pub no_soliciting : IfBlock (Option Bytes)
  pub future_release_max : IfBlock (Option ℕ)
  pub deliver_by : IfBlock (Option ℕ)
  pub mt_priority : IfBlock (Option ℕ)

pub record Auth : Type 0 where
  pub auth_lookup : IfBlock (Option (Credentials → Option Bool))
  pub mechanisms : IfBlock ℕ
  pub auth_require : IfBlock Bool
  pub auth_errors_max : IfBlock ℕ

pub record Rcpt : Type 0 where
  pub rcpt_script : IfBlock (Option ℕ)
  pub relay : IfBlock Bool
  pub lookup_domains : IfBlock (Option Contains)
  pub lookup_addresses : IfBlock (Option Contains)
  pub lookup_expn : IfBlock (Option Values)
  pub lookup_vrfy : IfBlock (Option Values)
  pub rcpt_errors_max : IfBlock ℕ
  pub max_recipients : IfBlock ℕ

-- Of the configuration of mail authentication, the strategies of a session.
pub record Verify : Type 0 where
  pub spf_ehlo : IfBlock VerifyStrategy
  pub spf_mail_from : IfBlock VerifyStrategy
  pub iprev : IfBlock VerifyStrategy
  pub dnsbl : IfBlock ℕ

pub record SessionConfig : Type 0 where
  pub duration : IfBlock ℕ
  pub transfer_limit : IfBlock ℕ
  pub throttle : SessionThrottle
  pub connect_script : IfBlock (Option ℕ)
  pub ehlo : Ehlo
  pub auth : Auth
  pub mail_script : IfBlock (Option ℕ)
  pub rcpt : Rcpt
  pub max_messages : IfBlock ℕ
  pub max_message_size : IfBlock ℕ
  pub extensions : Extensions
  pub verify : Verify

abbrev pub eval : {T : Type 0} → IfBlock T → Session → T
unfolding if_block_eval
eval block s = if_block_eval block (session_envelope s)

-- `eval_session_params`; the parameters that are evaluated are no part of the envelope.
unfoldable pub eval_session_params : SessionConfig → Session → Session
eval_session_params k s = record s {
  session_data = record s.session_data {
    bytes_left = eval k.transfer_limit s;
    valid_until = s.session_data.valid_until + eval k.duration s;
  };
  params = record s.params {
    verify_spf_ehlo = eval k.verify.spf_ehlo s;
    verify_spf_mail_from = eval k.verify.spf_mail_from s;
    verify_iprev = eval k.verify.iprev s;
    dnsbl_policy = eval k.verify.dnsbl s;
    ehlo_require = eval k.ehlo.ehlo_require s;
    ehlo_reject_non_fqdn = eval k.ehlo.reject_non_fqdn s;
    auth_lookup = eval k.auth.auth_lookup s;
    auth_require = eval k.auth.auth_require s;
    auth_errors_max = eval k.auth.auth_errors_max s;
    rcpt_lookup_expn = eval k.rcpt.lookup_expn s;
    rcpt_lookup_vrfy = eval k.rcpt.lookup_vrfy s;
  };
}

unfoldable pub eval_post_auth_params : SessionConfig → Session → Session
eval_post_auth_params k s = record s {
  params = record s.params {
    rcpt_lookup_expn = eval k.rcpt.lookup_expn s;
    rcpt_lookup_vrfy = eval k.rcpt.lookup_vrfy s;
  };
}

unfoldable pub eval_rcpt_params : SessionConfig → Session → Session
eval_rcpt_params k s = record s {
  params = record s.params {
    rcpt_script = eval k.rcpt.rcpt_script s;
    rcpt_relay = eval k.rcpt.relay s;
    rcpt_errors_max = eval k.rcpt.rcpt_errors_max s;
    rcpt_max = eval k.rcpt.max_recipients s;
    rcpt_lookup_domain = eval k.rcpt.lookup_domains s;
    rcpt_lookup_addresses = eval k.rcpt.lookup_addresses s;
    rcpt_dsn = eval k.extensions.dsn s;
    max_message_size = eval k.max_message_size s;
  };
}
