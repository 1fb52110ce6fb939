-- ===== src/Session/Params.antt =====
-- src/core/mod.rs: the parameters of a session, which src/core/params.rs evaluates.
--
-- A lookup list is the function that it answers with, or nothing when it cannot answer. A script is
-- known by its number. The timeout and the waits after errors, which only delay, are left out.
use smtp_server.Base.{ℕ, Bool, true, false, List, Option, none, Bytes}

-- `VerifyStrategy`
pub data VerifyStrategy : Type 0 where
  relaxed strict disable : VerifyStrategy

unfoldable pub verifies : VerifyStrategy → Bool
verifies relaxed = true
verifies strict = true
verifies disable = false

unfoldable pub is_strict : VerifyStrategy → Bool
is_strict relaxed = false
is_strict strict = true
is_strict disable = false

-- `mail_send::Credentials`
pub data Credentials : Type 0 where
  plain xoauth2 : Bytes → Bytes → Credentials
  oauth_bearer : Bytes → Credentials

abbrev pub Contains : Type 0
Contains = Bytes → Option Bool

-- `LookupResult`: the values, or that there are none.
abbrev pub Values : Type 0
Values = Bytes → Option (Option (List Bytes))

pub record SessionParameters : Type 0 where
  pub ehlo_require : Bool
  pub ehlo_reject_non_fqdn : Bool
  pub auth_lookup : Option (Credentials → Option Bool)
  pub auth_require : Bool
  pub auth_errors_max : ℕ
  pub rcpt_script : Option ℕ
  pub rcpt_relay : Bool
  pub rcpt_errors_max : ℕ
  pub rcpt_max : ℕ
  pub rcpt_dsn : Bool
  pub rcpt_lookup_domain : Option Contains
  pub rcpt_lookup_addresses : Option Contains
  pub rcpt_lookup_expn : Option Values
  pub rcpt_lookup_vrfy : Option Values
  pub max_message_size : ℕ
  pub verify_iprev : VerifyStrategy
  pub verify_spf_ehlo : VerifyStrategy
  pub verify_spf_mail_from : VerifyStrategy
  pub dnsbl_policy : ℕ

-- `SessionParameters::default`
abbrev pub no_parameters : SessionParameters
no_parameters = record {
  ehlo_require = false;
  ehlo_reject_non_fqdn = false;
  auth_lookup = none;
  auth_require = false;
  auth_errors_max = 0;
  rcpt_script = none;
  rcpt_relay = false;
  rcpt_errors_max = 0;
  rcpt_max = 0;
  rcpt_dsn = false;
  rcpt_lookup_domain = none;
  rcpt_lookup_addresses = none;
  rcpt_lookup_expn = none;
  rcpt_lookup_vrfy = none;
  max_message_size = 0;
  verify_iprev = relaxed;
  verify_spf_ehlo = relaxed;
  verify_spf_mail_from = relaxed;
  dnsbl_policy = 0;
}
