-- ===== src/Tests/Server.antt =====
-- The server that the clients of the tests connect to.
use smtp_server.Base.{ℕ, Bool, true, false, [], Option, none, some, Bytes, bytes_eq}
use smtp_server.Base.Texts.{codes, line}
use smtp_server.Core.Conditions.Eval.{IfBlock}
use smtp_server.Core.Envelope.{v4}
use smtp_server.Session.Params.{Credentials, plain, xoauth2, oauth_bearer, relaxed, strict, disable}
use smtp_server.Session.State.{ServerInstance, new_session, pass, other}
use smtp_server.Session.Config.{SessionConfig}
use smtp_server.Session.Conn.{World, Conn}
use smtp_server.Base.Flags.{Flags}
use smtp_server.Session.Parameters.{MailFrom}
use smtp_server.Session.Rcpt.{RcptTo}
use smtp_server.Session.Ehlo.{Mechanisms, EhloResponse}
use smtp_server.Session.Build.{QueueTimes}
use smtp_server.Session.Received.{Authority, DataConfig, no_seal, accept, queued}
use smtp_server.Session.Connection.{Tls}

abbrev pub always : {T : Type 0} → T → IfBlock T
always v = record { if_then = []; default = v }

abbrev pub knows : Credentials → Option Bool
unfolding bytes_eq
knows (plain username secret) = some (bytes_eq secret (codes "secret"))
knows (xoauth2 username secret) = some false
knows (oauth_bearer token) = none

abbrev pub ours : Bytes → Option Bool
unfolding bytes_eq
ours domain = some (bytes_eq domain (codes "here.org"))

abbrev pub mailboxes : Bytes → Option Bool
unfolding bytes_eq
mailboxes address = some (bytes_eq address (codes "jo@here.org"))

abbrev pub config : SessionConfig
config = record {
  duration = always 1_000;
  transfer_limit = always 500;
  throttle = record { connect = []; mail_from = []; rcpt_to = [] };
  connect_script = always none;
  ehlo = record {
    ehlo_script = always none;
    ehlo_require = always true;
    reject_non_fqdn = always false;
  };
  auth = record {
    auth_lookup = always (some knows);
    mechanisms = always 3;
    auth_require = always false;
    auth_errors_max = always 2;
  };
  mail_script = always none;
  rcpt = record {
    rcpt_script = always none;
    relay = always false;
    lookup_domains = always (some ours);
    lookup_addresses = always (some mailboxes);
    lookup_expn = always none;
    lookup_vrfy = always none;
    rcpt_errors_max = always 3;
    max_recipients = always 10;
  };
  max_messages = always 5;
  max_message_size = always 100;
  extensions = record {
    pipelining = always true;
    chunking = always true;
    requiretls = always false;
    dsn = always true;
    no_soliciting = always none;
    future_release_max = always (some 60);
    deliver_by = always (some 3_600);
    mt_priority = always none;
  };
  verify = record {
    spf_ehlo = always strict;
    spf_mail_from = always disable;
    iprev = always disable;
    dnsbl = always 0;
  };
}

-- A world in which SPF fails for the host bad.org.
unfoldable pub home : World
unfolding bytes_eq
home = record {
  instant_now = 10;
  system_now = 1_700_000_000;
  blake3 = λ text. text;
  to_lowercase = λ text. text;
  has_labels = λ text. true;
  base64_decode = λ text. some text;
  into_string = λ text. text;
  is_utf8 = λ text. true;
  ipv4_lookup = λ name. none;
  iprev_of = λ ip. record { iprev_result = pass; ptr = none };
  verify_spf_helo = λ ip host here. elim (bytes_eq host (codes "bad.org")) [
    | true ↦ other (codes "Fail")
    | false ↦ pass
  ];
  check_host = λ ip domain helo here sender. pass;
  run_script = λ n s. none;
  dnsbl_domains = [];
  dnsbl_ips = [];
}

abbrev pub protocol : Flags
protocol = record {
  mail_requiretls = 1;
  mail_by_notify = 2;
  mail_by_return = 4;
  rcpt_notify_success = 1;
  rcpt_notify_failure = 2;
  rcpt_notify_delay = 4;
  rcpt_notify_never = 8;
}

abbrev pub mechanisms : Mechanisms
mechanisms = record { auth_plain = 1; auth_login = 2; auth_oauthbearer = 4; auth_xoauth2 = 8 }

abbrev pub greeting_text : EhloResponse → Bytes
greeting_text r = line "250 OK"

abbrev pub times : QueueTimes
times = record { notify = always (60, []); expire = always 3_600 }

abbrev pub mail_authority : Authority
mail_authority = record {
  parse = λ raw. some (record { from_address = []; received_headers = 0 });
  verify_dkim = λ raw. [];
  verify_arc = λ raw. no_seal;
  verify_dmarc = λ raw results domain spf. record {
    policy_reject = false;
    spf_result = pass;
    dkim_result = pass;
  };
  pipe = λ n s raw. none;
  run_data_script = λ n s raw. accept;
  headers = λ s m raw. [];
  queue_id = 7;
  enqueue = λ m headers raw. queued;
}

abbrev pub data_config : DataConfig
data_config = record {
  max_received_headers = always 10;
  dkim_verify = always relaxed;
  arc_verify = always relaxed;
  dmarc_verify = always disable;
  arc_seals = always false;
  pipe_commands = [];
  data_script = always none;
  analysis_addresses = [];
  analysis_forward = true;
}

abbrev pub tls : Tls
tls = record { tls_implicit = false; acceptor = some true }

abbrev pub server : ServerInstance
server = record { listener_id = 1; is_smtp = true; hostname = codes "mx.here.org" }

abbrev pub accepted : Conn
accepted = record {
  session = new_session 0 server (v4 2_130_706_433) (v4 167_772_161) [];
  table = [];
  written = [];
  writes_left = 100;
  panicked = false;
}

abbrev pub mail_of : ℕ → MailFrom
mail_of by = record {
  address = codes "ann@there.org";
  flags = 2;
  size = 0;
  by = by;
  env_id = none;
  mt_priority = 0;
  hold_for = 0;
  hold_until = 0;
}

abbrev pub rcpt_of : Bytes → RcptTo
rcpt_of address = record { rcpt_address = address; rcpt_flags = 0; orcpt = none }
