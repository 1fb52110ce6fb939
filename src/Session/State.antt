-- ===== src/Session/State.antt =====
-- src/core/mod.rs: what a session knows, and src/inbound/session.rs: the session as an envelope.
--
-- Of what the packages of mail authentication find out about the client, there is what the session
-- reads. A signed word is the pattern of its two's complement.
use smtp_server.Base.{ℕ, Bool, false, List, [], ◌∷◌, Option, none, some, Bytes}
use smtp_server.Core.Envelope.{Envelope, IpAddr}
use smtp_server.Session.Params.{SessionParameters, no_parameters}

-- `IprevResult`, `SpfResult`: a result that is not told apart has its name.
pub data Verdict : Type 0 where
  pass temp_error : Verdict
  other : Bytes → Verdict

pub record IprevOutput : Type 0 where
  pub iprev_result : Verdict
  pub ptr : Option (List Bytes)

pub record SessionAddress : Type 0 where
  pub address : Bytes
  pub address_lcase : Bytes
  pub domain : Bytes
  pub flags : ℕ
  pub dsn_info : Option Bytes

pub record SessionData : Type 0 where
  pub local_ip : IpAddr
  pub remote_ip : IpAddr
  pub helo_domain : Bytes
  pub mail_from : Option SessionAddress
  pub rcpt_to : List SessionAddress
  pub rcpt_errors : ℕ
  pub message : Bytes
  pub authenticated_as : Bytes
  pub auth_errors : ℕ
  pub priority : ℕ
  pub delivery_by : ℕ
  pub future_release : ℕ
  pub valid_until : ℕ
  pub bytes_left : ℕ
  pub messages_sent : ℕ
  pub iprev : Option IprevOutput
  pub spf_ehlo : Option Verdict
  pub spf_mail_from : Option Verdict
  pub dnsbl_error : Option Bytes

-- `ServerInstance`, the listener that the session came in by
pub record ServerInstance : Type 0 where
  pub listener_id : ℕ
  pub is_smtp : Bool
  pub hostname : Bytes

-- A session, whether its stream is TLS, and its work in flight.
pub record Session : Type 0 where
  pub instance_data : ServerInstance
  pub session_data : SessionData
  pub params : SessionParameters
  pub is_tls : Bool
  pub in_flight : List ℕ

-- `SessionData::new`, at a time
abbrev pub new_data : ℕ → IpAddr → IpAddr → SessionData
new_data now local_ip remote_ip = record {
  local_ip = local_ip;
  remote_ip = remote_ip;
  helo_domain = [];
  mail_from = none;
  rcpt_to = [];
  rcpt_errors = 0;
  message = [];
  authenticated_as = [];
  auth_errors = 0;
  priority = 0;
  delivery_by = 0;
  future_release = 0;
  valid_until = now;
  bytes_left = 0;
  messages_sent = 0;
  iprev = none;
  spf_ehlo = none;
  spf_mail_from = none;
  dnsbl_error = none;
}

-- `Session`, when a connection is accepted
abbrev pub new_session : ℕ → ServerInstance → IpAddr → IpAddr → List ℕ → Session
new_session now i local_ip remote_ip in_flight = record {
  instance_data = i;
  session_data = new_data now local_ip remote_ip;
  params = no_parameters;
  is_tls = false;
  in_flight = in_flight;
}

-- `Session::reset`
abbrev pub reset_data : SessionData → SessionData
reset_data d = record d {
  mail_from = none;
  spf_mail_from = none;
  rcpt_to = [];
  message = [];
  priority = 0;
  delivery_by = 0;
  future_release = 0;
}

-- `slice::last`
abbrev pub last : List SessionAddress → Option SessionAddress
last [] = none
last (a ∷ []) = some a
last (a ∷ b ∷ addresses) = last (b ∷ addresses)

-- `unwrap_or_default` of a part of an address
abbrev pub part_or_empty : (SessionAddress → Bytes) → Option SessionAddress → Bytes
part_or_empty part none = []
part_or_empty part (some a) = part a

abbrev pub session_envelope : Session → Envelope
session_envelope s = record {
  local_ip = s.session_data.local_ip;
  remote_ip = s.session_data.remote_ip;
  sender_domain = part_or_empty (λ a. a.domain) s.session_data.mail_from;
  sender = part_or_empty (λ a. a.address_lcase) s.session_data.mail_from;
  rcpt_domain = part_or_empty (λ a. a.domain) (last s.session_data.rcpt_to);
  rcpt = part_or_empty (λ a. a.address_lcase) (last s.session_data.rcpt_to);
  helo_domain = s.session_data.helo_domain;
  authenticated_as = s.session_data.authenticated_as;
  mx = [];
  listener_id = s.instance_data.listener_id;
  priority = s.session_data.priority;
}
