-- ===== src/Queue/Envelopes.antt =====
-- src/queue/mod.rs: a message, and a message with one of its domains or recipients, as envelopes.
use smtp_server.Base.{[], Bytes}
use smtp_server.Core.Envelope.{Envelope, IpAddr, unspecified}
use smtp_server.Queue.Message.{Message}

abbrev pub message_envelope : Message → Envelope
message_envelope m = record {
  local_ip = unspecified;
  remote_ip = unspecified;
  sender_domain = m.return_path_domain;
  sender = m.return_path_lcase;
  rcpt_domain = [];
  rcpt = [];
  helo_domain = [];
  authenticated_as = [];
  mx = [];
  listener_id = 0;
  priority = m.priority;
}

-- `SimpleEnvelope::new_rcpt`
abbrev pub simple_envelope : Message → Bytes → Bytes → Envelope
simple_envelope m domain recipient = record (message_envelope m) {
  rcpt_domain = domain;
  rcpt = recipient;
}

-- `QueueEnvelope`, during a delivery
abbrev pub queue_envelope : Message → Bytes → Bytes → IpAddr → IpAddr → Envelope
queue_envelope m domain mx remote_ip local_ip = record (message_envelope m) {
  local_ip = local_ip;
  remote_ip = remote_ip;
  rcpt_domain = domain;
  mx = mx;
}

-- `impl Envelope for &str`
abbrev pub domain_envelope : Bytes → Envelope
domain_envelope domain = record {
  local_ip = unspecified;
  remote_ip = unspecified;
  sender_domain = [];
  sender = [];
  rcpt_domain = domain;
  rcpt = [];
  helo_domain = [];
  authenticated_as = [];
  mx = [];
  listener_id = 0;
  priority = 0;
}
