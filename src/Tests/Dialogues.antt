-- ===== src/Tests/Dialogues.antt =====
-- A dialogue with a host.
use smtp_server.Base.{
  ℕ, ◌/◌, ◌≡◌, refl, true, false, List, [], ◌∷◌, none, Bytes, ◌==◌, if◌then◌else◌,
}
use smtp_server.Base.Texts.{codes, line}
use smtp_server.Queue.Message.{scheduled, completed, Response, Recipient, Message}
use smtp_server.Outbound.Errors.{
  ClientError, Severity, positive_completion, permanent_negative_completion,
  transient_negative_completion,
}
use smtp_server.Outbound.Commands.{answered, replied, MailFlags, Capabilities, Host, build_rcpt_to}
use smtp_server.Outbound.Session.{deliver}
use smtp_server.Outbound.Session.Counts.{IsSettledWith}
use smtp_server.Outbound.Session.Outcome.{deliver-IsSettledWith}
use smtp_server.Tests.Server.{protocol}

abbrev mail_protocol : MailFlags
mail_protocol = record { mail_smtputf8 = 8; mail_ret_full = 16; mail_ret_hdrs = 32 }

abbrev severity : Response → Severity
severity r =
    if r.code / 100 == 2
    then positive_completion
    else if r.code / 100 == 5
    then permanent_negative_completion
    else transient_negative_completion

abbrev reply_of : ℕ → Response
reply_of code = record { code = code; esc0 = 2; esc1 = 0; esc2 = 0; message = codes "done" }

abbrev display : ClientError → Bytes
display e = codes "error"

abbrev same : Bytes → Bytes
same text = text

abbrev capable : Capabilities
capable = record {
  ext_size = true;
  ext_require_tls = false;
  ext_smtp_utf8 = false;
  ext_dsn = true;
  ext_chunking = true;
}

-- The host refuses the second recipient for good.
abbrev host : Host
host = record {
  hostname = codes "mx.far.org";
  local_hostname = codes "mx.here.org";
  is_smtp = true;
  hello = answered capable;
  authentication = none;
  hello_again = answered capable;
  mail_answer = λ cmd. replied (reply_of 250);
  rcpt_answer = λ position cmd. replied (reply_of (if position == 1 then 550 else 250));
  file_is_read = true;
  sending = λ cmd. answered tt;
  data_answer = answered (reply_of 250);
  lmtp_answers = answered [];
}

abbrev recipient_of : Bytes → Recipient
recipient_of address = record {
  domain_idx = 0;
  address = address;
  address_lcase = address;
  status = scheduled;
  flags = 6;
  orcpt = none;
}

abbrev outgoing : Message
outgoing = record {
  id = 1;
  created = 0;
  path = [];
  return_path = codes "ann@here.org";
  return_path_lcase = codes "ann@here.org";
  return_path_domain = codes "here.org";
  recipients = [];
  domains = [];
  flags = 0;
  env_id = none;
  priority = 0;
  size = 100;
  queue_refs = [];
}

abbrev addressed : List Recipient
addressed = recipient_of (codes "jo@far.org") ∷ recipient_of (codes "al@far.org") ∷ []

rcpt_command :
    build_rcpt_to protocol (recipient_of (codes "jo@far.org")) capable
    ≡ line "RCPT TO:<jo@far.org> NOTIFY=DELAY,FAILURE"
unfolding build_rcpt_to
rcpt_command = refl

all_are_settled :
    (deliver protocol mail_protocol severity display same host outgoing addressed).1 ≡ completed tt
unfolding deliver
all_are_settled = refl

deliver-IsSettledWith_example :
    IsSettledWith (deliver protocol mail_protocol severity display same host outgoing addressed)
deliver-IsSettledWith_example =
    deliver-IsSettledWith protocol mail_protocol severity display same host outgoing addressed
