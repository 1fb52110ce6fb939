-- ===== src/Tests/Samples.antt =====
-- The data of the tests: clocks, and a message with two domains.
pub use smtp_server.Base.Texts.{codes}
use smtp_server.Base.{◌*◌, false, [], ◌∷◌, none, some, Bytes}
use smtp_server.Queue.Message.{
  scheduled, completed, temporary_failure, Error, unexpected_response, Domain, Recipient, Message,
  Clock, nanos,
}

abbrev pub morning : Clock
morning = record { system = 1_700_000_000; instant = 5_000 * nanos }

abbrev pub restarted : Clock
restarted = record { system = 1_700_000_030; instant = 7 * nanos }

abbrev pub busy : Error
busy = unexpected_response (record {
  hostname = record { entity = codes "mx.foobar.org"; details = codes "RCPT TO:<joe@foobar.org>" };
  response = record { code = 450; esc0 = 4; esc1 = 2; esc2 = 0; message = codes "try later" };
})

abbrev pub first_domain : Domain
first_domain = record {
  domain = codes "foobar.org";
  retry = record { due = 5_060 * nanos; inner = 1 };
  notify = record { due = 8_600 * nanos; inner = 0 };
  expires = 90_000 * nanos;
  status = temporary_failure busy;
  changed = false;
}

abbrev pub second_domain : Domain
second_domain = record {
  domain = codes "example.org";
  retry = record { due = 5_000 * nanos; inner = 0 };
  notify = record { due = 9_000 * nanos; inner = 0 };
  expires = 91_000 * nanos;
  status = scheduled;
  changed = false;
}

abbrev pub first_rcpt : Recipient
first_rcpt = record {
  domain_idx = 0;
  address = codes "Joe@foobar.org";
  address_lcase = codes "joe@foobar.org";
  status = scheduled;
  flags = 2;
  orcpt = some (codes "joe");
}

abbrev pub second_rcpt : Recipient
second_rcpt = record {
  domain_idx = 1;
  address = codes "ann@example.org";
  address_lcase = codes "ann@example.org";
  status = completed (record {
    hostname = codes "mx.example.org";
    response = record { code = 250; esc0 = 2; esc1 = 1; esc2 = 5; message = codes "ok" };
  });
  flags = 0;
  orcpt = none;
}

abbrev pub letter : Message
letter = record {
  id = 17;
  created = 1_699_999_990;
  path = codes "/q/17.msg";
  return_path = codes "bill@foobar.net";
  return_path_lcase = codes "bill@foobar.net";
  return_path_domain = codes "foobar.net";
  recipients = first_rcpt ∷ second_rcpt ∷ [];
  domains = first_domain ∷ second_domain ∷ [];
  flags = 0;
  env_id = none;
  priority = 65_534;
  size = 1_200;
  queue_refs = [];
}

-- ASCII letters in lower case.
abbrev pub lower : Bytes → Bytes
lower s = s
