-- ===== src/Tests/Serialization.antt =====
-- The queue file.
use smtp_server.Base.{◌*◌, ◌≡◌, ◌++◌, refl, true, [], ◌∷◌, some, arith}
use smtp_server.Base.Utf8.{is_utf8}
use smtp_server.Queue.Message.{
  Domain, Recipient, Message, permanent_failure, rate_limited, Clock, nanos, rcpt_status_changed,
  instant_to_timestamp, to_instant,
}
use smtp_server.Queue.Serialize.Numbers.{i16_deserialize}
use smtp_server.Queue.Serialize.Writer.{message_serialize, serialize_changes}
use smtp_server.Queue.Serialize.Reader.{message_deserialize}
use smtp_server.Queue.Serialize.Log.{DomainFits, StateFits}
use smtp_server.Queue.Serialize.Header.{MessageFits}
use smtp_server.Queue.Serialize.RoundTrip.{restored, deserialize-serialize}
use smtp_server.Queue.Serialize.Changes.{TracksMessage, deserialize-append_changes}
use smtp_server.Queue.Serialize.Settled.{IsSaved, serialize_changes-again}
use smtp_server.Tests.Samples.{
  codes, morning, restarted, first_domain, second_domain, first_rcpt, second_rcpt, letter, lower,
}

negative_priority : i16_deserialize (codes "-2 ") ≡ some (65_534, [])
unfolding i16_deserialize
negative_priority = refl

first_domain-DomainFits : DomainFits morning first_domain
unfolding is_utf8 instant_to_timestamp
first_domain-DomainFits = record {
  name = record { utf8 = refl; short = omega arith };
  expires = omega arith;
  retry = (omega arith, omega arith);
  notify = (omega arith, omega arith);
  status = record {
    hostname = record {
      entity = record { utf8 = refl; short = omega arith };
      details = record { utf8 = refl; short = omega arith };
    };
    response = record {
      code = omega arith;
      esc0 = omega arith;
      esc1 = omega arith;
      esc2 = omega arith;
      message = record { utf8 = refl; short = omega arith };
    };
  };
}

second_domain-DomainFits : DomainFits morning second_domain
unfolding is_utf8 instant_to_timestamp
second_domain-DomainFits = record {
  name = record { utf8 = refl; short = omega arith };
  expires = omega arith;
  retry = (omega arith, omega arith);
  notify = (omega arith, omega arith);
  status = tt;
}

second_state : StateFits second_rcpt
unfolding is_utf8
second_state = record {
  flags = omega arith;
  status = record {
    hostname = record { utf8 = refl; short = omega arith };
    response = record {
      code = omega arith;
      esc0 = omega arith;
      esc1 = omega arith;
      esc2 = omega arith;
      message = record { utf8 = refl; short = omega arith };
    };
  };
}

letter-MessageFits : MessageFits morning letter
unfolding is_utf8
letter-MessageFits = record {
  created = omega arith;
  return_path = record { utf8 = refl; short = omega arith };
  env_id = tt;
  flags = omega arith;
  priority = omega arith;
  num_domains = omega arith;
  domains = (first_domain-DomainFits, (second_domain-DomainFits, tt));
  num_recipients = omega arith;
  recipients = (
    record {
      index = omega arith;
      address = record { utf8 = refl; short = omega arith };
      orcpt = (record { utf8 = refl; short = omega arith }, (λ e. cc));
      state = record { flags = omega arith; status = tt };
    },
    (
      record {
        index = omega arith;
        address = record { utf8 = refl; short = omega arith };
        orcpt = tt;
        state = second_state;
      },
      tt,
    ),
  );
}

deserialize-serialize_example :
    message_deserialize lower restarted (message_serialize morning letter)
    ≡ some (restored lower morning restarted letter)
deserialize-serialize_example =
    deserialize-serialize lower morning restarted letter letter-MessageFits

-- A minute later the second domain has failed for good, and its recipient is marked.
abbrev later : Clock
later = record { system = 1_700_000_060; instant = 5_060 * nanos }

abbrev failed_domain : Domain
failed_domain = record second_domain { status = permanent_failure rate_limited; changed = true }

abbrev marked_rcpt : Recipient
marked_rcpt = record second_rcpt { flags = rcpt_status_changed }

abbrev attempted : Message
attempted = record letter {
  domains = first_domain ∷ failed_domain ∷ [];
  recipients = first_rcpt ∷ marked_rcpt ∷ [];
}

attempted-TracksMessage : TracksMessage morning later restarted attempted letter
unfolding instant_to_timestamp to_instant is_utf8
attempted-TracksMessage = record {
  created = refl;
  return_path = refl;
  flags = refl;
  env_id = refl;
  priority = refl;
  domains = ((refl, refl, λ _. refl), ((refl, refl, λ e. cc), tt));
  recipients = ((refl, refl, refl, λ _. refl), ((refl, refl, refl, λ e. cc), tt));
  domains_fit = (
    record {
      name = first_domain-DomainFits.name;
      expires = omega arith;
      retry = (omega arith, omega arith);
      notify = (omega arith, omega arith);
      status = first_domain-DomainFits.status;
    },
    (
      record {
        name = second_domain-DomainFits.name;
        expires = omega arith;
        retry = (omega arith, omega arith);
        notify = (omega arith, omega arith);
        status = tt;
      },
      tt,
    ),
  );
  recipients_fit = (
    record { flags = omega arith; status = tt },
    (record { flags = omega arith; status = second_state.status }, tt),
  );
}

deserialize-append_changes_example :
    message_deserialize lower restarted
      (message_serialize morning letter ++ (serialize_changes later attempted).0)
    ≡ some (restored lower later restarted (serialize_changes later attempted).1)
deserialize-append_changes_example =
    deserialize-append_changes lower morning later restarted attempted letter letter-MessageFits
      attempted-TracksMessage

serialize_changes-again_example :
    (let m' = (serialize_changes morning attempted).1 in
      IsSaved m' × (serialize_changes later m' ≡ ([], m')))
serialize_changes-again_example = serialize_changes-again morning later attempted
