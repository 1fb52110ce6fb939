-- ===== src/Tests/Notifications.antt =====
-- Status notifications.
use smtp_server.Base.{ℕ, ◌*◌, ◌≡◌, ◌≢◌, ◌++◌, refl, false, [], ◌∷◌, none, Bytes, arith, inl, inr}
use smtp_server.Base.Texts.{codes, line}
use smtp_server.Core.Conditions.Eval.{if_block_eval, if_then_eval}
use smtp_server.Queue.Message.{
  scheduled, temporary_failure, permanent_failure, rate_limited, dns_error, Domain, Recipient,
  Message, Clock, nanos,
}
use smtp_server.Queue.Dsn.{error_text}
use smtp_server.Queue.Dsn.Headers.{header_end}
use smtp_server.Queue.Dsn.Build.{build_dsn}
use smtp_server.Queue.Dsn.Settled.{build_dsn-none}
use smtp_server.Queue.Dsn.Marks.{AreMarked, build_dsn-AreMarked, build_dsn-failure}
use smtp_server.Session.Build.{QueueTimes}
use smtp_server.Tests.Server.{protocol}

abbrev date : ℕ → Bytes
date n = codes "date"

abbrev now : Clock
now = record { system = 1_700_000_000; instant = 5_000 * nanos }

abbrev times : QueueTimes
times = record {
  notify = record { if_then = []; default = (60 * nanos, 3_600 * nanos ∷ []) };
  expire = record { if_then = []; default = 86_400 * nanos };
}

-- One domain waits, the other has failed.
abbrev waiting : Domain
waiting = record {
  domain = codes "far.org";
  retry = record { due = 6_000 * nanos; inner = 1 };
  notify = record { due = 4_000 * nanos; inner = 0 };
  expires = 9_000 * nanos;
  status = temporary_failure rate_limited;
  changed = false;
}

abbrev gone : Domain
gone = record waiting {
  domain = codes "gone.org";
  status = permanent_failure (dns_error (codes "no such name"));
}

abbrev recipient_of : ℕ → Bytes → Recipient
recipient_of idx address = record {
  domain_idx = idx;
  address = address;
  address_lcase = address;
  status = scheduled;
  flags = 6;
  orcpt = none;
}

abbrev undelivered : Message
undelivered = record {
  id = 1;
  created = 1_699_999_000;
  path = [];
  return_path = codes "ann@here.org";
  return_path_lcase = codes "ann@here.org";
  return_path_domain = codes "here.org";
  recipients = recipient_of 0 (codes "jo@far.org") ∷ recipient_of 1 (codes "al@gone.org") ∷ [];
  domains = waiting ∷ gone ∷ [];
  flags = 0;
  env_id = none;
  priority = 0;
  size = 100;
  queue_refs = [];
}

failed_lookup :
    error_text (dns_error (codes "no such name")) (codes "al@gone.org") (codes "gone.org")
    ≡ line "<al@gone.org> (failed to lookup 'gone.org': no such name)"
unfolding error_text
failed_lookup = refl

-- The headers end past the empty line.
headers_end : header_end 0 0 12 (codes "A: b" ++ (10 ∷ 10 ∷ codes "hello")) ≡ 6
unfolding header_end
headers_end = refl

build_dsn-none_example :
    (build_dsn protocol date now times
      (codes "mx.here.org")
      (build_dsn protocol date now times (codes "mx.here.org") undelivered).1).0
    ≡ none
unfolding if_block_eval if_then_eval
build_dsn-none_example =
    build_dsn-none protocol date now times (codes "mx.here.org") undelivered
      (λ domain. (omega arith, (omega arith, tt))) ((λ p. omega arith), ((λ p. omega arith), tt))
      ((λ d e t. cc t), ((λ d e t. cc t), tt))

build_dsn-AreMarked_example :
    AreMarked undelivered.domains undelivered.recipients
      (build_dsn protocol date now times (codes "mx.here.org") undelivered).1.recipients
build_dsn-AreMarked_example =
    build_dsn-AreMarked protocol date now times (codes "mx.here.org") undelivered

build_dsn-failure_example :
    (build_dsn protocol date now times (codes "mx.here.org") undelivered).0 ≢ none
build_dsn-failure_example =
    build_dsn-failure protocol date now times (codes "mx.here.org") undelivered
      (recipient_of 1 (codes "al@gone.org")) (inr (inl refl)) refl refl refl
