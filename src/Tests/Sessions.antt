-- ===== src/Tests/Sessions.antt =====
-- Throttles of sessions.
use smtp_server.Base.{◌*◌, bytes_eq, ◌≤◌, ◌++◌, ◌≡◌, refl, [], ◌∷◌, none, some, arith, Bytes, true}
use smtp_server.Core.Envelope.{v4}
use smtp_server.Core.Key.{Throttle, Rate, throttle_key}
use smtp_server.Core.Limiter.{nanos, concurrency_is_allowed}
use smtp_server.Queue.Throttle.{Table}
use smtp_server.Queue.Throttle.InFlight.{Accounts}
use smtp_server.Session.State.{Session, ServerInstance, new_session}
use smtp_server.Session.Throttle.{SessionThrottle, stage_throttles, session_is_allowed, rcpt_key}
use smtp_server.Session.Throttle.Shared.{session_is_allowed-Accounts}
use smtp_server.Session.Throttle.Recipient.{granted, granted-bound}
use smtp_server.Tests.Samples.{codes}

abbrev listener : ServerInstance
listener = record { listener_id = 1; is_smtp = true; hostname = codes "mx.here.org" }

abbrev client : Session
client = new_session (5_600 * nanos) listener (v4 2_130_706_433) (v4 167_772_161) []

-- Two connections at the same time from one address.
abbrev two_connections : Throttle
two_connections = record {
  conditions = [];
  keys = 64;
  concurrency = some 2;
  rate = some (record { requests = 10; period = 60 });
}

abbrev limits : SessionThrottle
limits = record { connect = two_connections ∷ []; mail_from = []; rcpt_to = [] }

abbrev same : Bytes → Bytes
same key = key

-- Another session is in flight.
abbrev shared : Table
shared =
    (
      codes "k",
      record { rate = none; concurrency = some (record { max_concurrent = 2; concurrent = 1 }) },
    )
    ∷ []

client_is_allowed : (session_is_allowed same (5_000 * nanos) limits client shared).0 ≡ true
unfolding session_is_allowed bytes_eq throttle_key
client_is_allowed = refl

client_in_flight :
    (session_is_allowed same (5_000 * nanos) limits client shared).1.in_flight ≡ 1 ∷ []
unfolding session_is_allowed bytes_eq throttle_key concurrency_is_allowed
client_in_flight = refl

session_is_allowed-Accounts_example :
    (let r = session_is_allowed same (5_000 * nanos) limits client shared in
      Accounts r.2 ((0 ∷ []) ++ r.1.in_flight))
unfolding stage_throttles
session_is_allowed-Accounts_example =
    session_is_allowed-Accounts same (5_000 * nanos) limits client (0 ∷ []) shared (omega arith, tt)
      ((omega arith, refl, omega arith), λ n. ground arith)

abbrev hourly : Rate
hourly = record { requests = 3; period = 3_600 }

granted-bound_example : granted same 5_000 (codes "jo@x.org") hourly (codes "auth") 100 shared ≤ 3
unfolding bytes_eq rcpt_key
granted-bound_example =
    granted-bound same 5_000 (codes "jo@x.org") hourly (codes "auth") 100 shared refl (omega arith)
      (omega arith)
