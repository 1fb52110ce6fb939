-- ===== src/Tests/Deliveries.antt =====
-- Throttles and deliveries.
use smtp_server.Base.{◌*◌, ◌≤◌, ◌<◌, refl, ◌++◌, [], ◌∷◌, none, some, arith, Bytes, suc}
use smtp_server.Core.Key.{Throttle}
use smtp_server.Core.Limiter.{RateLimiter, new_rate, parts, nanos}
use smtp_server.Core.Limiter.Rates.{allowed, allowed-new_rate, repeated_calls-allowed}
use smtp_server.Queue.Envelopes.{message_envelope}
use smtp_server.Queue.Throttle.{Table, is_allowed, drop_entry}
use smtp_server.Queue.Throttle.InFlight.{Accounts, is_allowed-Accounts}
use smtp_server.Queue.Throttle.Released.{drop_entry-Accounts}
use smtp_server.Queue.Delivery.{has_pending_delivery, start_delivery, report}
use smtp_server.Queue.Delivery.Flight.{in_flight_of, start_delivery-Accounts}
use smtp_server.Queue.Delivery.Outcome.{
  IsPutBack, report-IsPutBack, IsContinued, start_delivery-IsContinued,
}
use smtp_server.Tests.Samples.{codes, morning, letter}

abbrev two_at_once : Throttle
two_at_once = record {
  conditions = [];
  keys = 8;
  concurrency = some 2;
  rate = some (record { requests = 10; period = 60 });
}

-- One delivery is in flight.
abbrev table : Table
table =
    (
      codes "k",
      record { rate = none; concurrency = some (record { max_concurrent = 2; concurrent = 1 }) },
    )
    ∷ []

table-Accounts : Accounts table (0 ∷ [])
table-Accounts = ((omega arith, refl, omega arith), λ n. ground arith)

abbrev same : Bytes → Bytes
same key = key

is_allowed-Accounts_example :
    (let r = is_allowed same (5_000 * nanos) two_at_once (message_envelope letter) (0 ∷ []) table in
      Accounts r.2 r.1)
is_allowed-Accounts_example =
    is_allowed-Accounts same (5_000 * nanos) two_at_once (message_envelope letter) (0 ∷ []) table
      (omega arith) table-Accounts

drop_entry-Accounts_example : Accounts (drop_entry 0 table) []
drop_entry-Accounts_example = drop_entry-Accounts 0 [] table table-Accounts

allowed-new_rate_example : allowed 100 5_000 (new_rate 5_000 10 60) ≤ 10
allowed-new_rate_example = allowed-new_rate 100 5_000 10 60 (omega arith)

-- A request was allowed a nanosecond ago, and nothing is left.
abbrev used_up : RateLimiter
used_up = record { max_requests = 1; max_interval = 3_600; instant = 5_000; credit = 0 }

repeated_calls-allowed_example : 0 < allowed (suc (parts used_up)) 5_001 used_up
repeated_calls-allowed_example = repeated_calls-allowed 5_001 used_up (omega arith) (omega arith)

report-IsPutBack_example :
    IsPutBack morning
      (record { max_concurrent = 2; concurrent = 0 } ∷ [])
      letter
      []
      (report morning (record { max_concurrent = 2; concurrent = 0 } ∷ []) letter []).0
report-IsPutBack_example =
    report-IsPutBack morning (record { max_concurrent = 2; concurrent = 0 } ∷ []) letter [] refl

start_delivery-IsContinued_example :
    IsContinued morning
      (has_pending_delivery morning.instant letter).1
      (start_delivery same (λ m. m) morning (two_at_once ∷ []) letter table).0
unfolding has_pending_delivery
start_delivery-IsContinued_example =
    start_delivery-IsContinued same (λ m. m) morning (two_at_once ∷ []) letter table refl

start_delivery-Accounts_example :
    (let r = start_delivery same (λ m. m) morning (two_at_once ∷ []) letter table in
      Accounts r.1 ((0 ∷ []) ++ in_flight_of r.0))
start_delivery-Accounts_example =
    start_delivery-Accounts same (λ m. m) (0 ∷ []) morning (two_at_once ∷ []) letter table
      (omega arith, tt) table-Accounts
