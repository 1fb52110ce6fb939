-- ===== src/Queue/Throttle.antt =====
-- src/queue/throttle.rs: the throttles of the queue, and the limiters in flight.
pub mod InFlight
pub mod Released
use smtp_server.Base.{
  ℕ, suc, ◌-◌, Bool, true, false, ◌||◌, List, [], ◌∷◌, ◌++◌, Option, none, some, Bytes, bytes_eq,
  ◌==◌, if◌then◌else◌,
}
use smtp_server.Core.Envelope.{Envelope}
use smtp_server.Core.Conditions.Eval.{Condition, eval}
use smtp_server.Core.Key.{Throttle, Rate, throttle_key}
use smtp_server.Core.Limiter.{
  RateLimiter, Concurrency, Limiter, new_rate, rate_is_allowed, retry_at, new_concurrency,
  concurrency_is_allowed, drop_in_flight,
}
use smtp_server.Queue.Message.{Domain, temporary_failure, rate_limited, concurrency_limited}
use smtp_server.Queue.Manager.State.{ConcurrencyLimiter}

-- `throttle::Error`; a limiter is known by its place in the table.
pub data Refusal : Type 0 where
  concurrency : ConcurrencyLimiter → Refusal
  rate : ℕ → Refusal

abbrev pub Table : Type 0
Table = List (Bytes × Limiter)

-- The place of what is put in flight, the refusal, and the limiter after.
pub record Outcome : Type 0 where
  pub in_flight : Option ℕ
  pub refusal : Option Refusal
  pub limiter : Limiter

abbrev pub check_rate : ℕ → Option ℕ → Option RateLimiter → Option Concurrency → Outcome
check_rate now in_flight none c = record {
  in_flight = in_flight;
  refusal = none;
  limiter = record { rate = none; concurrency = c };
}
check_rate now in_flight (some r) c =
    let (ok, r') = rate_is_allowed now r in
    record {
      in_flight = in_flight;
      refusal = if ok then none else some (rate (retry_at now r'));
      limiter = record { rate = some r'; concurrency = c };
    }

-- The entry is occupied.
unfoldable pub check_limiter : ℕ → ℕ → Option RateLimiter → Option Concurrency → Outcome
check_limiter now place r none = check_rate now none r none
check_limiter now place r (some c) =
    let (ok, c') = concurrency_is_allowed c in
    if ok then check_rate now (some place) r (some c') else record {
      in_flight = none;
      refusal =
          some (concurrency (record { max_concurrent = c.max_concurrent; concurrent = place }));
      limiter = record { rate = r; concurrency = some c };
    }

abbrev pub first_rate : ℕ → Option Rate → Option RateLimiter
first_rate now none = none
first_rate now (some r) = some (rate_is_allowed now (new_rate now r.requests r.period)).1

-- The entry is vacant: a new limiter, whose answers to the first request are not looked at.
unfoldable pub first_limiter : ℕ → ℕ → Option Rate → Option ℕ → Outcome
first_limiter now place r none = record {
  in_flight = none;
  refusal = none;
  limiter = record { rate = first_rate now r; concurrency = none };
}
first_limiter now place r (some n) =
    let (ok, c) = concurrency_is_allowed (new_concurrency n) in
    record {
      in_flight = if ok then some place else none;
      refusal = none;
      limiter = record { rate = first_rate now r; concurrency = some c };
    }

-- `self.throttle.entry(key)`
unfoldable pub check_entry : ℕ → Bytes → Throttle → ℕ → Table → Option ℕ × Option Refusal × Table
unfolding check_limiter first_limiter
check_entry now key t place [] =
    let o = first_limiter now place t.rate t.concurrency in
    (o.in_flight, o.refusal, (key, o.limiter) ∷ [])
check_entry now key t place ((k, l) ∷ table) =
    let rest = check_entry now key t (suc place) table in
    let o = check_limiter now place l.rate l.concurrency in
    if bytes_eq k key
    then (o.in_flight, o.refusal, (k, o.limiter) ∷ table)
    else (rest.0, rest.1, (k, l) ∷ rest.2)

abbrev pub push_some : List ℕ → Option ℕ → List ℕ
push_some in_flight none = in_flight
push_some in_flight (some place) = in_flight ++ place ∷ []

abbrev pub applies : Throttle → Envelope → Bool
applies t e = elim t.conditions [ [] ↦ true | c ∷ cs ↦ eval (c ∷ cs) e ]

module _ (blake3 : Bytes → Bytes) where
  -- `QueueCore::is_allowed`: the refusal if there is one, the work in flight, and the table.
  unfoldable pub is_allowed :
      ℕ → Throttle → Envelope → List ℕ → Table → Option Refusal × List ℕ × Table
  unfolding check_entry
  is_allowed now t e in_flight table =
      let r = check_entry now (blake3 (throttle_key t e)) t 0 table in
      if applies t e then (r.1, push_some in_flight r.0, r.2) else (none, in_flight, table)

-- What goes out of flight.
unfoldable pub drop_entry : ℕ → Table → Table
drop_entry place [] = []
drop_entry place ((k, l) ∷ table) =
    let rest = drop_entry (place - 1) table in
    if place == 0
    then (
      k,
      record l {
        concurrency = elim l.concurrency [ none ↦ none | some c ↦ some (drop_in_flight c) ];
      },
    )
      ∷ table
    else (k, l) ∷ rest

-- `Domain::set_throttle_error`
unfoldable pub set_throttle_error :
    Refusal → Domain → List ConcurrencyLimiter → Domain × List ConcurrencyLimiter
set_throttle_error (concurrency l) d on_hold =
    (record d { status = temporary_failure concurrency_limited; changed = true }, on_hold ++ l ∷ [])
set_throttle_error (rate retry_at) d on_hold = (
  record d {
    retry = record (d.retry) { due = retry_at };
    status = temporary_failure rate_limited;
    changed = true;
  },
  on_hold,
)
