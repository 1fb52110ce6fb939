-- ===== src/Core/Limiter.antt =====
-- src/core/throttle.rs: limiters of rates and of concurrent work.
--
-- The source counts a rate in floating point. Here the arithmetic is exact: what is left of a rate
-- is counted in parts of a request, as many as the interval has nanoseconds. The interval is not
-- zero.
pub mod Rates
use smtp_server.Base.{
  ℕ, ◌+◌, ◌-◌, ◌*◌, ◌/◌, ◌%◌, ◌^◌, Bool, true, false, List, [], ◌∷◌, Option, none, some, ltb, leb,
  if◌then◌else◌,
}
use smtp_server.Core.Key.{Throttle, Rate}

abbrev pub nanos : ℕ
nanos = 1_000_000_000

pub record RateLimiter : Type 0 where
  pub max_requests : ℕ
  pub max_interval : ℕ
  pub instant : ℕ
  pub credit : ℕ

-- One request.
abbrev pub parts : RateLimiter → ℕ
parts r = r.max_interval * nanos

unfoldable pub new_rate : ℕ → ℕ → ℕ → RateLimiter
new_rate now max_requests max_interval = record {
  max_requests = max_requests;
  max_interval = max_interval;
  instant = now;
  credit = max_requests * (max_interval * nanos);
}

abbrev pub refilled : ℕ → RateLimiter → ℕ
refilled now r =
    let credit = r.credit + (now - r.instant) * r.max_requests in
    let most = r.max_requests * parts r in if ltb most credit then most else credit

-- `RateLimiter::is_allowed`: the instant moves only when a request is allowed.
unfoldable pub rate_is_allowed : ℕ → RateLimiter → Bool × RateLimiter
rate_is_allowed now r =
    let credit = refilled now r in
    if leb (parts r) credit
    then (true, record r { instant = now; credit = credit - parts r })
    else (false, record r { credit = credit })

-- `RateLimiter::retry_at`
unfoldable pub retry_at : ℕ → RateLimiter → ℕ
retry_at now r = now + (r.max_interval - (now - r.instant) / nanos) * nanos

-- `ConcurrencyLimiter` with its counter, which the limiter in the table, its clones and the work in
-- flight share.
pub record Concurrency : Type 0 where
  pub max_concurrent : ℕ
  pub concurrent : ℕ

abbrev pub new_concurrency : ℕ → Concurrency
new_concurrency max_concurrent = record { max_concurrent = max_concurrent; concurrent = 0 }

-- `ConcurrencyLimiter::is_allowed`: whether there is an `InFlight`, and the counter.
unfoldable pub concurrency_is_allowed : Concurrency → Bool × Concurrency
concurrency_is_allowed c =
    if ltb c.concurrent c.max_concurrent
    then (true, record c { concurrent = (c.concurrent + 1) % 2 ^ 64 })
    else (false, c)

-- `Drop for InFlight`
unfoldable pub drop_in_flight : Concurrency → Concurrency
drop_in_flight c = record c { concurrent = (c.concurrent + (2 ^ 64 - 1)) % 2 ^ 64 }

pub record Limiter : Type 0 where
  pub rate : Option RateLimiter
  pub concurrency : Option Concurrency
