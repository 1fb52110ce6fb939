-- ===== src/Session/Throttle.antt =====
-- src/core/throttle.rs: the throttles of a session, and those of a recipient.
--
-- The sessions share a table of limiters; a session is known to it by its work in flight.
pub mod Shared
pub mod Recipient
use smtp_server.Base.{
  ℕ, ◌+◌, Bool, true, false, ◌||◌, ◌&&◌, not, List, [], ◌∷◌, ◌++◌, Option, none, some, Bytes,
  bytes_eq, ltb, if◌then◌else◌,
}
use smtp_server.Core.Key.{Throttle, Rate, has_key, throttle_key, le_bytes}
use smtp_server.Core.Limiter.{Limiter, RateLimiter, new_rate, rate_is_allowed}
use smtp_server.Queue.Throttle.{Refusal, Table, check_entry, push_some, applies}
use smtp_server.Session.State.{Session, SessionAddress, last, part_or_empty, session_envelope}

pub record SessionThrottle : Type 0 where
  pub connect : List Throttle
  pub mail_from : List Throttle
  pub rcpt_to : List Throttle

-- The throttles of the stage that the session is at.
unfoldable pub stage_throttles : SessionThrottle → Session → List Throttle
stage_throttles config s = elim s.session_data.rcpt_to [
  | a ∷ addresses ↦ config.rcpt_to
  | [] ↦ elim s.session_data.mail_from [ some a ↦ config.mail_from | none ↦ config.connect ]
]

abbrev pub count_domain : Bytes → List SessionAddress → ℕ
count_domain d [] = 0
count_domain d (a ∷ addresses) = (if bytes_eq a.domain d then 1 else 0) + count_domain d addresses

-- A throttle on the recipient's domain, when the domain has had a recipient before.
unfoldable pub is_repeated : Throttle → Session → Bool
is_repeated t s =
    has_key t.keys 1
    && ltb 1 (
        count_domain (part_or_empty (λ a. a.domain) (last s.session_data.rcpt_to))
          s.session_data.rcpt_to)

-- `std::cmp::min(rate.period.as_secs(), 1)`, the interval of a new limiter
abbrev pub capped : Option Rate → Option Rate
capped none = none
capped (some rate) = some (record rate { period = if ltb 1 rate.period then 1 else rate.period })

module _ (blake3 : Bytes → Bytes) where
  -- One round of the loop: the refusal if there is one, the work in flight, and the table.
  unfoldable pub check_throttle :
      ℕ → Session → List ℕ → Table → Throttle → Option Refusal × List ℕ × Table
  unfolding check_entry is_repeated
  check_throttle now s in_flight table t =
      let e = session_envelope s in
      let r =
        check_entry now (blake3 (throttle_key t e)) (record t { rate = capped t.rate }) 0 table in
      if not (applies t e) || is_repeated t s
      then (none, in_flight, table)
      else (r.1, push_some in_flight r.0, r.2)

  unfoldable pub check_throttles :
      ℕ → Session → List ℕ → Table → List Throttle → Bool × List ℕ × Table
  unfolding check_throttle
  check_throttles now s in_flight table [] = (true, in_flight, table)
  check_throttles now s in_flight table (t ∷ ts) =
      let r = check_throttle now s in_flight table t in
      elim r.0 [ some refusal ↦ (false, r.1, r.2) | none ↦ check_throttles now s r.1 r.2 ts ]

  -- `Session::is_allowed`
  unfoldable pub session_is_allowed : ℕ → SessionThrottle → Session → Table → Bool × Session × Table
  unfolding stage_throttles check_throttles
  session_is_allowed now config s table =
      let r = check_throttles now s s.in_flight table (stage_throttles config s) in
      (r.0, record s { in_flight = r.1 }, r.2)

-- The entry is occupied: its rate is asked, and without one the answer is no.
abbrev pub ask_rate : ℕ → Limiter → Bool × Limiter
ask_rate now l = elim l.rate [
  | none ↦ (false, l)
  | some r ↦ let (ok, r') = rate_is_allowed now r in (ok, record l { rate = some r' })
]

-- The entry is vacant: a new limiter, whose answer is not looked at.
abbrev pub new_rcpt_limiter : ℕ → Rate → Limiter
new_rcpt_limiter now rate = record {
  rate = some (rate_is_allowed now (new_rate now rate.requests rate.period)).1;
  concurrency = none;
}

unfoldable pub ask_entry : ℕ → Bytes → Rate → Table → Bool × Table
ask_entry now key rate [] = (true, (key, new_rcpt_limiter now rate) ∷ [])
ask_entry now key rate ((k, l) ∷ table) =
    let rest = ask_entry now key rate table in
    let r = ask_rate now l in
    if bytes_eq k key then (r.0, (k, r.1) ∷ table) else (rest.0, (k, l) ∷ rest.1)

-- What `throttle_rcpt` hashes.
unfoldable pub rcpt_key : Bytes → Rate → Bytes → Bytes
rcpt_key rcpt rate ctx = rcpt ++ (ctx ++ (le_bytes 8 rate.period ++ le_bytes 8 rate.requests))

unfoldable pub throttle_rcpt : (Bytes → Bytes) → ℕ → Bytes → Rate → Bytes → Table → Bool × Table
unfolding ask_entry rcpt_key
throttle_rcpt blake3 now rcpt rate ctx table =
    ask_entry now (blake3 (rcpt_key rcpt rate ctx)) rate table
