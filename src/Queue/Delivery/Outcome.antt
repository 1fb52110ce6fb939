-- ===== src/Queue/Delivery/Outcome.antt =====
-- A message with a pending domain is never given up.
use smtp_server.Base.{
  ℕ, suc, bytes_eq, ◌≤◌, ◌<◌, ◌⊎◌, ◌≡◌, ◌≢◌, refl, sym, subst, inl, inr, true, List, [], ◌∷◌,
  Option, none, some, Bytes, any, ltb, ltb→lt, arith, Bool-cases, Option-cases,
}
use smtp_server.Core.Key.{Throttle, throttle_key}
use smtp_server.Queue.Message.{Domain, Message, Clock, is_pending}
use smtp_server.Queue.Serialize.Writer.{serialize_changes}
use smtp_server.Core.Envelope.{Envelope}
use smtp_server.Core.Limiter.{
  RateLimiter, Concurrency, rate_is_allowed, retry_at, concurrency_is_allowed,
}
use smtp_server.Queue.Envelopes.{message_envelope}
use smtp_server.Queue.Throttle.{
  Table as Throttles, Refusal, concurrency, rate, check_rate, check_limiter, first_limiter,
  check_entry, applies, is_allowed,
}
use smtp_server.Queue.Quota.{Table as Quotas, release_quota}
use smtp_server.Queue.Manager.State.{ConcurrencyLimiter}
use smtp_server.Queue.Manager.Times.{next_event, next_delivery_event}
use smtp_server.Queue.Manager.Files.{save_changes}
use smtp_server.Queue.Manager.Cancel.{has_pending}
use smtp_server.Queue.Manager.Loop.{WorkerResult, done, retry, on_hold}
use smtp_server.Queue.Serialize.Kept.{IsKept, save_changes-IsKept}
use smtp_server.Queue.Manager.Earliest.{
  EarliestOf, deadlines, after, next_event-EarliestOf, next_event_after-EarliestOf,
}
use smtp_server.Queue.Delivery.{
  Started, postponed, limited, removed, spawned, start_delivery, throttle_sender,
  has_pending_delivery, report, report_next, throttled, first_refusal,
}

-- What the task of a delivery reports. The message is as it was, but for the marks of what has
-- changed and the references to quotas that it has given back.
abbrev pub IsPutBack : Clock → List ConcurrencyLimiter → Message → Quotas → WorkerResult → Type 0
IsPutBack clock limiters m quotas done = ⊥
IsPutBack clock limiters m quotas (retry s) =
    (limiters ≡ [])
    × EarliestOf (some s.due) (deadlines m.domains)
    × IsKept (record m { queue_refs = s.inner.queue_refs }) s.inner
    × (s.inner.queue_refs ≡ (release_quota m quotas).0.queue_refs)
IsPutBack clock limiters m quotas (on_hold h) =
    (limiters ≢ [])
    × (h.limiters ≡ limiters)
    × EarliestOf h.next_due (after clock.instant (deadlines h.message.domains))
    × IsKept (record m { queue_refs = h.message.queue_refs }) h.message
    × (h.message.queue_refs ≡ (release_quota m quotas).0.queue_refs)

deadlines-pending :
    (ds : List Domain) → any (λ d. is_pending d.status) ds ≡ true → deadlines ds ≢ []
deadlines-pending [] h e = cc
deadlines-pending (d ∷ ds) h e = elim (Bool-cases (is_pending d.status)) [
  | inl p ↦ (let e' = rw p at e in absurd cc)
  | inr p ↦ deadlines-pending ds (rw p at h) (rw p at e)
]

-- When the task of a delivery reports, a message with a pending domain is put on hold for the
-- limiters that were met if there were any, until the earliest later deadline of its pending domains,
-- and else goes back to the queue for the earliest deadline of its pending domains. It is as it was,
-- but for the marks of what has changed and the references to quotas that it has given back.
pub report-IsPutBack :
    (clock : Clock) (limiters : List ConcurrencyLimiter) (m : Message) (quotas : Quotas)
    → has_pending m ≡ true
    → IsPutBack clock limiters m quotas (report clock limiters m quotas).0
unfolding report release_quota save_changes serialize_changes
report-IsPutBack clock (l ∷ ls) m quotas h = (
  λ e. cc,
  refl,
  next_event_after-EarliestOf clock.instant (save_changes clock (release_quota m quotas).0).0,
  save_changes-IsKept clock (release_quota m quotas).0,
  refl,
)
report-IsPutBack clock [] m quotas h = elim (Option-cases (next_event clock.instant m)) [
  | inl e ↦ absurd (deadlines-pending m.domains h (rw e at (next_event-EarliestOf clock.instant m)))
  | inr (due, e) ↦
      subst (λ o. IsPutBack clock [] m quotas (report_next clock m quotas o).0) (sym e)
        (
          refl,
          rw e at (next_event-EarliestOf clock.instant m),
          save_changes-IsKept clock (release_quota m quotas).0,
          refl,
        )
]

-- What becomes of a message whose delivery starts, from what the notifications leave of it. It is
-- put back or on hold as that, but for the marks of what has changed.
abbrev pub IsContinued : Clock → Message → Started → Type 0
IsContinued clock m (removed ops) = ⊥
IsContinued clock m (postponed s ops) =
    IsKept m s.inner
    × (((clock.instant < s.due) × (s.due ≡ next_delivery_event clock.instant m))
        ⊎ ((next_delivery_event clock.instant m ≤ clock.instant) × (clock.instant ≤ s.due)))
IsContinued clock m (limited h ops) =
    IsKept m h.message
    × (h.limiters ≢ [])
    × EarliestOf h.next_due (after clock.instant (deadlines h.message.domains))
    × (next_delivery_event clock.instant m ≤ clock.instant)
IsContinued clock m (spawned m' in_flight) =
    (m' ≡ m) × (next_delivery_event clock.instant m ≤ clock.instant)

-- A refusal for a rate names a time that is not past.
abbrev NotPast : ℕ → Option Refusal → Type 0
NotPast now none = Unit
NotPast now (some (concurrency l)) = Unit
NotPast now (some (rate time)) = now ≤ time

check_rate-NotPast :
    (now : ℕ) (o : Option ℕ) (r : Option RateLimiter) (c : Option Concurrency)
    → NotPast now (check_rate now o r c).refusal
unfolding retry_at
check_rate-NotPast now o none c = tt
check_rate-NotPast now o (some r) c = elim (Bool-cases (rate_is_allowed now r).0) [
  | inl p ↦ rw p tt
  | inr p ↦ rw p (omega arith)
]

check_limiter-NotPast :
    (now place : ℕ) (r : Option RateLimiter) (c : Option Concurrency)
    → NotPast now (check_limiter now place r c).refusal
unfolding check_limiter
check_limiter-NotPast now place r none = check_rate-NotPast now none r none
check_limiter-NotPast now place r (some c) = elim (Bool-cases (concurrency_is_allowed c).0) [
  | inl p ↦ rw p (check_rate-NotPast now (some place) r (some (concurrency_is_allowed c).1))
  | inr p ↦ rw p tt
]

check_entry-NotPast :
    (now : ℕ) (key : Bytes) (t : Throttle) (place : ℕ) (table : Throttles)
    → NotPast now (check_entry now key t place table).1
unfolding check_entry first_limiter
check_entry-NotPast now key t place [] = first t.concurrency
  where
    first : (c : Option ℕ) → NotPast now (first_limiter now place t.rate c).refusal
    first none = tt
    first (some n) = tt
check_entry-NotPast now key t place ((k, l) ∷ table) = elim (Bool-cases (bytes_eq k key)) [
  | inl p ↦ rw p (check_limiter-NotPast now place l.rate l.concurrency)
  | inr p ↦ rw p (check_entry-NotPast now key t (suc place) table)
]

first_refusal-NotPast :
    (now : ℕ) (o : Option Refusal) (rest : Option Refusal × List ℕ × Throttles)
    (r : List ℕ × Throttles)
    → NotPast now o
    → NotPast now rest.0
    → NotPast now (first_refusal o rest r).0
first_refusal-NotPast now none rest r h k = k
first_refusal-NotPast now (some refusal) rest r h k = h

throttled-IsContinued :
    (clock : Clock) (m : Message) (r : Option Refusal × List ℕ × Throttles)
    → NotPast clock.instant r.0
    → next_delivery_event clock.instant m ≤ clock.instant
    → IsContinued clock m (throttled clock m r).0
unfolding throttled
throttled-IsContinued clock m (none, in_flight, table) k d = (refl, d)
throttled-IsContinued clock m (some (concurrency l), in_flight, table) k d = (
  save_changes-IsKept clock m,
  λ e. cc,
  next_event_after-EarliestOf clock.instant (save_changes clock m).0,
  d,
)
throttled-IsContinued clock m (some (rate time), in_flight, table) k d =
    (save_changes-IsKept clock m, inr (d, k))

module _ (blake3 : Bytes → Bytes) (send_dsn : Message → Message) where
  is_allowed-NotPast :
      (now : ℕ) (t : Throttle) (e : Envelope) (in_flight : List ℕ) (table : Throttles)
      → NotPast now (is_allowed blake3 now t e in_flight table).0
  unfolding is_allowed
  is_allowed-NotPast now t e in_flight table = elim (Bool-cases (applies t e)) [
    | inl p ↦ rw p (check_entry-NotPast now (blake3 (throttle_key t e)) t 0 table)
    | inr p ↦ rw p tt
  ]

  throttle_sender-NotPast :
      (now : ℕ) (m : Message) (ts : List Throttle) (in_flight : List ℕ) (table : Throttles)
      → NotPast now (throttle_sender blake3 send_dsn now m ts in_flight table).0
  unfolding throttle_sender
  throttle_sender-NotPast now m [] in_flight table = tt
  throttle_sender-NotPast now m (t ∷ ts) in_flight table =
      let r = is_allowed blake3 now t (message_envelope m) in_flight table in
      first_refusal-NotPast now r.0 (throttle_sender blake3 send_dsn now m ts r.1 r.2) (r.1, r.2)
        (is_allowed-NotPast now t (message_envelope m) in_flight table)
        (throttle_sender-NotPast now m ts r.1 r.2)

  -- A delivery that starts never gives up a message with a pending domain that has time left. If no
  -- retry is due the message goes back to the queue for its next retry; else a task has it, or it is
  -- refused and goes back for a time that is not past or on hold for a limiter, until the earliest
  -- later deadline of its pending domains. The message is the one that the notifications leave, but
  -- that marks of what has changed are cleared unless a task has it.
  pub start_delivery-IsContinued :
      (clock : Clock) (throttles : List Throttle) (m : Message) (table : Throttles)
      → (has_pending_delivery clock.instant m).0 ≡ true
      → IsContinued clock
          (send_dsn (has_pending_delivery clock.instant m).1)
          (start_delivery blake3 send_dsn clock throttles m table).0
  unfolding start_delivery
  start_delivery-IsContinued clock throttles m table h =
      let m' = send_dsn (has_pending_delivery clock.instant m).1 in
      let due = next_delivery_event clock.instant m' in
      elim (Bool-cases (ltb clock.instant due)) [
        | inl p ↦ rw (h, p) (save_changes-IsKept clock m', inl (ltb→lt clock.instant due p, refl))
        | inr p ↦
            rw (h, p)
              (throttled-IsContinued clock m'
                (throttle_sender blake3 send_dsn clock.instant m' throttles [] table)
                (throttle_sender-NotPast clock.instant m' throttles [] table) (ground (arith, p)))
      ]
