-- ===== src/Queue/Delivery.antt =====
-- src/outbound/delivery.rs: a delivery attempt but for the connections: what stands before them
-- (`try_deliver` up to the task that it starts) and behind them (what the task reports), the expiry
-- of domains, and the schedule of retries; `into_permanent` is in src/queue/dsn.rs.
--
-- What the notifications (`send_dsn`) make of the message is an argument.
pub mod Expiry
pub mod Outcome
pub mod Flight
use Prim.Native.Char.{code}
use Prim.Native.String.{String}
use smtp_server.Base.{
  ℕ, suc, ◌+◌, ◌-◌, ◌%◌, ◌^◌, Bool, true, false, not, ◌&&◌, ◌||◌, List, [], ◌∷◌, ◌++◌, Option, none,
  some, Bytes, length, get_elem?, ltb, leb, ◌==◌, if◌then◌else◌,
}
use smtp_server.Core.Key.{Throttle}
use smtp_server.Queue.Message.{
  Status, scheduled, completed, temporary_failure, permanent_failure, Error, io, Schedule, Domain,
  Recipient, Message, Clock, is_pending,
}
use smtp_server.Queue.Envelopes.{message_envelope}
use smtp_server.Queue.Manager.State.{ConcurrencyLimiter, OnHold}
use smtp_server.Queue.Manager.Times.{next_event, next_delivery_event, next_event_after}
use smtp_server.Queue.Manager.Files.{FileOp, save_changes, remove}
use smtp_server.Queue.Manager.Cancel.{codes}
use smtp_server.Queue.Manager.Loop.{
  Attempt, requeued, held, kept, WorkerResult, done, retry, on_hold,
}
use smtp_server.Queue.Throttle.{
  Table as Throttles, Refusal, concurrency, rate, is_allowed, drop_entry,
}
use smtp_server.Queue.Quota.{Table as Quotas, release_quota}

abbrev pub into_permanent : {T E : Type 0} → Status T E → Status T E
into_permanent (temporary_failure e) = permanent_failure e
into_permanent scheduled = scheduled
into_permanent (completed t) = completed t
into_permanent (permanent_failure e) = permanent_failure e

-- The recipients of a domain whose time is over.
unfoldable pub expire_recipients : ℕ → List Recipient → List Recipient
expire_recipients idx [] = []
expire_recipients idx (r ∷ rs) =
    (if r.domain_idx == idx then record r { status = into_permanent r.status } else r)
    ∷ expire_recipients idx rs

-- The status of a pending domain whose time is over.
abbrev pub expired_status : Status (Unit {0}) Error → Status (Unit {0}) Error
expired_status (temporary_failure e) = permanent_failure e
expired_status scheduled = permanent_failure (io (codes "Queue rate limit exceeded."))
expired_status (completed t) = completed t
expired_status (permanent_failure e) = permanent_failure e

abbrev pub is_expired : ℕ → Domain → Bool
is_expired now d = is_pending d.status && leb d.expires now

-- The loop of `has_pending_delivery`: whether a domain is still pending, the domains and the
-- recipients.
unfoldable pub expire_domains :
    ℕ → ℕ → List Domain → List Recipient → Bool × List Domain × List Recipient
unfolding expire_recipients
expire_domains now idx [] rs = (false, [], rs)
expire_domains now idx (d ∷ ds) rs =
    let expired = is_expired now d in
    let rest = expire_domains now (suc idx) ds (if expired then expire_recipients idx rs else rs) in
    (
      (is_pending d.status && not expired) || rest.0,
      (if expired then record d { status = expired_status d.status; changed = true } else d)
          ∷ rest.1,
      rest.2,
    )

unfoldable pub has_pending_delivery : ℕ → Message → Bool × Message
unfolding expire_domains
has_pending_delivery now m =
    let r = expire_domains now 0 m.domains m.recipients in
    (r.0, record m { domains = r.1; recipients = r.2 })

-- `Domain::retry`: `schedule[min(inner, len - 1)]`; the schedule is not empty.
unfoldable pub retry_later : ℕ → List ℕ → Domain → Domain
retry_later now delays d =
    let last = length delays - 1 in
    let position = if ltb d.retry.inner last then d.retry.inner else last in
    record d {
      retry = record {
        due = now + elim (get_elem? delays position) [ none ↦ 0 | some delay ↦ delay ];
        inner = (d.retry.inner + 1) % 2 ^ 32;
      };
    }

-- `Domain::set_status`
unfoldable pub set_status : ℕ → List ℕ → Status (Unit {0}) Error → Domain → Domain
unfolding retry_later
set_status now delays status d =
    let d' : Domain = record d { status = status; changed = true } in
    if is_pending status then retry_later now delays d' else d'

-- What `try_deliver` does before it connects: the message goes back to the queue or on hold, its
-- file is removed, or a task has it, with the work that is in flight for it.
pub data Started : Type 0 where
  postponed : Schedule Message → List FileOp → Started
  limited : OnHold Message → List FileOp → Started
  removed : List FileOp → Started
  spawned : Message → List ℕ → Started

-- What the queue's task sees of it.
abbrev pub attempt_of : Started → Attempt
attempt_of (postponed s ops) = requeued s
attempt_of (limited h ops) = held h
attempt_of (removed ops) = kept
attempt_of (spawned m in_flight) = kept

abbrev pub refused : Clock → Message → Refusal → Started
refused clock m (concurrency limiter) =
    let (m', ops) = save_changes clock m in
    limited
      (record {
        next_due = next_event_after clock.instant m';
        limiters = limiter ∷ [];
        message = m';
      })
      ops
refused clock m (rate retry_at) =
    let (m', ops) = save_changes clock m in postponed (record { due = retry_at; inner = m' }) ops

-- The end of an attempt that has no task: what it has in flight is dropped.
unfoldable pub drop_all : List ℕ → Throttles → Throttles
unfolding drop_entry
drop_all [] table = table
drop_all (place ∷ in_flight) table = drop_all in_flight (drop_entry place table)

unfoldable pub throttled :
    Clock → Message → Option Refusal × List ℕ × Throttles → Started × Throttles
unfolding drop_all
throttled clock m (none, in_flight, table) = (spawned m in_flight, table)
throttled clock m (some refusal, in_flight, table) =
    (refused clock m refusal, drop_all in_flight table)

abbrev pub first_refusal :
    Option Refusal
    → Option Refusal × List ℕ × Throttles
    → List ℕ × Throttles
    → Option Refusal × List ℕ × Throttles
first_refusal none rest now = rest
first_refusal (some refusal) rest now = (some refusal, now.0, now.1)

module _ (blake3 : Bytes → Bytes) (send_dsn : Message → Message) where
  -- The loop over the sender's throttles: the first refusal ends it.
  unfoldable pub throttle_sender :
      ℕ → Message → List Throttle → List ℕ → Throttles → Option Refusal × List ℕ × Throttles
  throttle_sender now m [] in_flight table = (none, in_flight, table)
  throttle_sender now m (t ∷ ts) in_flight table =
      let r = is_allowed blake3 now t (message_envelope m) in_flight table in
      let rest = throttle_sender now m ts r.1 r.2 in first_refusal r.0 rest (r.1, r.2)

  -- `try_deliver` up to `tokio::spawn`
  unfoldable pub start_delivery : Clock → List Throttle → Message → Throttles → Started × Throttles
  unfolding throttle_sender throttled
  start_delivery clock throttles m table =
      let (pending, expired) = has_pending_delivery clock.instant m in
      let m' = send_dsn expired in
      let due = next_delivery_event clock.instant m' in
      let (saved, ops) = save_changes clock m' in
      if not pending
      then (removed (remove m'), table)
      else if ltb clock.instant due
      then (postponed (record { due = due; inner = saved }) ops, table)
      else throttled clock m' (throttle_sender clock.instant m' throttles [] table)

-- What the task reports when the domains have been tried; the file operations, and the quotas that
-- are left.
abbrev pub put_back :
    Clock → Message → Quotas → (Message → WorkerResult) → WorkerResult × List FileOp × Quotas
put_back clock m quotas result =
    let (m', quotas') = release_quota m quotas in
    let (saved, ops) = save_changes clock m' in (result saved, ops, quotas')

abbrev pub report_next : Clock → Message → Quotas → Option ℕ → WorkerResult × List FileOp × Quotas
report_next clock m quotas none = (done, remove m, quotas)
report_next clock m quotas (some due) =
    put_back clock m quotas (λ saved. retry (record { due = due; inner = saved }))

unfoldable pub report :
    Clock → List ConcurrencyLimiter → Message → Quotas → WorkerResult × List FileOp × Quotas
report clock (l ∷ ls) m quotas = put_back clock m quotas (λ saved. on_hold (record {
  next_due = next_event_after clock.instant saved;
  limiters = l ∷ ls;
  message = saved;
}))
report clock [] m quotas = report_next clock m quotas (next_event clock.instant m)
