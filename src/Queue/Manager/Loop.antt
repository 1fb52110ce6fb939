-- ===== src/Queue/Manager/Loop.antt =====
-- The queue's task: one event at a time, with the deliveries that it starts.
--
-- What `DeliveryAttempt::try_deliver` does to the queue is one of three things, and which one
-- rests on throttles, the clock and the files; it is an argument here, as are the clock and the
-- counters of the limiters, anew for each round of a loop. A loop ends with its rounds, or before.
use smtp_server.Base.{
  ℕ, Bool, true, false, List, [], ◌∷◌, Option, none, some, Bytes, leb, if◌then◌else◌,
}
use smtp_server.Queue.Message.{Schedule, Message, Clock}
use smtp_server.Queue.Manager.State.{Queue, OnHold, schedule, hold, next_due, next_on_hold}
use smtp_server.Queue.Manager.Requests.{for_each_id}
use smtp_server.Queue.Manager.Cancel.{cancel_one}
use smtp_server.Queue.Manager.Retry.{retry_one}

-- `try_deliver` puts the message back for a later time, puts it on hold, or keeps it: the message
-- is removed, or a task has it that reports with `Event::Done`.
pub data Attempt : Type 0 where
  requeued : Schedule Message → Attempt
  held : OnHold Message → Attempt
  kept : Attempt

pub data WorkerResult : Type 0 where
  done : WorkerResult
  retry : Schedule Message → WorkerResult
  on_hold : OnHold Message → WorkerResult

pub data Request : Type 0 where
  list : Option Bytes → Option Bytes → Option ℕ → Option ℕ → Request
  status : List ℕ → Request
  cancel : List ℕ → Option Bytes → Request
  retry_at : List ℕ → Option Bytes → ℕ → Request

pub data Event : Type 0 where
  queue_message : Schedule Message → Event
  manage : Request → Event
  worker_done : WorkerResult → Event
  timed_out : Event
  stop : Event

-- What one round of a loop finds.
pub record Round : Type 0 where
  pub now : ℕ
  pub counters : ℕ → ℕ
  pub attempt : Message → Attempt

unfoldable pub after_attempt : Attempt → Queue → Queue
after_attempt (requeued s) q = schedule q s
after_attempt (held h) q = hold q h
after_attempt kept q = q

abbrev pub deliver_next : Round → Option Message × Queue → (Queue → Queue) → Queue
deliver_next r (none, q) continue = q
deliver_next r (some m, q) continue = continue (after_attempt (r.attempt m) q)

-- `while let Some(message) = queue.next_due()`
unfoldable pub deliver_due : List Round → Queue → Queue
deliver_due [] q = q
deliver_due (r ∷ rounds) q = deliver_next r (next_due r.now q) (λ q'. deliver_due rounds q')

-- `while let Some(message) = queue.next_on_hold()`
unfoldable pub deliver_on_hold : List Round → Queue → Queue
deliver_on_hold [] q = q
deliver_on_hold (r ∷ rounds) q =
    deliver_next r (next_on_hold r.counters r.now q) (λ q'. deliver_on_hold rounds q')

unfoldable pub take_result : WorkerResult → Queue → Queue
take_result done q = q
take_result (retry s) q = schedule q s
take_result (on_hold h) q = hold q h

unfoldable pub answer : Clock → Request → Queue → Queue
answer clock (list _ _ _ _) q = q
answer clock (status _) q = q
answer clock (cancel ids item) q = (for_each_id (cancel_one clock item) ids q).0
answer clock (retry_at ids item time) q = (for_each_id (retry_one clock time item) ids q).0

-- The arms of `match event`; `rounds` are those of the loop over the messages on hold.
unfoldable pub handle_event : Clock → List Round → (Message → Attempt) → Event → Queue → Queue
handle_event clock rounds attempt (queue_message item) q =
    let q' = deliver_on_hold rounds q in
    if leb item.due clock.instant then after_attempt (attempt item.inner) q' else schedule q' item
handle_event clock rounds attempt (worker_done result) q =
    take_result result (deliver_on_hold rounds q)
handle_event clock rounds attempt (manage request) q = answer clock request q
handle_event clock rounds attempt timed_out q = q
handle_event clock rounds attempt stop q = q

-- What one turn of the task finds: the rounds of its deliveries, and the event.
pub record Turn : Type 0 where
  pub due : List Round
  pub clock : Clock
  pub rounds : List Round
  pub attempt : Message → Attempt
  pub event : Event

-- One turn of the task: what is due is delivered, and then the event is handled.
unfoldable pub turn : Turn → Queue → Queue
turn t q = handle_event t.clock t.rounds t.attempt t.event (deliver_due t.due q)

-- `Event::Stop`, and a closed channel, end the loop.
abbrev pub is_last : Event → Bool
is_last stop = true
is_last (queue_message _) = false
is_last (manage _) = false
is_last (worker_done _) = false
is_last timed_out = false

-- The task's loop, over the turns that come.
unfoldable pub run_queue : List Turn → Queue → Queue
run_queue [] q = q
run_queue (t ∷ ts) q =
    let q' = turn t q in let rest = run_queue ts q' in if is_last t.event then q' else rest
