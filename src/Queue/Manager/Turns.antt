-- ===== src/Queue/Manager/Turns.antt =====
-- What each operation of the queue keeps, every turn of its task keeps, and the task as long as it
-- runs: that each stored message is scheduled or on hold, and that the schedule is in order.
use smtp_server.Base.{
  ℕ, ◌+◌, ◌≤◌, inl, inr, Bool, Bytes, All, List, [], ◌∷◌, Option, none, some, leb, Bool-cases,
}
use smtp_server.Queue.Message.{Schedule, Message, Clock}
use smtp_server.Queue.Manager.State.{
  Queue, OnHold, schedule, hold, next_due, next_on_hold, wake_up_time,
}
use smtp_server.Queue.Manager.Order.{
  IsOrdered, schedule-IsOrdered, hold-IsOrdered, next_due-IsOrdered, next_on_hold-IsOrdered,
  cancel_one-IsOrdered, retry_one-IsOrdered, wake_up_time-in_time,
}
use smtp_server.Queue.Manager.Files.{FileOp}
use smtp_server.Queue.Manager.Requests.{for_each_id}
use smtp_server.Queue.Manager.Cancel.{cancel_one}
use smtp_server.Queue.Manager.Retry.{retry_one}
use smtp_server.Queue.Manager.Loop.{
  Attempt, requeued, held, kept, WorkerResult, done, retry, on_hold, Request, list, status, cancel,
  retry_at, Event, queue_message, manage, worker_done, timed_out, stop, Round, Turn, is_last,
  run_queue, after_attempt, deliver_next, deliver_due, deliver_on_hold, take_result, answer,
  handle_event, turn,
}
use smtp_server.Queue.Manager.Coverage.{
  IsCovered, schedule-IsCovered, hold-IsCovered, next_due-IsCovered, next_on_hold-IsCovered,
}
use smtp_server.Queue.Manager.Answers.{cancel_one-IsCovered, retry_one-IsCovered}

-- A property of the queue that its operations keep.
record Keeps (P : Queue → Type 0) : Type 0 where
  schedule_keeps : (q : Queue) (s : Schedule Message) → P q → P (schedule q s)
  hold_keeps : (q : Queue) (h : OnHold Message) → P q → P (hold q h)
  next_due_keeps : (now : ℕ) (q : Queue) → P q → P (next_due now q).1
  next_on_hold_keeps :
      (counters : ℕ → ℕ) (now : ℕ) (q : Queue) → P q → P (next_on_hold counters now q).1
  cancel_one_keeps :
      (clock : Clock) (item : Option Bytes) (id : ℕ) (q : Queue)
      → P q
      → P (cancel_one clock item id q).0
  retry_one_keeps :
      (clock : Clock) (time : ℕ) (item : Option Bytes) (id : ℕ) (q : Queue)
      → P q
      → P (retry_one clock time item id q).0

module _ (P : Queue → Type 0) (k : Keeps P) where
  for_each_id_keeps :
      (one : ℕ → Queue → Queue × Bool × List FileOp)
      → ((id : ℕ) (q : Queue) → P q → P (one id q).0)
      → (ids : List ℕ) (q : Queue) → P q
      → P (for_each_id one ids q).0
  unfolding for_each_id
  for_each_id_keeps one keeps [] q c = c
  for_each_id_keeps one keeps (id ∷ ids) q c =
      for_each_id_keeps one keeps ids (one id q).0 (keeps id q c)

  after_attempt_keeps : (a : Attempt) (q : Queue) → P q → P (after_attempt a q)
  unfolding after_attempt
  after_attempt_keeps (requeued s) q c = k.schedule_keeps q s c
  after_attempt_keeps (held h) q c = k.hold_keeps q h c
  after_attempt_keeps kept q c = c

  deliver_next_keeps :
      (r : Round) (taken : Option Message × Queue) (continue : Queue → Queue)
      → ((q : Queue) → P q → P (continue q))
      → P taken.1
      → P (deliver_next r taken continue)
  deliver_next_keeps r (none, q) continue keeps c = c
  deliver_next_keeps r (some m, q) continue keeps c =
      keeps (after_attempt (r.attempt m) q) (after_attempt_keeps (r.attempt m) q c)

  deliver_due_keeps : (rounds : List Round) (q : Queue) → P q → P (deliver_due rounds q)
  unfolding deliver_due
  deliver_due_keeps [] q c = c
  deliver_due_keeps (r ∷ rounds) q c =
      deliver_next_keeps r (next_due r.now q) (deliver_due rounds) (deliver_due_keeps rounds)
        (k.next_due_keeps r.now q c)

  deliver_on_hold_keeps : (rounds : List Round) (q : Queue) → P q → P (deliver_on_hold rounds q)
  unfolding deliver_on_hold
  deliver_on_hold_keeps [] q c = c
  deliver_on_hold_keeps (r ∷ rounds) q c =
      deliver_next_keeps r (next_on_hold r.counters r.now q) (deliver_on_hold rounds)
        (deliver_on_hold_keeps rounds) (k.next_on_hold_keeps r.counters r.now q c)

  take_result_keeps : (w : WorkerResult) (q : Queue) → P q → P (take_result w q)
  unfolding take_result
  take_result_keeps done q c = c
  take_result_keeps (retry s) q c = k.schedule_keeps q s c
  take_result_keeps (on_hold h) q c = k.hold_keeps q h c

  answer_keeps : (clock : Clock) (r : Request) (q : Queue) → P q → P (answer clock r q)
  unfolding answer
  answer_keeps clock (list _ _ _ _) q c = c
  answer_keeps clock (status _) q c = c
  answer_keeps clock (cancel ids item) q c =
      for_each_id_keeps (cancel_one clock item) (k.cancel_one_keeps clock item) ids q c
  answer_keeps clock (retry_at ids item time) q c =
      for_each_id_keeps (retry_one clock time item) (k.retry_one_keeps clock time item) ids q c

  handle_event_keeps :
      (clock : Clock) (rounds : List Round) (attempt : Message → Attempt) (event : Event)
      (q : Queue)
      → P q
      → P (handle_event clock rounds attempt event q)
  unfolding handle_event
  handle_event_keeps clock rounds attempt (queue_message item) q c =
      let q' = deliver_on_hold rounds q in
      let c' = deliver_on_hold_keeps rounds q c in
      elim (Bool-cases (leb item.due clock.instant)) [
        | inl p ↦ rw p (after_attempt_keeps (attempt item.inner) q' c')
        | inr p ↦ rw p (k.schedule_keeps q' item c')
      ]
  handle_event_keeps clock rounds attempt (worker_done w) q c =
      take_result_keeps w (deliver_on_hold rounds q) (deliver_on_hold_keeps rounds q c)
  handle_event_keeps clock rounds attempt (manage r) q c = answer_keeps clock r q c
  handle_event_keeps clock rounds attempt timed_out q c = c
  handle_event_keeps clock rounds attempt stop q c = c

  turn_keeps : (t : Turn) (q : Queue) → P q → P (turn t q)
  unfolding turn
  turn_keeps t q c =
      handle_event_keeps t.clock t.rounds t.attempt t.event (deliver_due t.due q)
        (deliver_due_keeps t.due q c)

  run_queue_keeps : (ts : List Turn) (q : Queue) → P q → P (run_queue ts q)
  unfolding run_queue
  run_queue_keeps [] q c = c
  run_queue_keeps (t ∷ ts) q c = elim (Bool-cases (is_last t.event)) [
    | inl p ↦ rw p (turn_keeps t q c)
    | inr p ↦ rw p (run_queue_keeps ts (turn t q) (turn_keeps t q c))
  ]

IsCovered-Keeps : Keeps IsCovered
IsCovered-Keeps = record {
  schedule_keeps = schedule-IsCovered;
  hold_keeps = hold-IsCovered;
  next_due_keeps = next_due-IsCovered;
  next_on_hold_keeps = next_on_hold-IsCovered;
  cancel_one_keeps = cancel_one-IsCovered;
  retry_one_keeps = retry_one-IsCovered;
}

IsOrdered-Keeps : Keeps IsOrdered
IsOrdered-Keeps = record {
  schedule_keeps = schedule-IsOrdered;
  hold_keeps = hold-IsOrdered;
  next_due_keeps = next_due-IsOrdered;
  next_on_hold_keeps = next_on_hold-IsOrdered;
  cancel_one_keeps = cancel_one-IsOrdered;
  retry_one_keeps = retry_one-IsOrdered;
}

-- However long the queue's task runs, each message that the map holds stays with a schedule or on
-- hold: whatever events come, whatever the deliveries do with the messages that are taken out, and
-- also when messages are canceled or retried.
pub run_queue-IsCovered : (ts : List Turn) (q : Queue) → IsCovered q → IsCovered (run_queue ts q)
run_queue-IsCovered ts q c = run_queue_keeps IsCovered IsCovered-Keeps ts q c

-- However long the queue's task runs, its schedule stays in the order of the times, and once it is,
-- if nothing in it is overdue, the task wakes up at or before each time that stands in it.
pub run_queue-in_time :
    (ts : List Turn) (q : Queue) (now : ℕ)
    → IsOrdered q
    → All (λ s. now ≤ s.due) (run_queue ts q).scheduled
    → (let q' = run_queue ts q in
        IsOrdered q' × All (λ s. now + wake_up_time now q' ≤ s.due) q'.scheduled)
run_queue-in_time ts q now o a =
    let o' = run_queue_keeps IsOrdered IsOrdered-Keeps ts q o in
    (o', wake_up_time-in_time now (run_queue ts q) o' a)
