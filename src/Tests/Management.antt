-- ===== src/Tests/Management.antt =====
-- The queue's schedule and its task.
use smtp_server.Base.{◌*◌, ◌+◌, List, ◌≡◌, ◌≤◌, All, refl, [], ◌∷◌, some, arith}
use smtp_server.Queue.Message.{Message, nanos}
use smtp_server.Queue.Manager.State.{Queue, default, schedule, lookup, push, wake_up_time}
use smtp_server.Queue.Manager.Times.{
  next_event, next_delivery_event, next_event_after, next_after_loop, after_step,
}
use smtp_server.Queue.Manager.Earliest.{
  EarliestOf, EarliestOr, deadlines, retries, after, next_event-EarliestOf,
  next_delivery_event-EarliestOr, next_event_after-EarliestOf,
}
use smtp_server.Queue.Manager.Loop.{
  Attempt, requeued, kept, cancel, manage, Round, Turn, stop, turn, handle_event, deliver_due,
  run_queue,
}
use smtp_server.Queue.Manager.Coverage.{IsCovered, schedule-IsCovered}
use smtp_server.Queue.Manager.Turns.{run_queue-IsCovered, run_queue-in_time}
use smtp_server.Queue.Manager.Order.{IsOrdered}
use smtp_server.Base.{true, none, inl, contains, starts_with}
use smtp_server.Queue.Manager.State.{insert}
use smtp_server.Queue.Manager.Cancel.{cancel_one, is_matched}
use smtp_server.Queue.Manager.Canceled.{IsCanceledIn, cancel_one-IsCanceledIn, cancel_one-others}
use smtp_server.Tests.Samples.{codes, morning, letter}

next_event-EarliestOf_example :
    EarliestOf (next_event (5_000 * nanos) letter) (deadlines letter.domains)
next_event-EarliestOf_example = next_event-EarliestOf (5_000 * nanos) letter

next_delivery_event-EarliestOr_example :
    EarliestOr (5_000 * nanos) (next_delivery_event (5_000 * nanos) letter) (retries letter.domains)
next_delivery_event-EarliestOr_example = next_delivery_event-EarliestOr (5_000 * nanos) letter

next_event_after-EarliestOf_example :
    EarliestOf
      (next_event_after (5_000 * nanos) letter)
      (after (5_000 * nanos) (deadlines letter.domains))
next_event_after-EarliestOf_example = next_event_after-EarliestOf (5_000 * nanos) letter

sooner_than_a_minute : next_event_after (5_000 * nanos) letter ≡ some (5_060 * nanos)
unfolding next_event_after next_after_loop after_step
sooner_than_a_minute = refl

-- The letter waits in the queue, and is due.
abbrev waiting : Queue
waiting = schedule default (record { due = 5_000 * nanos; inner = letter })

-- A delivery that is tried again in ten minutes.
abbrev in_ten_minutes : Message → Attempt
in_ten_minutes m = requeued (record { due = 5_600 * nanos; inner = m })

abbrev due_round : Round
due_round = record { now = 5_000 * nanos; counters = (λ _. 0); attempt = in_ten_minutes }

default-IsCovered : IsCovered default
unfolding lookup
default-IsCovered id h = ground arith

-- The letter is due and is put back; then its second recipient is canceled, and the task ends.
abbrev turns : List Turn
turns =
    record {
      due = due_round ∷ [];
      clock = morning;
      rounds = [];
      attempt = (λ _. kept);
      event = manage (cancel (17 ∷ []) (some (codes "ann")));
    }
    ∷ record { due = []; clock = morning; rounds = []; attempt = (λ _. kept); event = stop }
    ∷ []

waiting-IsCovered : IsCovered waiting
waiting-IsCovered =
    schedule-IsCovered default (record { due = 5_000 * nanos; inner = letter }) default-IsCovered

run_queue-IsCovered_example : IsCovered (run_queue turns waiting)
run_queue-IsCovered_example = run_queue-IsCovered turns waiting waiting-IsCovered

abbrev only_stop : List Turn
only_stop =
    record { due = []; clock = morning; rounds = []; attempt = (λ _. kept); event = stop } ∷ []

run_queue-in_time_example :
    (let q' = run_queue only_stop waiting in
      IsOrdered q'
      × All (λ s. 4_000 * nanos + wake_up_time (4_000 * nanos) q' ≤ s.due) q'.scheduled)
unfolding run_queue turn handle_event deliver_due schedule push
run_queue-in_time_example =
    run_queue-in_time only_stop waiting (4_000 * nanos) (tt, tt) (omega arith, tt)

cancel_one-IsCanceledIn_example :
    (let r = cancel_one morning (some (codes "ann")) 17 waiting in
      (r.1 ≡ true)
      × IsCanceledIn (some (codes "ann")) (lookup 17 waiting.messages) (lookup 17 r.0.messages))
unfolding schedule insert lookup is_matched contains starts_with
cancel_one-IsCanceledIn_example =
    cancel_one-IsCanceledIn morning (some (codes "ann")) 17 waiting refl

cancel_one-others_example :
    lookup 17 (cancel_one morning none 18 waiting).0.messages ≡ lookup 17 waiting.messages
cancel_one-others_example =
    cancel_one-others morning none 18 17 waiting (inl (λ e. omega (arith, e)))
