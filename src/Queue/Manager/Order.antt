-- ===== src/Queue/Manager/Order.antt =====
-- The schedule stays in order, and the task wakes up in time.
use smtp_server.Base.{
  ℕ, ◌+◌, ◌-◌, ◌≤◌, ◌≡◌, refl, ap, inl, inr, List, [], ◌∷◌, Option, none, some, All, leb, ltb,
  le→leb, Bytes, any, if◌then◌else◌, arith, Bool-cases, Option-cases,
}
use smtp_server.Queue.Message.{Schedule, Message, Clock}
use smtp_server.Queue.Manager.Cancel.{
  cancel_one, cancel_found, cancel_part, is_matched, has_pending, cancel_matching,
}
use smtp_server.Queue.Manager.Retry.{retry_one, retry_found, is_retried, push_some}
use smtp_server.Queue.Manager.State.{
  Queue, OnHold, lookup, push, schedule, hold, take_message, due_head, next_due, next_on_hold,
  split_first, is_released, wait_for, wake_up_time,
}

abbrev pub IsSorted : List (Schedule ℕ) → Type 0
IsSorted [] = Unit
IsSorted (s ∷ ss) = All (λ t. s.due ≤ t.due) ss × IsSorted ss

abbrev pub IsOrdered : Queue → Type 0
IsOrdered q = IsSorted q.scheduled

push-All :
    (n : ℕ) (s : Schedule ℕ) (ss : List (Schedule ℕ))
    → n ≤ s.due
    → All (λ t. n ≤ t.due) ss
    → All (λ t. n ≤ t.due) (push s ss)
unfolding push
push-All n s [] h a = (h, tt)
push-All n s (t ∷ ts) h a = elim (Bool-cases (ltb s.due t.due)) [
  | inl p ↦ rw p (h, a)
  | inr p ↦ rw p (a.0, push-All n s ts h a.1)
]

All-le :
    (n m : ℕ) (ss : List (Schedule ℕ)) → n ≤ m → All (λ t. m ≤ t.due) ss → All (λ t. n ≤ t.due) ss
All-le n m [] h a = tt
All-le n m (s ∷ ss) h a = (omega (arith, h, a.0), All-le n m ss h a.1)

pub push-IsSorted : (s : Schedule ℕ) (ss : List (Schedule ℕ)) → IsSorted ss → IsSorted (push s ss)
unfolding push
push-IsSorted s [] o = (tt, tt)
push-IsSorted s (t ∷ ts) o = elim (Bool-cases (ltb s.due t.due)) [
  | inl p ↦ rw p ((ground (arith, p), All-le s.due t.due ts (ground (arith, p)) o.0), o)
  | inr p ↦ rw p (push-All t.due s ts (ground (arith, p)) o.0, push-IsSorted s ts o.1)
]

pub schedule-IsOrdered : (q : Queue) (s : Schedule Message) → IsOrdered q → IsOrdered (schedule q s)
unfolding schedule
schedule-IsOrdered q s o = push-IsSorted (record { due = s.due; inner = s.inner.id }) q.scheduled o

pub hold-IsOrdered : (q : Queue) (h : OnHold Message) → IsOrdered q → IsOrdered (hold q h)
unfolding hold
hold-IsOrdered q h o = o

due_head-IsOrdered :
    (now : ℕ) (ss : List (Schedule ℕ)) (q : Queue)
    → IsSorted ss
    → IsOrdered q
    → IsOrdered (due_head now ss q).1
unfolding due_head take_message
due_head-IsOrdered now [] q s o = o
due_head-IsOrdered now (t ∷ ts) q s o = elim (Bool-cases (leb t.due now)) [
  | inl p ↦ rw p s.1
  | inr p ↦ rw p o
]

pub next_due-IsOrdered : (now : ℕ) (q : Queue) → IsOrdered q → IsOrdered (next_due now q).1
unfolding next_due
next_due-IsOrdered now q o = due_head-IsOrdered now q.scheduled q o o

pub next_on_hold-IsOrdered :
    (counters : ℕ → ℕ) (now : ℕ) (q : Queue)
    → IsOrdered q
    → IsOrdered (next_on_hold counters now q).1
unfolding next_on_hold take_message
next_on_hold-IsOrdered counters now q o =
    elim (Option-cases (split_first (is_released counters now) q.on_hold)) [
      | inl e ↦ rw (e, next_on_hold) o
      | inr ((h, rest), e) ↦ rw (e, next_on_hold) o
    ]

wait_for-in_time :
    (now : ℕ) (ss : List (Schedule ℕ)) (q : Queue)
    → IsSorted ss
    → All (λ s. now ≤ s.due) ss
    → All (λ s. now + wait_for now ss q ≤ s.due) ss
unfolding wait_for
wait_for-in_time now [] q o a = tt
wait_for-in_time now (s ∷ ss) q o a =
    let e : wait_for now (s ∷ ss) q ≡ s.due - now =
      ap (λ b. if b then s.due - now else q.short_wait) (le→leb now s.due a.0) in
    (
      omega (arith, e, a.0),
      All-le (now + wait_for now (s ∷ ss) q) s.due ss (omega (arith, e, a.0)) o.0,
    )

-- If nothing in the schedule is overdue and it is in order, the task wakes up at or before each
-- time that stands in it.
pub wake_up_time-in_time :
    (now : ℕ) (q : Queue)
    → IsOrdered q
    → All (λ s. now ≤ s.due) q.scheduled
    → All (λ s. now + wake_up_time now q ≤ s.due) q.scheduled
unfolding wake_up_time
wake_up_time-in_time now q o a = wait_for-in_time now q.scheduled q o a

cancel_one-scheduled :
    (clock : Clock) (item : Option Bytes) (id : ℕ) (q : Queue)
    → (cancel_one clock item id q).0.scheduled ≡ q.scheduled
unfolding cancel_one cancel_found cancel_part
cancel_one-scheduled clock none id q = elim (Option-cases (lookup id q.messages)) [
  | inl e ↦ rw (e, cancel_one) refl
  | inr (m, e) ↦ rw (e, cancel_one) refl
]
cancel_one-scheduled clock (some item) id q = elim (Option-cases (lookup id q.messages)) [
  | inl e ↦ rw (e, cancel_one) refl
  | inr (m, e) ↦ elim (Bool-cases (is_matched item m)) [
    | inr f ↦ rw (e, cancel_one, f) refl
    | inl f ↦ elim (Bool-cases (has_pending (cancel_matching item m))) [
      | inl g ↦ rw (e, cancel_one, f, g) refl
      | inr g ↦ rw (e, cancel_one, f, g) refl
    ]
  ]
]

pub cancel_one-IsOrdered :
    (clock : Clock) (item : Option Bytes) (id : ℕ) (q : Queue)
    → IsOrdered q
    → IsOrdered (cancel_one clock item id q).0
cancel_one-IsOrdered clock item id q o = rw (cancel_one-scheduled clock item id q) o

push_some-IsSorted :
    (due : Option ℕ) (id : ℕ) (ss : List (Schedule ℕ))
    → IsSorted ss
    → IsSorted (push_some due id ss)
push_some-IsSorted none id ss o = o
push_some-IsSorted (some due) id ss o = push-IsSorted (record { due = due; inner = id }) ss o

pub retry_one-IsOrdered :
    (clock : Clock) (time : ℕ) (item : Option Bytes) (id : ℕ) (q : Queue)
    → IsOrdered q
    → IsOrdered (retry_one clock time item id q).0
unfolding retry_one retry_found
retry_one-IsOrdered clock time item id q o = elim (Option-cases (lookup id q.messages)) [
  | inl e ↦ rw (e, retry_one) o
  | inr (m, e) ↦ elim (Bool-cases (any (is_retried item) m.domains)) [
    | inl f ↦ rw (e, retry_one, f) (push_some-IsSorted _ id q.scheduled o)
    | inr f ↦ rw (e, retry_one, f) o
  ]
]
