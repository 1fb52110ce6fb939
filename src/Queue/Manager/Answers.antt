-- ===== src/Queue/Manager/Answers.antt =====
-- Canceling and retrying messages leaves each stored message scheduled or on hold.
use smtp_server.Base.{
  is_some, ℕ, suc, ◌≡◌, ◌≢◌, refl, ap, ◌∙◌, inl, inr, Bool, true, not, ◌||◌, ◌&&◌, List, [], ◌∷◌,
  Option, none, some, Bytes, any, ◌==◌, arith, Bool-cases, Option-cases,
}
use smtp_server.Queue.Message.{Domain, Message, Clock, is_pending}
use smtp_server.Queue.Serialize.Writer.{serialize_changes, domain_changes}
use smtp_server.Queue.Manager.State.{Queue, OnHold, lookup, without, insert, push}
use smtp_server.Queue.Manager.Times.{next_event}
use smtp_server.Queue.Manager.Earliest.{deadlines, next_event-EarliestOf}
use smtp_server.Queue.Manager.Files.{save_changes}
use smtp_server.Queue.Manager.Cancel.{
  cancel_one, cancel_found, cancel_part, cancel_matching, is_matched,
}
use smtp_server.Queue.Manager.Retry.{
  is_retried, retry_domains, retry_found, retry_one, release_hold,
}
use smtp_server.Queue.Manager.Coverage.{
  lookup-without, lookup-insert, is_on_hold, IsCovered, any-push,
}

abbrev any_pending : List Domain → Bool
any_pending = any (λ d. is_pending d.status)

-- A stored message may be replaced or taken out.
replaced-IsCovered :
    (id : ℕ) (m m' : Message) (q : Queue)
    → lookup id q.messages ≡ some m
    → IsCovered q
    → IsCovered (record q { messages = insert id m' q.messages })
replaced-IsCovered id m m' q e c j h = c j (ground (arith, lookup-insert id j m' q.messages, e))

removed-IsCovered :
    (id : ℕ) (q : Queue) → IsCovered q → IsCovered (record q { messages = without id q.messages })
removed-IsCovered id q c j h = c j (ground (arith, lookup-without id j q.messages))

cancel_part-IsCovered :
    (clock : Clock) (id : ℕ) (item : Bytes) (m : Message) (q : Queue)
    → lookup id q.messages ≡ some m
    → IsCovered q
    → IsCovered (cancel_part clock id item m q).0
unfolding cancel_part
cancel_part-IsCovered clock id item m q e c = elim (Bool-cases (is_matched item m)) [
  | inl p ↦ elim (Bool-cases (any_pending (cancel_matching item m).domains)) [
    | inl r ↦ rw (p, cancel_part) (rw r (replaced-IsCovered id m _ q e c))
    | inr r ↦ rw (p, cancel_part) (rw r (removed-IsCovered id q c))
  ]
  | inr p ↦ rw (p, cancel_part) c
]

pub cancel_one-IsCovered :
    (clock : Clock) (item : Option Bytes) (id : ℕ) (q : Queue)
    → IsCovered q
    → IsCovered (cancel_one clock item id q).0
unfolding cancel_one cancel_found
cancel_one-IsCovered clock item id q c = elim (Option-cases (lookup id q.messages)) [
  | inl e ↦ rw (e, cancel_one) c
  | inr (m, e) ↦ rw (e, cancel_one) (found item m e)
]
  where
    found :
        (i : Option Bytes) (m : Message)
        → lookup id q.messages ≡ some m
        → IsCovered (cancel_found clock id i m q).0
    found none m e = removed-IsCovered id q c
    found (some i) m e = cancel_part-IsCovered clock id i m q e c

any_pending-deadlines : (ds : List Domain) → any_pending ds ≡ true → deadlines ds ≢ []
any_pending-deadlines [] h = cc
any_pending-deadlines (d ∷ ds) h = elim (Bool-cases (is_pending d.status)) [
  | inl p ↦ rw p (λ e. cc)
  | inr p ↦ rw p (any_pending-deadlines ds (rw p at h))
]

some_of {ℓ} : {A : Type ℓ} (o : Option A) → is_some o ≡ true → (a : A) × (o ≡ some a)
some_of none h = cc
some_of (some a) h = (a, refl)

next_event-is_some :
    (now : ℕ) (m : Message) → any_pending m.domains ≡ true → is_some (next_event now m) ≡ true
next_event-is_some now m h = elim (Option-cases (next_event now m)) [
  | inl e ↦ absurd (any_pending-deadlines m.domains h (rw e at (next_event-EarliestOf now m)))
  | inr (t, e) ↦ rw e
]

any_pending-domain_changes :
    (now : Clock) (i : ℕ) (ds : List Domain)
    → any_pending (domain_changes now i ds).1 ≡ any_pending ds
unfolding domain_changes
any_pending-domain_changes now i [] = refl
any_pending-domain_changes now i (d ∷ ds) = elim (Bool-cases d.changed) [
  | inl e ↦ rw e (ap (λ b. is_pending d.status || b) (any_pending-domain_changes now (suc i) ds))
  | inr e ↦ rw e (ap (λ b. is_pending d.status || b) (any_pending-domain_changes now (suc i) ds))
]

any_pending-retry_domains :
    (time : ℕ) (item : Option Bytes) (ds : List Domain)
    → any_pending (retry_domains time item ds) ≡ any_pending ds
unfolding retry_domains
any_pending-retry_domains time item [] = refl
any_pending-retry_domains time item (d ∷ ds) = elim (Bool-cases (is_retried item d)) [
  | inl e ↦ rw e (ap (λ b. is_pending d.status || b) (any_pending-retry_domains time item ds))
  | inr e ↦ rw e (ap (λ b. is_pending d.status || b) (any_pending-retry_domains time item ds))
]

any_retried-pending :
    (item : Option Bytes) (ds : List Domain)
    → any (is_retried item) ds ≡ true
    → any_pending ds ≡ true
unfolding is_retried
any_retried-pending item [] h = cc
any_retried-pending item (d ∷ ds) h = ground (arith, any_retried-pending item ds)

any-release_hold :
    (id j : ℕ) (hs : List (OnHold ℕ))
    → is_on_hold j (release_hold id hs) ≡ not (id == j) && is_on_hold j hs
any-release_hold id j [] = ground arith
any-release_hold id j (h ∷ hs) = ground (arith, any-release_hold id j hs)

-- A message that is put back with a new schedule is covered without its place on hold.
rescheduled-IsCovered :
    (id due : ℕ) (m : Message) (q : Queue)
    → IsCovered q
    → IsCovered (record q {
      on_hold = release_hold id q.on_hold;
      messages = insert id m q.messages;
      scheduled = push (record { due = due; inner = id }) q.scheduled;
    })
rescheduled-IsCovered id due m q c j h = ground (
  arith,
  c j,
  lookup-insert id j m q.messages,
  any-release_hold id j q.on_hold,
  any-push (λ t. t.inner == j) (record { due = due; inner = id }) q.scheduled,
)

any_pending-saved :
    (clock : Clock) (m : Message)
    → any_pending (save_changes clock m).0.domains ≡ any_pending m.domains
unfolding save_changes serialize_changes
any_pending-saved clock m = any_pending-domain_changes clock 0 m.domains

retry_found-IsCovered :
    (clock : Clock) (time : ℕ) (item : Option Bytes) (id : ℕ) (m : Message) (q : Queue)
    → lookup id q.messages ≡ some m
    → IsCovered q
    → IsCovered (retry_found clock time item id m q).0
unfolding retry_found
retry_found-IsCovered clock time item id m q e c =
    let retried : Message = record m { domains = retry_domains time item m.domains } in
    let saved : Message = (save_changes clock retried).0 in
    elim (Bool-cases (any (is_retried item) m.domains)) [
      | inl p ↦
          let pending : any_pending saved.domains ≡ true =
            any_pending-saved clock retried
            ∙ any_pending-retry_domains time item m.domains
            ∙ any_retried-pending item m.domains p in
          let (due, t) =
            some_of (next_event clock.instant saved)
              (next_event-is_some clock.instant saved pending) in
          rw (p, retry_found) (rw t (rescheduled-IsCovered id due saved q c))
      | inr p ↦ rw (p, retry_found) c
    ]

pub retry_one-IsCovered :
    (clock : Clock) (time : ℕ) (item : Option Bytes) (id : ℕ) (q : Queue)
    → IsCovered q
    → IsCovered (retry_one clock time item id q).0
unfolding retry_one
retry_one-IsCovered clock time item id q c = elim (Option-cases (lookup id q.messages)) [
  | inl e ↦ rw (e, retry_one) c
  | inr (m, e) ↦ rw (e, retry_one) (retry_found-IsCovered clock time item id m q e c)
]
