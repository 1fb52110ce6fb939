-- ===== src/Queue/Manager/Earliest.antt =====
-- The next time of a message is the earliest deadline of its pending domains.
use smtp_server.Base.{
  ℕ, ◌≤◌, ◌≡◌, refl, ap, ◌∙◌, ◌⊎◌, inl, inr, Bool, true, false, List, [], ◌∷◌, Option, none, some,
  All, In, keep, ltb, if◌then◌else◌, arith, Bool-cases,
}
use smtp_server.Queue.Message.{Domain, Message, is_pending}
use smtp_server.Queue.Manager.Times.{
  earlier, event_step, next_event_loop, delivery_step, after_step, next_event, next_delivery_loop,
  next_delivery_event, sooner_after, next_after_loop, next_event_after,
}

-- The retry, notify and expiry times of the pending domains.
abbrev pub deadlines : List Domain → List ℕ
deadlines [] = []
deadlines (d ∷ ds) =
    let rest = deadlines ds in
    if is_pending d.status then d.retry.due ∷ d.notify.due ∷ d.expires ∷ rest else rest

-- None of an empty list, and otherwise an element that is at most every other.
abbrev pub EarliestOf : Option ℕ → List ℕ → Type 0
EarliestOf none times = times ≡ []
EarliestOf (some t) times = In t times × All (λ x. t ≤ x) times

-- The least of the times and of a first one.
abbrev least : ℕ → List ℕ → ℕ
least next [] = next
least next (x ∷ xs) = least (earlier x next) xs

abbrev least? : Option ℕ → List ℕ → Option ℕ
least? none [] = none
least? none (x ∷ xs) = some (least x xs)
least? (some n) xs = some (least n xs)

abbrev tracked : ℕ → Bool → Option ℕ
tracked next has = if has then some next else none

least-le : (next : ℕ) (xs : List ℕ) → least next xs ≤ next
least-le next [] = omega arith
least-le next (x ∷ xs) = ground (arith, least-le (earlier x next) xs)

least-All : (next : ℕ) (xs : List ℕ) → All (λ x. least next xs ≤ x) xs
least-All next [] = tt
least-All next (x ∷ xs) =
    (ground (arith, least-le (earlier x next) xs), least-All (earlier x next) xs)

earlier-cases : (x next : ℕ) → (earlier x next ≡ x) ⊎ (earlier x next ≡ next)
earlier-cases x next = ground arith

least-In : (next : ℕ) (xs : List ℕ) → (least next xs ≡ next) ⊎ In (least next xs) xs
least-In next [] = inl refl
least-In next (x ∷ xs) = elim (least-In (earlier x next) xs) [
  | inl e ↦ elim (earlier-cases x next) [ inl p ↦ inr (inl (e ∙ p)) | inr p ↦ inl (e ∙ p) ]
  | inr i ↦ inr (inr i)
]

least?-EarliestOf : (xs : List ℕ) → EarliestOf (least? none xs) xs
least?-EarliestOf [] = refl
least?-EarliestOf (x ∷ xs) = (least-In x xs, (least-le x xs, least-All x xs))

event_step_waiting :
    (next : ℕ) (has : Bool) (d : Domain)
    → is_pending d.status ≡ false
    → event_step next has d ≡ (next, has)
unfolding event_step
event_step_waiting next has d p = rw p

event_step_pending :
    (next : ℕ) (has : Bool) (d : Domain)
    → is_pending d.status ≡ true
    → event_step next has d ≡ (
      earlier d.expires
          (earlier d.notify.due (if has then earlier d.retry.due next else d.retry.due)),
      true,
    )
unfolding event_step
event_step_pending next true d p = rw p
event_step_pending next false d p = rw p

from_step :
    (ds : List Domain) {s t : ℕ × Bool}
    → s ≡ t
    → (let r = next_event_loop s.0 s.1 ds in tracked r.0 r.1)
      ≡ (let r = next_event_loop t.0 t.1 ds in tracked r.0 r.1)
from_step ds e = ap (λ (s : ℕ × Bool). let r = next_event_loop s.0 s.1 ds in tracked r.0 r.1) e

next_event_loop-least :
    (next : ℕ) (has : Bool) (ds : List Domain)
    → (let r = next_event_loop next has ds in tracked r.0 r.1)
      ≡ least? (tracked next has) (deadlines ds)
unfolding next_event_loop
next_event_loop-least next true [] = refl
next_event_loop-least next false [] = refl
next_event_loop-least next true (d ∷ ds) = elim (Bool-cases (is_pending d.status)) [
  | inl p ↦
      from_step ds (event_step_pending next true d p)
      ∙ next_event_loop-least (earlier d.expires (earlier d.notify.due (earlier d.retry.due next)))
          true ds
      ∙ rw p
  | inr p ↦
      from_step ds (event_step_waiting next true d p) ∙ next_event_loop-least next true ds ∙ rw p
]
next_event_loop-least next false (d ∷ ds) = elim (Bool-cases (is_pending d.status)) [
  | inl p ↦
      from_step ds (event_step_pending next false d p)
      ∙ next_event_loop-least (earlier d.expires (earlier d.notify.due d.retry.due)) true ds
      ∙ rw p
  | inr p ↦
      from_step ds (event_step_waiting next false d p) ∙ next_event_loop-least next false ds ∙ rw p
]

-- `next_event` is the earliest of the retry, notify and expiry times of the pending domains, and
-- none if no domain is pending.
pub next_event-EarliestOf :
    (now : ℕ) (m : Message) → EarliestOf (next_event now m) (deadlines m.domains)
unfolding next_event
next_event-EarliestOf now m =
    rw (next_event_loop-least now false m.domains) (least?-EarliestOf (deadlines m.domains))

-- The retry times of the pending domains.
abbrev pub retries : List Domain → List ℕ
retries [] = []
retries (d ∷ ds) = let rest = retries ds in if is_pending d.status then d.retry.due ∷ rest else rest

-- The earliest of the times, and the given one of none.
abbrev pub EarliestOr : ℕ → ℕ → List ℕ → Type 0
EarliestOr now t [] = t ≡ now
EarliestOr now t (x ∷ xs) = In t (x ∷ xs) × All (λ y. t ≤ y) (x ∷ xs)

least-EarliestOr : (now x : ℕ) (xs : List ℕ) → EarliestOr now (least x xs) (x ∷ xs)
least-EarliestOr now x xs = (least-In x xs, (least-le x xs, least-All x xs))

delivery_step_waiting :
    (next : ℕ) (first : Bool) (d : Domain)
    → is_pending d.status ≡ false
    → delivery_step next first d ≡ (next, first)
unfolding delivery_step
delivery_step_waiting next first d p = rw p

delivery_step_pending :
    (next : ℕ) (first : Bool) (d : Domain)
    → is_pending d.status ≡ true
    → delivery_step next first d
      ≡ ((if first then d.retry.due else earlier d.retry.due next), false)
unfolding delivery_step
delivery_step_pending next true d p = rw p
delivery_step_pending next false d p = rw p

next_delivery_loop-later :
    (next : ℕ) (ds : List Domain) → next_delivery_loop next false ds ≡ least next (retries ds)
unfolding next_delivery_loop
next_delivery_loop-later next [] = refl
next_delivery_loop-later next (d ∷ ds) = elim (Bool-cases (is_pending d.status)) [
  | inl p ↦
      ap (λ (s : ℕ × Bool). next_delivery_loop s.0 s.1 ds) (delivery_step_pending next false d p)
      ∙ next_delivery_loop-later (earlier d.retry.due next) ds
      ∙ rw p
  | inr p ↦
      ap (λ (s : ℕ × Bool). next_delivery_loop s.0 s.1 ds) (delivery_step_waiting next false d p)
      ∙ next_delivery_loop-later next ds
      ∙ rw p
]

next_delivery_loop-EarliestOr :
    (now : ℕ) (ds : List Domain) → EarliestOr now (next_delivery_loop now true ds) (retries ds)
unfolding next_delivery_loop
next_delivery_loop-EarliestOr now [] = refl
next_delivery_loop-EarliestOr now (d ∷ ds) = elim (Bool-cases (is_pending d.status)) [
  | inl p ↦
      let e : next_delivery_loop now true (d ∷ ds) ≡ least d.retry.due (retries ds) =
        ap (λ (s : ℕ × Bool). next_delivery_loop s.0 s.1 ds) (delivery_step_pending now true d p)
        ∙ next_delivery_loop-later d.retry.due ds in
      rw (e, p) (least-EarliestOr now d.retry.due (retries ds))
  | inr p ↦
      let e : next_delivery_loop now true (d ∷ ds) ≡ next_delivery_loop now true ds =
        ap (λ (s : ℕ × Bool). next_delivery_loop s.0 s.1 ds) (delivery_step_waiting now true d p) in
      rw (e, p) (next_delivery_loop-EarliestOr now ds)
]

-- `next_delivery_event` is the earliest retry time of the pending domains, and the time of the
-- call if no domain is pending.
pub next_delivery_event-EarliestOr :
    (now : ℕ) (m : Message) → EarliestOr now (next_delivery_event now m) (retries m.domains)
unfolding next_delivery_event
next_delivery_event-EarliestOr now m = next_delivery_loop-EarliestOr now m.domains

-- The times that are later than an instant.
abbrev pub after : ℕ → List ℕ → List ℕ
after instant times = keep (λ t. ltb instant t) times

earlier_lt : (time n : ℕ) → ltb time n ≡ true → time ≡ earlier time n
earlier_lt time n q = rw q

earlier_ge : (time n : ℕ) → ltb time n ≡ false → n ≡ earlier time n
earlier_ge time n q = rw q

sooner_after-least :
    (instant time : ℕ) (next : Option ℕ) (rest : List ℕ)
    → least? (sooner_after instant time next) (after instant rest)
      ≡ least? next (after instant (time ∷ rest))
sooner_after-least instant time none rest = elim (Bool-cases (ltb instant time)) [
  | inl p ↦ rw p
  | inr p ↦ rw p
]
sooner_after-least instant time (some n) rest = elim (Bool-cases (ltb instant time)) [
  | inl p ↦ elim (Bool-cases (ltb time n)) [
    | inl q ↦ rw (p, q) (ap (λ (k : ℕ). some (least k (after instant rest))) (earlier_lt time n q))
    | inr q ↦ rw (p, q) (ap (λ (k : ℕ). some (least k (after instant rest))) (earlier_ge time n q))
  ]
  | inr p ↦ rw p
]

after_step-least :
    (instant : ℕ) (next : Option ℕ) (d : Domain) (rest : List ℕ)
    → least? (after_step instant next d) (after instant rest)
      ≡ least? next (
          after instant
            (if is_pending d.status then d.retry.due ∷ d.notify.due ∷ d.expires ∷ rest else rest))
unfolding after_step
after_step-least instant next d rest = elim (Bool-cases (is_pending d.status)) [
  | inl p ↦
      let first = sooner_after instant d.retry.due next in
      let second = sooner_after instant d.notify.due first in
      rw p (
        sooner_after-least instant d.expires second rest
        ∙ sooner_after-least instant d.notify.due first (d.expires ∷ rest)
        ∙ sooner_after-least instant d.retry.due next (d.notify.due ∷ d.expires ∷ rest))
  | inr p ↦ rw p
]

next_after_loop-least :
    (instant : ℕ) (next : Option ℕ) (ds : List Domain)
    → next_after_loop instant next ds ≡ least? next (after instant (deadlines ds))
unfolding next_after_loop
next_after_loop-least instant none [] = refl
next_after_loop-least instant (some n) [] = refl
next_after_loop-least instant next (d ∷ ds) =
    next_after_loop-least instant (after_step instant next d) ds
    ∙ after_step-least instant next d (deadlines ds)

-- `next_event_after` is the earliest of the deadlines of pending domains that are later than the
-- instant, and none if there is no such deadline.
pub next_event_after-EarliestOf :
    (instant : ℕ) (m : Message)
    → EarliestOf (next_event_after instant m) (after instant (deadlines m.domains))
unfolding next_event_after
next_event_after-EarliestOf instant m =
    rw (next_after_loop-least instant none m.domains)
      (least?-EarliestOf (after instant (deadlines m.domains)))
