-- ===== src/Queue/Manager/Coverage.antt =====
-- No message is forgotten: each one in the map has a schedule or stands on hold.
use smtp_server.Base.{
  is_some, ℕ, ◌≡◌, refl, ap, inl, inr, Bool, true, ◌||◌, List, [], ◌∷◌, ◌++◌, none, some, any, ◌==◌,
  if◌then◌else◌, arith, Option-cases,
}
use smtp_server.Queue.Message.{Schedule, Message}
use smtp_server.Queue.Manager.State.{
  Queue, OnHold, lookup, without, insert, push, schedule, hold, take_message, due_head, next_due,
  split_first, is_released, next_on_hold,
}

-- The map's laws.
pub lookup-without :
    (k j : ℕ) (ms : List (ℕ × Message))
    → lookup j (without k ms) ≡ (if k == j then none else lookup j ms)
unfolding lookup without
lookup-without k j [] = ground arith
lookup-without k j ((i, m) ∷ ms) = ground (arith, lookup-without k j ms)

pub lookup-insert :
    (k j : ℕ) (m : Message) (ms : List (ℕ × Message))
    → lookup j (insert k m ms) ≡ (if k == j then some m else lookup j ms)
unfolding insert lookup
lookup-insert k j m ms = ground (arith, lookup-without k j ms)

abbrev pub is_scheduled : ℕ → List (Schedule ℕ) → Bool
is_scheduled id = any (λ s. s.inner == id)

abbrev pub is_on_hold : ℕ → List (OnHold ℕ) → Bool
is_on_hold id = any (λ h. h.message == id)

-- Each stored message has a schedule or is on hold.
abbrev pub IsCovered : Queue → Type 0
IsCovered q =
    (id : ℕ)
    → is_some (lookup id q.messages) ≡ true
    → (is_scheduled id q.scheduled || is_on_hold id q.on_hold) ≡ true

pub any-push :
    (p : Schedule ℕ → Bool) (s : Schedule ℕ) (ss : List (Schedule ℕ))
    → any p (push s ss) ≡ p s || any p ss
unfolding push
any-push p s [] = refl
any-push p s (t ∷ ts) = ground (arith, any-push p s ts)

pub any-snoc {ℓ} :
    {A : Type ℓ} (p : A → Bool) (x : A) (xs : List A) → any p (xs ++ x ∷ []) ≡ p x || any p xs
any-snoc p x [] = ground arith
any-snoc p x (y ∷ ys) = ground (arith, any-snoc p x ys)

any-split_first :
    {A : Type 0} (p f : A → Bool) (xs rest : List A) (x : A)
    → split_first f xs ≡ some (x, rest)
    → any p xs ≡ p x || any p rest
unfolding split_first
any-split_first p f [] rest x h = ground arith
any-split_first p f (y ∷ ys) rest x h = elim (Option-cases (split_first f ys)) [
  | inl e ↦ ground (arith, e)
  | inr ((z, zs), e) ↦ ground (arith, e, any-split_first p f ys zs z e)
]

pub schedule-IsCovered : (q : Queue) (s : Schedule Message) → IsCovered q → IsCovered (schedule q s)
unfolding schedule
schedule-IsCovered q s c id h = ground (
  arith,
  any-push (λ t. t.inner == id) (record { due = s.due; inner = s.inner.id }) q.scheduled,
  lookup-insert s.inner.id id s.inner q.messages,
  c id,
)

pub hold-IsCovered : (q : Queue) (h : OnHold Message) → IsCovered q → IsCovered (hold q h)
unfolding hold
hold-IsCovered q o c id h = ground (
  arith,
  any-snoc (λ t. t.message == id)
      (record { next_due = o.next_due; limiters = o.limiters; message = o.message.id }) q.on_hold,
  lookup-insert o.message.id id o.message q.messages,
  c id,
)

-- Taking a message out with one of its entries leaves the others covered.
due_head-IsCovered :
    (now : ℕ) (ss : List (Schedule ℕ)) (q : Queue)
    → q.scheduled ≡ ss
    → IsCovered q
    → IsCovered (due_head now ss q).1
unfolding due_head take_message
due_head-IsCovered now [] q e c id h = c id h
due_head-IsCovered now (s ∷ ss) q e c id h =
    ground (arith, lookup-without s.inner id q.messages, c id, ap (is_scheduled id) e)

pub next_due-IsCovered : (now : ℕ) (q : Queue) → IsCovered q → IsCovered (next_due now q).1
unfolding next_due
next_due-IsCovered now q c = due_head-IsCovered now q.scheduled q refl c

pub next_on_hold-IsCovered :
    (counters : ℕ → ℕ) (now : ℕ) (q : Queue)
    → IsCovered q
    → IsCovered (next_on_hold counters now q).1
unfolding next_on_hold take_message
next_on_hold-IsCovered counters now q c =
    elim (Option-cases (split_first (is_released counters now) q.on_hold)) [
      | inl e ↦ rw (e, next_on_hold) c
      | inr ((o, rest), e) ↦
          rw (e, next_on_hold)
            (λ id h. ground (
              arith,
              lookup-without o.message id q.messages,
              c id,
              any-split_first (λ t. t.message == id) (is_released counters now) q.on_hold rest o e,
            ))
    ]
