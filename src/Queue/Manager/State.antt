-- ===== src/Queue/Manager/State.antt =====
-- `Queue` and its operations. The binary heap of schedules is a list in order of `due`: among
-- equal times the heap promises no order, and here the first pushed comes first. The hash map is
-- an association list with one entry for each key. What `Instant::now()` returns is an argument.
use smtp_server.Base.{
  ℕ, ◌-◌, ◌*◌, Bool, false, ◌||◌, List, [], ◌∷◌, ◌++◌, Option, none, some, any, ltb, leb, ◌==◌,
  if◌then◌else◌,
}
use smtp_server.Queue.Message.{Schedule, Message, nanos}

-- `concurrent`, an `Arc<AtomicU64>`, is the counter's place in the store of counters.
pub record ConcurrencyLimiter : Type 0 where
  pub max_concurrent : ℕ
  pub concurrent : ℕ

pub record OnHold (T : Type 0) : Type 0 where
  pub next_due : Option ℕ
  pub limiters : List ConcurrencyLimiter
  pub message : T

pub record Queue : Type 0 where
  pub short_wait : ℕ
  pub long_wait : ℕ
  pub scheduled : List (Schedule ℕ)
  pub on_hold : List (OnHold ℕ)
  pub messages : List (ℕ × Message)

-- `Queue::default()`: a millisecond and a year
abbrev pub default : Queue
default = record {
  short_wait = 1_000_000;
  long_wait = 86_400 * 365 * nanos;
  scheduled = [];
  on_hold = [];
  messages = [];
}

-- The map: `get`, `remove` and `insert`.
unfoldable pub lookup : ℕ → List (ℕ × Message) → Option Message
lookup k [] = none
lookup k ((j, m) ∷ ms) = let rest = lookup k ms in if j == k then some m else rest

unfoldable pub without : ℕ → List (ℕ × Message) → List (ℕ × Message)
without k [] = []
without k ((j, m) ∷ ms) = let rest = without k ms in if j == k then rest else (j, m) ∷ rest

unfoldable pub insert : ℕ → Message → List (ℕ × Message) → List (ℕ × Message)
unfolding without
insert k m ms = (k, m) ∷ without k ms

-- `BinaryHeap::push` under the order of `Schedule`, which is by `due` reversed.
unfoldable pub push : Schedule ℕ → List (Schedule ℕ) → List (Schedule ℕ)
push s [] = s ∷ []
push s (t ∷ ts) = let rest = push s ts in if ltb s.due t.due then s ∷ t ∷ ts else t ∷ rest

unfoldable pub schedule : Queue → Schedule Message → Queue
schedule q s = record q {
  scheduled = push (record { due = s.due; inner = s.inner.id }) q.scheduled;
  messages = insert s.inner.id s.inner q.messages;
}

unfoldable pub hold : Queue → OnHold Message → Queue
hold q h = record q {
  on_hold =
      q.on_hold
      ++ (record { next_due = h.next_due; limiters = h.limiters; message = h.message.id } ∷ []);
  messages = insert h.message.id h.message q.messages;
}

-- `self.messages.remove(&id)`
unfoldable pub take_message : ℕ → Queue → Option Message × Queue
take_message id q = (lookup id q.messages, record q { messages = without id q.messages })

unfoldable pub due_head : ℕ → List (Schedule ℕ) → Queue → Option Message × Queue
due_head now [] q = (none, q)
due_head now (item ∷ rest) q =
    if leb item.due now then take_message item.inner (record q { scheduled = rest }) else (none, q)

unfoldable pub next_due : ℕ → Queue → Option Message × Queue
unfolding due_head
next_due now q = due_head now q.scheduled q

-- The store of counters is read by `load`.
unfoldable pub is_released : (ℕ → ℕ) → ℕ → OnHold ℕ → Bool
is_released counters now o =
    any (λ l. ltb (counters l.concurrent) l.max_concurrent) o.limiters
    || elim o.next_due [ none ↦ false | some due ↦ leb due now ]

-- `position(..)` and `remove(pos)`: the first that fits, and the others.
unfoldable pub split_first : {A : Type 0} → (A → Bool) → List A → Option (A × List A)
split_first p [] = none
split_first p (x ∷ xs) =
    let rest = split_first p xs in
    if p x then some (x, xs) else elim rest [ none ↦ none | some (y, ys) ↦ some (y, x ∷ ys) ]

unfoldable pub next_on_hold : (ℕ → ℕ) → ℕ → Queue → Option Message × Queue
unfolding take_message
next_on_hold counters now q = elim (split_first (is_released counters now) q.on_hold) [
  | none ↦ (none, q)
  | some (o, rest) ↦ take_message o.message (record q { on_hold = rest })
]

-- `checked_duration_since` is none where the time has passed.
unfoldable pub wait_for : ℕ → List (Schedule ℕ) → Queue → ℕ
wait_for now [] q = q.long_wait
wait_for now (item ∷ rest) q = if leb now item.due then item.due - now else q.short_wait

unfoldable pub wake_up_time : ℕ → Queue → ℕ
unfolding wait_for
wake_up_time now q = wait_for now q.scheduled q
