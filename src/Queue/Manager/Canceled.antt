-- ===== src/Queue/Manager/Canceled.antt =====
-- What `QueueRequest::Cancel` leaves of a message, and of the others.
mod Settled
mod Effect
pub use Settled.{IsSettled}
use smtp_server.Base.{
  is_some, ℕ, suc, ◌+◌, subst, ◌≢◌, ◌≤◌, ◌<◌, ◌≡◌, refl, sym, ◌∙◌, ap, ◌⊎◌, inl, inr, Bool, true,
  false, not, ◌&&◌, ◌||◌, List, [], ◌∷◌, ◌++◌, Option, none, some, Bytes, any, All, contains, ◌==◌,
  if◌then◌else◌, arith, Bool-cases, Option-cases,
}
use smtp_server.Queue.Message.{
  Domain, Recipient, Message, Clock, is_pending, is_final, has_flag, rcpt_status_changed,
}
use smtp_server.Queue.Serialize.Writer.{
  recipient_serialize, serialize_changes, domain_changes, recipient_changes, unmarked,
}
use smtp_server.Queue.Manager.State.{Queue, lookup, without, insert}
use smtp_server.Queue.Manager.Files.{save_changes, remove, FileOp}
use smtp_server.Queue.Manager.Cancel.{
  cancel_recipients, cancel_recipient, total_rcpt, total_completed, complete_domains,
  complete_domain, cancel_matching, is_matched, has_pending, cancel_part, cancel_found, cancel_one,
}
use smtp_server.Queue.Manager.Coverage.{lookup-without, lookup-insert}
use smtp_server.Queue.Manager.Canceled.Effect.{
  HaveNobody, IsCanceledTo, saved-IsCanceledTo, removed-HaveNobody,
}

-- What a request with an item, or with none, makes of what stands in the map for a message.
abbrev pub IsCanceledIn : Option Bytes → Option Message → Option Message → Type 0
IsCanceledIn item none o = o ≡ none
IsCanceledIn none (some m) o = o ≡ none
IsCanceledIn (some item) (some m) none = HaveNobody item 0 m.recipients m.domains
IsCanceledIn (some item) (some m) (some m') = IsCanceledTo item m m'

-- Whether a request finds a message.
abbrev pub is_found : Option Bytes → Option Message → Bool
is_found item none = false
is_found none (some m) = true
is_found (some item) (some m) = is_matched item m

lookup-removed : (id : ℕ) (ms : List (ℕ × Message)) → lookup id (without id ms) ≡ none
lookup-removed id ms = ground (arith, lookup-without id id ms)

lookup-inserted :
    (id : ℕ) (m : Message) (ms : List (ℕ × Message)) → lookup id (insert id m ms) ≡ some m
lookup-inserted id m ms = ground (arith, lookup-insert id id m ms)

cancel_part-canceled :
    (clock : Clock) (id : ℕ) (item : Bytes) (m : Message) (q : Queue)
    → is_matched item m ≡ true
    → (let r = cancel_part clock id item m q in
        (r.1 ≡ true) × IsCanceledIn (some item) (some m) (lookup id r.0.messages))
unfolding cancel_part
cancel_part-canceled clock id item m q h =
    let m' = cancel_matching item m in
    elim (Bool-cases (has_pending m')) [
      | inl p ↦
          rw (h, p)
            (
              refl,
              subst (IsCanceledIn (some item) (some m))
                  (sym (lookup-inserted id (save_changes clock m').0 q.messages))
                  (saved-IsCanceledTo clock item m p),
            )
      | inr p ↦
          rw (h, p)
            (
              refl,
              subst (IsCanceledIn (some item) (some m)) (sym (lookup-removed id q.messages))
                  (removed-HaveNobody item m p),
            )
    ]

-- A request to cancel finds a message if it is in the map and, where the request names an item, a
-- recipient of it contains the item. Without an item the message is then out of the map. With one,
-- the recipients that contain it are canceled and the others are left, and a pending domain is
-- completed if and only if each of its recipients contains the item or has nothing left to deliver.
-- The message is out of the map if that holds of every pending domain, and else it is there with a
-- pending domain. Nothing else in it changes, but that marks of what has changed are cleared.
pub cancel_one-IsCanceledIn :
    (clock : Clock) (item : Option Bytes) (id : ℕ) (q : Queue)
    → is_found item (lookup id q.messages) ≡ true
    → (let r = cancel_one clock item id q in
        (r.1 ≡ true) × IsCanceledIn item (lookup id q.messages) (lookup id r.0.messages))
unfolding cancel_one cancel_found
cancel_one-IsCanceledIn clock none id q h = elim (Option-cases (lookup id q.messages)) [
  | inl e ↦ absurd (cc)
  | inr (m, e) ↦ rw (e, cancel_one) (refl, lookup-removed id q.messages)
]
cancel_one-IsCanceledIn clock (some item) id q h = elim (Option-cases (lookup id q.messages)) [
  | inl e ↦ absurd (cc)
  | inr (m, e) ↦ rw (e, cancel_one) (cancel_part-canceled clock id item m q (rw e at h))
]

unfound :
    (clock : Clock) (item : Option Bytes) (id : ℕ) (q : Queue)
    → is_found item (lookup id q.messages) ≡ false
    → (cancel_one clock item id q).0 ≡ q
unfolding cancel_one cancel_found cancel_part
unfound clock none id q h = elim (Option-cases (lookup id q.messages)) [
  | inl e ↦ rw (e, cancel_one) refl
  | inr (m, e) ↦ absurd cc
]
unfound clock (some item) id q h = elim (Option-cases (lookup id q.messages)) [
  | inl e ↦ rw (e, cancel_one) refl
  | inr (m, e) ↦ rw (e, cancel_one, rw e at h) refl
]

lookup-without_other :
    (id j : ℕ) (ms : List (ℕ × Message)) → id ≢ j → lookup j (without id ms) ≡ lookup j ms
lookup-without_other id j ms h = ground (arith, lookup-without id j ms, h)

lookup-insert_other :
    (id j : ℕ) (m : Message) (ms : List (ℕ × Message))
    → id ≢ j
    → lookup j (insert id m ms) ≡ lookup j ms
lookup-insert_other id j m ms h = ground (arith, lookup-insert id j m ms, h)

other :
    (clock : Clock) (item : Option Bytes) (id j : ℕ) (q : Queue)
    → id ≢ j
    → lookup j (cancel_one clock item id q).0.messages ≡ lookup j q.messages
unfolding cancel_one cancel_found cancel_part
other clock none id j q h = elim (Option-cases (lookup id q.messages)) [
  | inl e ↦ rw (e, cancel_one) refl
  | inr (m, e) ↦ rw (e, cancel_one) (lookup-without_other id j q.messages h)
]
other clock (some item) id j q h = elim (Option-cases (lookup id q.messages)) [
  | inl e ↦ rw (e, cancel_one) refl
  | inr (m, e) ↦ elim (Bool-cases (is_matched item m)) [
    | inr f ↦ rw (e, cancel_one, f) refl
    | inl f ↦ elim (Bool-cases (has_pending (cancel_matching item m))) [
      | inl g ↦ rw (e, cancel_one, f, g) (lookup-insert_other id j _ q.messages h)
      | inr g ↦ rw (e, cancel_one, f, g) (lookup-without_other id j q.messages h)
    ]
  ]
]

-- A request to cancel that does not find its message changes nothing in the map, and one that finds
-- it changes no other message.
pub cancel_one-others :
    (clock : Clock) (item : Option Bytes) (id j : ℕ) (q : Queue)
    → (id ≢ j) ⊎ (is_found item (lookup id q.messages) ≡ false)
    → lookup j (cancel_one clock item id q).0.messages ≡ lookup j q.messages
cancel_one-others clock item id j q (inl h) = other clock item id j q h
cancel_one-others clock item id j q (inr h) =
    ap (λ (q' : Queue). lookup j q'.messages) (unfound clock item id q h)
