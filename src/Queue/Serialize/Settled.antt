-- ===== src/Queue/Serialize/Settled.antt =====
-- `serialize_changes` leaves nothing to be saved.
use smtp_server.Base.{
  ℕ, suc, ◌≡◌, refl, ap, ◌∙◌, Bytes, Bool, true, false, List, [], ◌∷◌, ◌++◌, All, arith,
  if◌then◌else◌, Bool-cases, inl, inr,
}
use smtp_server.Queue.Message.{Domain, Recipient, Message, Clock, has_flag, rcpt_status_changed}
use smtp_server.Queue.Serialize.Writer.{
  serialize_changes, domain_serialize, domain_changes, recipient_changes, unmarked,
}

abbrev pub IsSaved : Message → Type 0
IsSaved m =
    All (λ d. d.changed ≡ false) m.domains
    × All (λ r. has_flag r.flags rcpt_status_changed ≡ false) m.recipients

either_unchanged :
    (d : Domain) (b : Bool) (w w' : Bytes) (ds : List Domain)
    → d.changed ≡ b
    → All (λ d. d.changed ≡ false) ds
    → (let r : Bytes × List Domain =
          if b then (w, record d { changed = false } ∷ ds) else (w', d ∷ ds) in
        All (λ d. d.changed ≡ false) r.1)
either_unchanged d true w w' ds p a = (refl, a)
either_unchanged d false w w' ds p a = (p, a)

domain_changes-clears :
    (now : Clock) (idx : ℕ) (ds : List Domain)
    → All (λ d. d.changed ≡ false) (domain_changes now idx ds).1
unfolding domain_changes
domain_changes-clears now idx [] = tt
domain_changes-clears now idx (d ∷ ds) =
    either_unchanged d d.changed _ _ (domain_changes now (suc idx) ds).1 refl
      (domain_changes-clears now (suc idx) ds)

unmarked_flag : (r : Recipient) → has_flag (unmarked r).flags rcpt_status_changed ≡ false
unfolding unmarked
unmarked_flag r = ground arith

recipient_changes-clears :
    (idx : ℕ) (rs : List Recipient)
    → All (λ r. has_flag r.flags rcpt_status_changed ≡ false) (recipient_changes idx rs).1
unfolding recipient_changes
recipient_changes-clears idx [] = tt
recipient_changes-clears idx (r ∷ rs) = elim (Bool-cases (has_flag r.flags rcpt_status_changed)) [
  | inl p ↦ rw p (unmarked_flag r, recipient_changes-clears (suc idx) rs)
  | inr p ↦ rw p (p, recipient_changes-clears (suc idx) rs)
]

domain_changes-saved :
    (now : Clock) (idx : ℕ) (ds : List Domain)
    → All (λ d. d.changed ≡ false) ds
    → domain_changes now idx ds ≡ ([], ds)
unfolding domain_changes
domain_changes-saved now idx [] h = refl
domain_changes-saved now idx (d ∷ ds) h =
    let r = domain_changes now (suc idx) ds in
    let w = domain_serialize now idx (record d { changed = false }) ++ r.0 in
    let e : domain_changes now idx (d ∷ ds) ≡ (r.0, d ∷ r.1) =
      ap (λ b. if b then (w, record d { changed = false } ∷ r.1) else (r.0, d ∷ r.1)) h.0 in
    e ∙ ap (λ (t : Bytes × List Domain). (t.0, d ∷ t.1)) (domain_changes-saved now (suc idx) ds h.1)

recipient_changes-saved :
    (idx : ℕ) (rs : List Recipient)
    → All (λ r. has_flag r.flags rcpt_status_changed ≡ false) rs
    → recipient_changes idx rs ≡ ([], rs)
unfolding recipient_changes
recipient_changes-saved idx [] h = refl
recipient_changes-saved idx (r ∷ rs) h =
    rw (h.0, recipient_changes)
      (ap (λ (s : Bytes × List Recipient). (s.0, r ∷ s.1))
        (recipient_changes-saved (suc idx) rs h.1))

-- After the changes of a message are written out nothing in it is marked as changed, and to write
-- the changes again, at any time, writes nothing and changes nothing.
pub serialize_changes-again :
    (now later : Clock) (m : Message)
    → (let m' = (serialize_changes now m).1 in IsSaved m' × (serialize_changes later m' ≡ ([], m')))
unfolding serialize_changes
serialize_changes-again now later m =
    let ds = domain_changes-clears now 0 m.domains in
    let rs = recipient_changes-clears 0 m.recipients in
    let eds = domain_changes-saved later 0 (domain_changes now 0 m.domains).1 ds in
    let ers = recipient_changes-saved 0 (recipient_changes 0 m.recipients).1 rs in
    (
      (ds, rs),
      ap
            (λ (t : Bytes × List Domain). (
              t.0 ++ (recipient_changes 0 (recipient_changes 0 m.recipients).1).0,
              record m {
                domains = t.1;
                recipients = (recipient_changes 0 (recipient_changes 0 m.recipients).1).1;
              },
            ))
            eds
          ∙ ap
              (λ (t : Bytes × List Recipient).
                (t.0, record m { domains = (domain_changes now 0 m.domains).1; recipients = t.1 }))
              ers,
    )
