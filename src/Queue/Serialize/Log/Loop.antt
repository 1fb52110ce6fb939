-- ===== src/Queue/Serialize/Log/Loop.antt =====
-- The loop over a log of records makes the edits of the log, with a round of fuel for each.
use smtp_server.Base.{
  ℕ, zero, suc, ◌-◌, ◌^◌, ◌<◌, ◌≤◌, ◌≡◌, refl, ◌∙◌, ap, true, false, List, [], ◌∷◌, ◌++◌,
  append_assoc, some, arith, Bytes, length, length-append, All, Bool-cases, inl, inr,
}
use smtp_server.Queue.Message.{Domain, Recipient, Message, Clock, has_flag, rcpt_status_changed}
use smtp_server.Queue.Serialize.Writer.{
  domain_serialize, recipient_serialize, domain_records, recipient_records, domain_changes,
  recipient_changes, unmarked,
}
use smtp_server.Queue.Serialize.Reader.{status_record, status_loop}
use smtp_server.Queue.Serialize.Edits.{modify, length-modify, apply_edits, edits}
use smtp_server.Queue.Serialize.Log.{
  DomainFits, StateFits, patch_domain, patch_recipient, status_record-domain,
  status_record-recipient,
}

abbrev pub unchanged : Domain → Domain
unchanged d = record d { changed = false }

module _ (now : Clock) where
  abbrev pub domain_log : List (ℕ × Domain) → Bytes
  domain_log [] = []
  domain_log ((i, d) ∷ es) = domain_serialize now i d ++ domain_log es

abbrev pub recipient_log : List (ℕ × Recipient) → Bytes
recipient_log [] = []
recipient_log ((i, r) ∷ es) = recipient_serialize i r ++ recipient_log es

-- The writer's loops write logs.
pub domain_records-log :
    (now : Clock) (i : ℕ) (ds : List Domain)
    → domain_records now i ds ≡ domain_log now (edits (λ _. true) (λ d. d) i ds)
unfolding domain_records
domain_records-log now i [] = refl
domain_records-log now i (d ∷ ds) =
    ap (λ bs. domain_serialize now i d ++ bs) (domain_records-log now (suc i) ds)

pub recipient_records-log :
    (i : ℕ) (rs : List Recipient)
    → recipient_records i rs ≡ recipient_log (edits (λ _. true) (λ r. r) i rs)
unfolding recipient_records
recipient_records-log i [] = refl
recipient_records-log i (r ∷ rs) =
    ap (λ bs. recipient_serialize i r ++ bs) (recipient_records-log (suc i) rs)

pub domain_changes-log :
    (now : Clock) (i : ℕ) (ds : List Domain)
    → (domain_changes now i ds).0 ≡ domain_log now (edits (λ d. d.changed) unchanged i ds)
unfolding domain_changes
domain_changes-log now i [] = refl
domain_changes-log now i (d ∷ ds) = elim (Bool-cases d.changed) [
  | inl e ↦
      rw e
        (ap (λ bs. domain_serialize now i (unchanged d) ++ bs) (domain_changes-log now (suc i) ds))
  | inr e ↦ rw e (domain_changes-log now (suc i) ds)
]

pub recipient_changes-log :
    (i : ℕ) (rs : List Recipient)
    → (recipient_changes i rs).0
      ≡ recipient_log (edits (λ r. has_flag r.flags rcpt_status_changed) unmarked i rs)
unfolding recipient_changes
recipient_changes-log i [] = refl
recipient_changes-log i (r ∷ rs) = elim (Bool-cases (has_flag r.flags rcpt_status_changed)) [
  | inl e ↦
      rw e (ap (λ bs. recipient_serialize i (unmarked r) ++ bs) (recipient_changes-log (suc i) rs))
  | inr e ↦ rw e (recipient_changes-log (suc i) rs)
]

pub status_loop_step :
    (clock : Clock) (fuel : ℕ) (m m' : Message) (bytes rest : Bytes)
    → status_record clock m bytes ≡ some (m', rest)
    → status_loop clock (suc fuel) m bytes ≡ status_loop clock fuel m' rest
unfolding status_loop
status_loop_step clock fuel m m' bytes rest e = rw (e, status_loop)

module _ (now clock : Clock) (n : ℕ) (word : n < 2 ^ 64) where
  pub status_loop-domain_log :
      (fuel : ℕ) (m : Message) (es : List (ℕ × Domain)) (rest : Bytes)
      → length es ≤ fuel
      → length m.domains ≡ n
      → All (λ e. e.0 < n) es
      → All (λ e. DomainFits now e.1) es
      → status_loop clock fuel m (domain_log now es ++ rest)
        ≡ status_loop clock
            (fuel - length es)
            (record m { domains = apply_edits (patch_domain now clock) m.domains es })
            rest
  status_loop-domain_log fuel m [] rest f size h g =
      ap (λ (k : ℕ). status_loop clock k m rest) (omega arith)
  status_loop-domain_log zero m ((i, d) ∷ es) rest f size h g = absurd (omega arith)
  status_loop-domain_log (suc fuel) m ((i, d) ∷ es) rest f size h g =
      let m' : Message = record m { domains = modify m.domains i (patch_domain now clock d) } in
      let e : suc fuel - suc (length es) ≡ fuel - length es = omega arith in
      rw (append_assoc (domain_serialize now i d) (domain_log now es) rest, e)
        (status_loop_step clock fuel m m' _ (domain_log now es ++ rest) (
            status_record-domain now clock m i d (domain_log now es ++ rest) (omega (arith, h.0))
              (omega (arith, h.0)) g.0)
          ∙ status_loop-domain_log fuel m' es rest (omega arith)
              (length-modify m.domains i (patch_domain now clock d) ∙ size) h.1 g.1)

  pub status_loop-recipient_log :
      (fuel : ℕ) (m : Message) (es : List (ℕ × Recipient)) (rest : Bytes)
      → length es ≤ fuel
      → length m.recipients ≡ n
      → All (λ e. e.0 < n) es
      → All (λ e. StateFits e.1) es
      → status_loop clock fuel m (recipient_log es ++ rest)
        ≡ status_loop clock
            (fuel - length es)
            (record m { recipients = apply_edits patch_recipient m.recipients es })
            rest
  status_loop-recipient_log fuel m [] rest f size h g =
      ap (λ (k : ℕ). status_loop clock k m rest) (omega arith)
  status_loop-recipient_log zero m ((i, r) ∷ es) rest f size h g = absurd (omega arith)
  status_loop-recipient_log (suc fuel) m ((i, r) ∷ es) rest f size h g =
      let m' : Message = record m { recipients = modify m.recipients i (patch_recipient r) } in
      let e : suc fuel - suc (length es) ≡ fuel - length es = omega arith in
      rw (append_assoc (recipient_serialize i r) (recipient_log es) rest, e)
        (status_loop_step clock fuel m m' _ (recipient_log es ++ rest) (
            status_record-recipient now clock m i r (recipient_log es ++ rest) (omega (arith, h.0))
              (omega (arith, h.0)) g.0)
          ∙ status_loop-recipient_log fuel m' es rest (omega arith)
              (length-modify m.recipients i (patch_recipient r) ∙ size) h.1 g.1)

pub status_loop-nil : (clock : Clock) (fuel : ℕ) (m : Message) → status_loop clock fuel m [] ≡ m
unfolding status_loop status_record
status_loop-nil clock zero m = refl
status_loop-nil clock (suc fuel) m = refl

pub length-domain_log :
    (now : Clock) (es : List (ℕ × Domain)) → length es ≤ length (domain_log now es)
unfolding domain_serialize
length-domain_log now [] = omega arith
length-domain_log now ((i, d) ∷ es) =
    omega (
      arith,
      length-append (domain_serialize now i d) (domain_log now es),
      length-domain_log now es,
    )

pub length-recipient_log : (es : List (ℕ × Recipient)) → length es ≤ length (recipient_log es)
unfolding recipient_serialize
length-recipient_log [] = omega arith
length-recipient_log ((i, r) ∷ es) =
    omega
      (arith, length-append (recipient_serialize i r) (recipient_log es), length-recipient_log es)
