-- ===== src/Queue/Manager/Canceled/Settled.antt =====
-- What is left of a message when recipients are canceled and the changes are saved.
use smtp_server.Base.{
  ℕ, suc, ◌+◌, ◌≤◌, ◌<◌, ◌≡◌, refl, ◌∙◌, ap, ◌⊎◌, inl, inr, Bool, true, false, ◌&&◌, ◌||◌, List, [],
  ◌∷◌, ◌++◌, Bytes, any, All, contains, ◌==◌, if◌then◌else◌, arith,
}
use smtp_server.Queue.Message.{
  Domain, Recipient, Message, Clock, is_pending, is_final, has_flag, rcpt_status_changed,
}
use smtp_server.Queue.Serialize.Writer.{
  recipient_serialize, serialize_changes, domain_changes, recipient_changes, unmarked,
}
use smtp_server.Queue.Manager.Files.{save_changes}
use smtp_server.Queue.Manager.Cancel.{
  cancel_recipients, total_rcpt, total_completed, complete_domains, cancel_matching, has_pending,
}

-- Each recipient that contains the item has nothing left to deliver.
abbrev pub AreCanceled : Bytes → List Recipient → Type 0
AreCanceled item rs =
    All (λ r. (contains r.address_lcase item ≡ false) ⊎ (is_final r.status ≡ true)) rs

-- Each pending domain, counted from an index, has a recipient that is not delivered.
abbrev pub AreNeeded : ℕ → List Recipient → List Domain → Type 0
AreNeeded idx rs [] = Unit
AreNeeded idx rs (d ∷ ds) =
    ((is_pending d.status ≡ false) ⊎ (total_completed idx rs < total_rcpt idx rs))
    × AreNeeded (suc idx) rs ds

cancel_recipients-AreCanceled :
    (item : Bytes) (rs : List Recipient) → AreCanceled item (cancel_recipients item rs)
unfolding cancel_recipients
cancel_recipients-AreCanceled item [] = tt
cancel_recipients-AreCanceled item (r ∷ rs) = (ground arith, cancel_recipients-AreCanceled item rs)

pub total_completed-le :
    (idx : ℕ) (rs : List Recipient) → total_completed idx rs ≤ total_rcpt idx rs
unfolding total_completed total_rcpt
total_completed-le idx [] = omega arith
total_completed-le idx (r ∷ rs) = ground (arith, total_completed-le idx rs)

complete_domains-AreNeeded :
    (idx : ℕ) (rs : List Recipient) (ds : List Domain)
    → AreNeeded idx rs (complete_domains idx rs ds)
unfolding complete_domains
complete_domains-AreNeeded idx rs [] = tt
complete_domains-AreNeeded idx rs (d ∷ ds) =
    (ground (arith, total_completed-le idx rs), complete_domains-AreNeeded (suc idx) rs ds)

-- What is written to the file and unmarked is the same for these purposes.
either_rcpt :
    (idx : ℕ) (b : Bool) (w w' : Bytes) (r : Recipient) (rs : List Recipient)
    → (let x : Bytes × List Recipient = if b then (w, unmarked r ∷ rs) else (w', r ∷ rs) in
        (total_rcpt idx x.1 ≡ (if r.domain_idx == idx then 1 else 0) + total_rcpt idx rs)
        × (total_completed idx x.1
            ≡ (if r.domain_idx == idx && is_final r.status then 1 else 0) + total_completed idx rs))
unfolding total_rcpt total_completed unmarked
either_rcpt idx true w w' r rs = (refl, refl)
either_rcpt idx false w w' r rs = (refl, refl)

recipient_changes-totals :
    (idx k : ℕ) (rs : List Recipient)
    → (total_rcpt idx (recipient_changes k rs).1 ≡ total_rcpt idx rs)
      × (total_completed idx (recipient_changes k rs).1 ≡ total_completed idx rs)
unfolding recipient_changes total_rcpt total_completed
recipient_changes-totals idx k [] = (refl, refl)
recipient_changes-totals idx k (r ∷ rs) =
    let e =
      either_rcpt idx (has_flag r.flags rcpt_status_changed)
        (recipient_serialize k (unmarked r) ++ (recipient_changes (suc k) rs).0)
        (recipient_changes (suc k) rs).0 r (recipient_changes (suc k) rs).1 in
    let h = recipient_changes-totals idx (suc k) rs in
    (
      e.0 ∙ ap (λ n. (if r.domain_idx == idx then 1 else 0) + n) h.0,
      e.1 ∙ ap (λ n. (if r.domain_idx == idx && is_final r.status then 1 else 0) + n) h.1,
    )

either_canceled :
    (item : Bytes) (b : Bool) (w w' : Bytes) (r : Recipient) (rs : List Recipient)
    → AreCanceled item (r ∷ rs)
    → (let x : Bytes × List Recipient = if b then (w, unmarked r ∷ rs) else (w', r ∷ rs) in
        AreCanceled item x.1)
unfolding unmarked
either_canceled item true w w' r rs a = a
either_canceled item false w w' r rs a = a

recipient_changes-AreCanceled :
    (item : Bytes) (k : ℕ) (rs : List Recipient)
    → AreCanceled item rs
    → AreCanceled item (recipient_changes k rs).1
unfolding recipient_changes
recipient_changes-AreCanceled item k [] a = tt
recipient_changes-AreCanceled item k (r ∷ rs) a =
    either_canceled item (has_flag r.flags rcpt_status_changed) _ _ r
      (recipient_changes (suc k) rs).1 (a.0, recipient_changes-AreCanceled item (suc k) rs a.1)

either_needed :
    (idx : ℕ) (rs : List Recipient) (b : Bool) (w w' : Bytes) (d : Domain) (ds : List Domain)
    → AreNeeded idx rs (d ∷ ds)
    → (let x : Bytes × List Domain =
          if b then (w, record d { changed = false } ∷ ds) else (w', d ∷ ds) in
        AreNeeded idx rs x.1)
either_needed idx rs true w w' d ds a = a
either_needed idx rs false w w' d ds a = a

domain_changes-AreNeeded :
    (clock : Clock) (idx k : ℕ) (rs : List Recipient) (ds : List Domain)
    → AreNeeded idx rs ds
    → AreNeeded idx (recipient_changes k rs).1 (domain_changes clock idx ds).1
unfolding domain_changes
domain_changes-AreNeeded clock idx k rs [] a = tt
domain_changes-AreNeeded clock idx k rs (d ∷ ds) a =
    let h = recipient_changes-totals idx k rs in
    either_needed idx (recipient_changes k rs).1 d.changed _ _ d
      (domain_changes clock (suc idx) ds).1
      (
        elim a.0 [ inl p ↦ inl p | inr p ↦ inr (omega (arith, p, h)) ],
        domain_changes-AreNeeded clock (suc idx) k rs ds a.1,
      )

either_pending :
    (b : Bool) (w w' : Bytes) (d : Domain) (ds : List Domain)
    → (let x : Bytes × List Domain =
          if b then (w, record d { changed = false } ∷ ds) else (w', d ∷ ds) in
        any (λ d. is_pending d.status) x.1
        ≡ is_pending d.status || any (λ d. is_pending d.status) ds)
either_pending true w w' d ds = refl
either_pending false w w' d ds = refl

domain_changes-pending :
    (clock : Clock) (idx : ℕ) (ds : List Domain)
    → any (λ d. is_pending d.status) (domain_changes clock idx ds).1
      ≡ any (λ d. is_pending d.status) ds
unfolding domain_changes
domain_changes-pending clock idx [] = refl
domain_changes-pending clock idx (d ∷ ds) =
    either_pending d.changed _ _ d (domain_changes clock (suc idx) ds).1
    ∙ ap (λ b. is_pending d.status || b) (domain_changes-pending clock (suc idx) ds)

-- What a message is after its recipients are canceled.
pub record IsSettled (item : Bytes) (m : Message) : Type 0 where
  pub pending : has_pending m ≡ true
  pub canceled : AreCanceled item m.recipients
  pub needed : AreNeeded 0 m.recipients m.domains

pub saved-IsSettled :
    (clock : Clock) (item : Bytes) (m : Message)
    → has_pending (cancel_matching item m) ≡ true
    → IsSettled item (save_changes clock (cancel_matching item m)).0
unfolding save_changes serialize_changes cancel_matching
saved-IsSettled clock item m p =
    let rs = cancel_recipients item m.recipients in
    let ds = complete_domains 0 rs m.domains in
    record {
      pending = domain_changes-pending clock 0 ds ∙ p;
      canceled =
          recipient_changes-AreCanceled item 0 rs (cancel_recipients-AreCanceled item m.recipients);
      needed = domain_changes-AreNeeded clock 0 0 rs ds (complete_domains-AreNeeded 0 rs m.domains);
    }
