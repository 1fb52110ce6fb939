-- ===== src/Queue/Manager/Canceled/Effect.antt =====
-- src/core/manager.rs: what a request to cancel makes of each recipient and each domain.
use smtp_server.Base.{
  ℕ, suc, ◌≡◌, refl, sym, subst, ◌⊎◌, inl, inr, Bool, true, false, List, [], ◌∷◌, Bytes, any, All,
  Pairs, contains, ◌==◌, if◌then◌else◌, arith, Bool-cases,
}
use smtp_server.Queue.Message.{
  completed, Domain, Recipient, Message, Clock, is_pending, is_final, with_flag,
  rcpt_status_changed,
}
use smtp_server.Queue.Serialize.Kept.{IsCleared, IsUnmarked, save_changes-IsKept}
use smtp_server.Queue.Manager.Files.{save_changes}
use smtp_server.Queue.Manager.Cancel.{
  canceled, cancel_recipients, total_rcpt, total_completed, complete_domain, complete_domains,
  cancel_matching, has_pending,
}
use smtp_server.Queue.Manager.Canceled.Settled.{IsSettled, saved-IsSettled, total_completed-le}

-- A recipient that contains the item is canceled, and another is left; marks may be cleared.
abbrev pub IsCanceledBy : Bytes → Recipient → Recipient → Type 0
IsCanceledBy item r r' =
    ((contains r.address_lcase item ≡ true)
      × IsUnmarked
          (record r { flags = with_flag r.flags rcpt_status_changed; status = completed canceled })
          r')
    ⊎ ((contains r.address_lcase item ≡ false) × IsUnmarked r r')

-- Each recipient at the domain of an index contains the item or has nothing left to deliver.
abbrev pub HasNobody : Bytes → ℕ → List Recipient → Type 0
HasNobody item idx rs =
    All
      (λ r.
        (r.domain_idx ≡ idx) → (contains r.address_lcase item ≡ true) ⊎ (is_final r.status ≡ true))
      rs

-- A domain is completed only if it was pending and has nobody left, and else keeps its status.
abbrev pub IsCompletedBy : Bytes → ℕ → List Recipient → Domain → Domain → Type 0
IsCompletedBy item idx rs d d' =
    (d' ≡ record d { status = d'.status; changed = d'.changed })
    × ((d'.status ≡ d.status)
        ⊎ ((is_pending d.status ≡ true) × (d'.status ≡ completed tt) × HasNobody item idx rs))

abbrev pub AreCompletedBy : Bytes → ℕ → List Recipient → List Domain → List Domain → Type 0
AreCompletedBy item idx rs [] [] = Unit
AreCompletedBy item idx rs [] (d' ∷ ds') = ⊥
AreCompletedBy item idx rs (d ∷ ds) [] = ⊥
AreCompletedBy item idx rs (d ∷ ds) (d' ∷ ds') =
    IsCompletedBy item idx rs d d' × AreCompletedBy item (suc idx) rs ds ds'

-- No pending domain, counted from an index, has anybody left.
abbrev pub HaveNobody : Bytes → ℕ → List Recipient → List Domain → Type 0
HaveNobody item idx rs [] = Unit
HaveNobody item idx rs (d ∷ ds) =
    ((is_pending d.status ≡ false) ⊎ HasNobody item idx rs) × HaveNobody item (suc idx) rs ds

-- What a message is after its recipients are canceled and the changes are saved.
abbrev pub IsCanceledTo : Bytes → Message → Message → Type 0
IsCanceledTo item m m' =
    IsSettled item m'
    × (m' ≡ record m { domains = m'.domains; recipients = m'.recipients })
    × Pairs (IsCanceledBy item) m.recipients m'.recipients
    × AreCompletedBy item 0 m.recipients m.domains m'.domains

cancel_recipients-AreCanceledBy :
    (item : Bytes) (rs rs' : List Recipient)
    → Pairs IsUnmarked (cancel_recipients item rs) rs'
    → Pairs (IsCanceledBy item) rs rs'
unfolding cancel_recipients
cancel_recipients-AreCanceledBy item [] [] k = tt
cancel_recipients-AreCanceledBy item [] (r' ∷ rs') k = k
cancel_recipients-AreCanceledBy item (r ∷ rs) [] k = k
cancel_recipients-AreCanceledBy item (r ∷ rs) (r' ∷ rs') (k, ks) =
    (by_item (contains r.address_lcase item) refl k, cancel_recipients-AreCanceledBy item rs rs' ks)
  where
    by_item :
        (b : Bool)
        → contains r.address_lcase item ≡ b
        → IsUnmarked
            (if b
              then record r {
                flags = with_flag r.flags rcpt_status_changed;
                status = completed canceled;
              }
              else r)
            r'
        → IsCanceledBy item r r'
    by_item true e k = inl (e, k)
    by_item false e k = inr (e, k)

-- As many are over as there are: each is over.
totals-HasNobody :
    (item : Bytes) (idx : ℕ) (rs : List Recipient)
    → total_rcpt idx (cancel_recipients item rs) ≡ total_completed idx (cancel_recipients item rs)
    → HasNobody item idx rs
unfolding cancel_recipients total_rcpt total_completed
totals-HasNobody item idx [] e = tt
totals-HasNobody item idx (r ∷ rs) e = (
  λ at. elim (Bool-cases (contains r.address_lcase item)) [
    | inl c ↦ inl c
    | inr c ↦ elim (Bool-cases (is_final r.status)) [
      | inl f ↦ inr f
      | inr f ↦
          absurd (ground (arith, total_completed-le idx (cancel_recipients item rs), at, c, f, e))
    ]
  ],
  totals-HasNobody item idx rs
      (ground (arith, total_completed-le idx (cancel_recipients item rs), e)),
)

complete_domain-IsCompletedBy :
    (item : Bytes) (idx : ℕ) (rs : List Recipient) (d d' : Domain)
    → IsCleared (complete_domain idx (cancel_recipients item rs) d) d'
    → IsCompletedBy item idx rs d d'
complete_domain-IsCompletedBy item idx rs d d' k =
    let rc = cancel_recipients item rs in
    elim (Bool-cases (is_pending d.status)) [
      | inr p ↦ kept (rw p at k)
      | inl p ↦ elim (Bool-cases (total_rcpt idx rc == total_completed idx rc)) [
        | inr q ↦ kept (rw (p, q) at k)
        | inl q ↦ done p (totals-HasNobody item idx rs (ground (arith, q))) (rw (p, q) at k)
      ]
    ]
  where
    kept : IsCleared d d' → IsCompletedBy item idx rs d d'
    kept (inl e) = subst (IsCompletedBy item idx rs d) (sym e) (refl, inl refl)
    kept (inr e) = subst (IsCompletedBy item idx rs d) (sym e) (refl, inl refl)

    done :
        is_pending d.status ≡ true
        → HasNobody item idx rs
        → IsCleared (record d { status = completed tt; changed = true }) d'
        → IsCompletedBy item idx rs d d'
    done p n (inl e) = subst (IsCompletedBy item idx rs d) (sym e) (refl, inr (p, refl, n))
    done p n (inr e) = subst (IsCompletedBy item idx rs d) (sym e) (refl, inr (p, refl, n))

complete_domains-AreCompletedBy :
    (item : Bytes) (idx : ℕ) (rs : List Recipient) (ds ds' : List Domain)
    → Pairs IsCleared (complete_domains idx (cancel_recipients item rs) ds) ds'
    → AreCompletedBy item idx rs ds ds'
unfolding complete_domains
complete_domains-AreCompletedBy item idx rs [] [] k = tt
complete_domains-AreCompletedBy item idx rs [] (d' ∷ ds') k = k
complete_domains-AreCompletedBy item idx rs (d ∷ ds) [] k = k
complete_domains-AreCompletedBy item idx rs (d ∷ ds) (d' ∷ ds') (k, ks) = (
  complete_domain-IsCompletedBy item idx rs d d' k,
  complete_domains-AreCompletedBy item (suc idx) rs ds ds' ks,
)

pub saved-IsCanceledTo :
    (clock : Clock) (item : Bytes) (m : Message)
    → has_pending (cancel_matching item m) ≡ true
    → IsCanceledTo item m (save_changes clock (cancel_matching item m)).0
unfolding cancel_matching
saved-IsCanceledTo clock item m p =
    let m' = save_changes clock (cancel_matching item m) in
    let k = save_changes-IsKept clock (cancel_matching item m) in
    (
      saved-IsSettled clock item m p,
      k.0,
      cancel_recipients-AreCanceledBy item m.recipients m'.0.recipients k.2,
      complete_domains-AreCompletedBy item 0 m.recipients m.domains m'.0.domains k.1,
    )

removed-from :
    (item : Bytes) (idx : ℕ) (rs : List Recipient) (ds : List Domain)
    → any (λ d. is_pending d.status) (complete_domains idx (cancel_recipients item rs) ds) ≡ false
    → HaveNobody item idx rs ds
unfolding complete_domains
removed-from item idx rs [] h = tt
removed-from item idx rs (d ∷ ds) h =
    let rc = cancel_recipients item rs in
    (
      elim (Bool-cases (is_pending d.status)) [
        | inr p ↦ inl p
        | inl p ↦ inr (totals-HasNobody item idx rs (ground (arith, p, h)))
      ],
      removed-from item (suc idx) rs ds (ground (arith, h)),
    )

pub removed-HaveNobody :
    (item : Bytes) (m : Message)
    → has_pending (cancel_matching item m) ≡ false
    → HaveNobody item 0 m.recipients m.domains
unfolding cancel_matching
removed-HaveNobody item m h = removed-from item 0 m.recipients m.domains h
