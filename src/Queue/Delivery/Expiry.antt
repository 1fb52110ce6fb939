-- ===== src/Queue/Delivery/Expiry.antt =====
-- src/outbound/delivery.rs: the expiry of domains and of their recipients.
use smtp_server.Base.{
  ℕ, suc, ◌<◌, ◌≤◌, ◌≡◌, ◌⊎◌, Bool, true, false, ◌&&◌, List, [], ◌∷◌, Option, none, some, leb, ◌==◌,
  if◌then◌else◌,
}
use smtp_server.Queue.Message.{Domain, Recipient, Message, is_pending}
use smtp_server.Queue.Delivery.{expired_status, into_permanent, is_expired}

-- A domain that is pending has time left.
abbrev pub HasTime : ℕ → Domain → Type 0
HasTime now d = (is_pending d.status ≡ false) ⊎ (now < d.expires)

abbrev after_expiry : ℕ → Domain → Domain
after_expiry now d =
    if is_expired now d then record d { status = expired_status d.status; changed = true } else d

-- A domain is given up, its error kept, if it is pending and its time is over, and else left.
abbrev pub GaveUp : ℕ → Domain → Domain → Type 0
GaveUp now d d' =
    ((is_pending d.status ≡ true)
      × (d.expires ≤ now)
      × (d' ≡ record d { status = expired_status d.status; changed = true })
      × (is_pending d'.status ≡ false))
    ⊎ (HasTime now d × (d' ≡ d))

-- Whether the domain of a recipient is given up.
abbrev pub is_over : ℕ → Option Domain → Bool
is_over now none = false
is_over now (some d) = is_pending d.status && leb d.expires now

abbrev pub given_up : ℕ → Option Domain → Recipient → Recipient
given_up now o r = if is_over now o then record r { status = into_permanent r.status } else r

-- The domain at a position, of those from an index on.
abbrev domain_at : ℕ → ℕ → List Domain → Option Domain
domain_at i idx [] = none
domain_at i idx (d ∷ ds) = if i == idx then some d else domain_at i (suc idx) ds

abbrev given_up_at : ℕ → ℕ → List Domain → Recipient → Recipient
given_up_at now idx ds r = given_up now (domain_at r.domain_idx idx ds) r
