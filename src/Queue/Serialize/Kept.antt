-- ===== src/Queue/Serialize/Kept.antt =====
-- src/queue/serialize.rs: writing the changes of a message out leaves it as it is, but for the marks of
-- what has changed.
use smtp_server.Base.{ℕ, suc, ◌≡◌, refl, ◌⊎◌, inl, inr, false, List, [], ◌∷◌, Pairs, Bool-cases}
use smtp_server.Queue.Message.{Domain, Recipient, Message, Clock, has_flag, rcpt_status_changed}
use smtp_server.Queue.Serialize.Writer.{
  serialize_changes, domain_changes, recipient_changes, unmarked,
}
use smtp_server.Queue.Manager.Files.{save_changes}

-- The second is the first, or has lost the mark.
abbrev pub IsCleared : Domain → Domain → Type 0
IsCleared d d' = (d' ≡ d) ⊎ (d' ≡ record d { changed = false })

abbrev pub IsUnmarked : Recipient → Recipient → Type 0
IsUnmarked r r' = (r' ≡ r) ⊎ (r' ≡ unmarked r)

abbrev pub IsKept : Message → Message → Type 0
IsKept m m' =
    (m' ≡ record m { domains = m'.domains; recipients = m'.recipients })
    × Pairs IsCleared m.domains m'.domains
    × Pairs IsUnmarked m.recipients m'.recipients

domain_changes-IsCleared :
    (clock : Clock) (idx : ℕ) (ds : List Domain)
    → Pairs IsCleared ds (domain_changes clock idx ds).1
unfolding domain_changes
domain_changes-IsCleared clock idx [] = tt
domain_changes-IsCleared clock idx (d ∷ ds) = elim (Bool-cases d.changed) [
  | inl p ↦ rw p (inr refl, domain_changes-IsCleared clock (suc idx) ds)
  | inr p ↦ rw p (inl refl, domain_changes-IsCleared clock (suc idx) ds)
]

recipient_changes-IsUnmarked :
    (idx : ℕ) (rs : List Recipient) → Pairs IsUnmarked rs (recipient_changes idx rs).1
unfolding recipient_changes
recipient_changes-IsUnmarked idx [] = tt
recipient_changes-IsUnmarked idx (r ∷ rs) =
    elim (Bool-cases (has_flag r.flags rcpt_status_changed)) [
      | inl p ↦ rw p (inr refl, recipient_changes-IsUnmarked (suc idx) rs)
      | inr p ↦ rw p (inl refl, recipient_changes-IsUnmarked (suc idx) rs)
    ]

pub save_changes-IsKept : (clock : Clock) (m : Message) → IsKept m (save_changes clock m).0
unfolding save_changes serialize_changes
save_changes-IsKept clock m =
    (refl, domain_changes-IsCleared clock 0 m.domains, recipient_changes-IsUnmarked 0 m.recipients)
