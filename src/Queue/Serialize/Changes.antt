-- ===== src/Queue/Serialize/Changes.antt =====
-- `save_changes` appends records to the queue file: the file then reads as the message in memory.
use smtp_server.Base.{
  ℕ, suc, ◌≡◌, refl, sym, ◌∙◌, ap, Bool, false, List, [], ◌∷◌, ◌++◌, append-nil, some, arith, Bytes,
  length, All, map, if◌then◌else◌, Bool-cases, inl, inr,
}
use smtp_server.Queue.Message.{Domain, Recipient, Message, Clock, has_flag, rcpt_status_changed}
use smtp_server.Queue.Serialize.Writer.{
  message_serialize, serialize_changes, domain_changes, recipient_changes, unmarked,
}
use smtp_server.Queue.Serialize.Reader.{message_deserialize}
use smtp_server.Queue.Serialize.Edits.{edits-All, overlay}
use smtp_server.Queue.Serialize.Log.{DomainFits, StateFits, carried, patch_domain, patch_recipient}
use smtp_server.Queue.Serialize.Log.Loop.{
  unchanged, domain_changes-log, recipient_changes-log, status_loop-nil,
}
use smtp_server.Queue.Serialize.Header.{MessageFits}
use smtp_server.Queue.Serialize.RoundTrip.{
  restored, restored_domain, restored_recipient, log, overlaid, read_log, status_loop-log,
  length-map,
}

abbrev is_marked : Recipient → Bool
is_marked r = has_flag r.flags rcpt_status_changed

abbrev is_changed : Domain → Bool
is_changed d = d.changed

unchanged-DomainFits : (now : Clock) (d : Domain) → DomainFits now d → DomainFits now (unchanged d)
unchanged-DomainFits now d h = record {
  name = h.name;
  expires = h.expires;
  retry = h.retry;
  notify = h.notify;
  status = h.status;
}

unmarked-StateFits : (r : Recipient) → StateFits r → StateFits (unmarked r)
unfolding unmarked
unmarked-StateFits r h = record { flags = ground (arith, h.flags); status = h.status }

-- The domain in memory, at the clock that wrote the changes, against the domain in the file: if it
-- is not marked as changed it is the same, and its name and expiry, which no record holds, are.
abbrev pub TracksDomain : Clock → Clock → Clock → Domain → Domain → Type 0
TracksDomain now later clock d' d =
    (d'.domain ≡ d.domain)
    × (carried later clock d'.expires ≡ carried now clock d.expires)
    × (d'.changed ≡ false → restored_domain now clock d ≡ restored_domain later clock d')

-- The recipient in memory against the one in the file.
abbrev pub TracksRecipient : Recipient → Recipient → Type 0
TracksRecipient r' r =
    (r'.domain_idx ≡ r.domain_idx)
    × (r'.address ≡ r.address)
    × (r'.orcpt ≡ r.orcpt)
    × (is_marked r' ≡ false → r ≡ r')

abbrev pub All₂ : {A : Type 0} → (A → A → Type 0) → List A → List A → Type 0
All₂ R [] [] = Unit
All₂ R (x ∷ xs) (y ∷ ys) = R x y × All₂ R xs ys
All₂ R _ _ = ⊥

All₂-length :
    {A : Type 0} (R : A → A → Type 0) (xs ys : List A) → All₂ R xs ys → length xs ≡ length ys
All₂-length R [] [] h = refl
All₂-length R [] (y ∷ ys) h = absurd h
All₂-length R (x ∷ xs) [] h = absurd h
All₂-length R (x ∷ xs) (y ∷ ys) h = ap suc (All₂-length R xs ys h.1)

settle_domain : Domain → Domain
settle_domain d = if is_changed d then unchanged d else d

settle_recipient : Recipient → Recipient
settle_recipient r = if is_marked r then unmarked r else r

-- `serialize_changes` clears the marks and changes nothing else.
domain_changes-settled :
    (now : Clock) (i : ℕ) (ds : List Domain) → (domain_changes now i ds).1 ≡ map settle_domain ds
unfolding domain_changes settle_domain
domain_changes-settled now i [] = refl
domain_changes-settled now i (d ∷ ds) = elim (Bool-cases d.changed) [
  | inl e ↦ rw e (ap (◌∷◌ (unchanged d)) (domain_changes-settled now (suc i) ds))
  | inr e ↦ rw e (ap (◌∷◌ (record d { changed = false })) (domain_changes-settled now (suc i) ds))
]

recipient_changes-settled :
    (i : ℕ) (rs : List Recipient) → (recipient_changes i rs).1 ≡ map settle_recipient rs
unfolding recipient_changes settle_recipient
recipient_changes-settled i [] = refl
recipient_changes-settled i (r ∷ rs) = elim (Bool-cases (is_marked r)) [
  | inl e ↦ rw e (ap (◌∷◌ (unmarked r)) (recipient_changes-settled (suc i) rs))
  | inr e ↦ rw e (ap (◌∷◌ r) (recipient_changes-settled (suc i) rs))
]

module _ (now later clock : Clock) where
  overlay_domain :
      (d' d : Domain)
      → TracksDomain now later clock d' d
      → (if is_changed d'
          then patch_domain later clock (unchanged d') (restored_domain now clock d)
          else restored_domain now clock d)
        ≡ restored_domain later clock (settle_domain d')
  unfolding settle_domain
  overlay_domain d' d (name, expires, same) = elim (Bool-cases d'.changed) [
    | inl e ↦ rw e (cc (name, expires))
    | inr e ↦ rw e (same e)
  ]

  overlay_domains :
      (ds' ds : List Domain)
      → All₂ (TracksDomain now later clock) ds' ds
      → overlay is_changed unchanged
          (patch_domain later clock)
          ds'
          (map (restored_domain now clock) ds)
        ≡ map (restored_domain later clock) (map settle_domain ds')
  overlay_domains [] [] h = refl
  overlay_domains [] (y ∷ ys) h = absurd h
  overlay_domains (x ∷ xs) [] h = absurd h
  overlay_domains (d' ∷ ds') (d ∷ ds) h = cc (overlay_domain d' d h.0, overlay_domains ds' ds h.1)

module _ (to_lowercase : Bytes → Bytes) where
  overlay_recipient :
      (r' r : Recipient)
      → TracksRecipient r' r
      → (if is_marked r'
          then patch_recipient (unmarked r') (restored_recipient to_lowercase r)
          else restored_recipient to_lowercase r)
        ≡ restored_recipient to_lowercase (settle_recipient r')
  unfolding settle_recipient unmarked
  overlay_recipient r' r (index, address, orcpt, same) = elim (Bool-cases (is_marked r')) [
    | inl e ↦ rw e (cc (index, address, orcpt))
    | inr e ↦ rw e (ap (restored_recipient to_lowercase) (same e))
  ]

  overlay_recipients :
      (rs' rs : List Recipient)
      → All₂ TracksRecipient rs' rs
      → overlay is_marked unmarked patch_recipient rs' (map (restored_recipient to_lowercase) rs)
        ≡ map (restored_recipient to_lowercase) (map settle_recipient rs')
  overlay_recipients [] [] h = refl
  overlay_recipients [] (y ∷ ys) h = absurd h
  overlay_recipients (x ∷ xs) [] h = absurd h
  overlay_recipients (r' ∷ rs') (r ∷ rs) h =
      cc (overlay_recipient r' r h.0, overlay_recipients rs' rs h.1)

-- The message in memory against the one that the file holds: what no record holds is the same.
pub record TracksMessage (now later clock : Clock) (m' m : Message) : Type 0 where
  pub created : m'.created ≡ m.created
  pub return_path : m'.return_path ≡ m.return_path
  pub flags : m'.flags ≡ m.flags
  pub env_id : m'.env_id ≡ m.env_id
  pub priority : m'.priority ≡ m.priority
  pub domains : All₂ (TracksDomain now later clock) m'.domains m.domains
  pub recipients : All₂ TracksRecipient m'.recipients m.recipients
  pub domains_fit : All (DomainFits later) m'.domains
  pub recipients_fit : All StateFits m'.recipients

overlaid-restored :
    (to_lowercase : Bytes → Bytes) (now later clock : Clock) (m' m : Message)
    → TracksMessage now later clock m' m
    → overlaid later clock is_changed is_marked unchanged unmarked m'.domains m'.recipients
        (restored to_lowercase now clock m)
      ≡ restored to_lowercase later clock (record m' {
        domains = map settle_domain m'.domains;
        recipients = map settle_recipient m'.recipients;
      })
overlaid-restored to_lowercase now later clock m' m t = cc (
  t.created,
  t.return_path,
  t.flags,
  t.env_id,
  t.priority,
  overlay_domains now later clock m'.domains m.domains t.domains,
  overlay_recipients to_lowercase m'.recipients m.recipients t.recipients,
)

-- A file, written by one clock, with the changes of the message appended by a later one reads as
-- the message in memory after `serialize_changes`, if memory differs from the file only in the
-- schedules and status of domains and the flags and status of recipients that are marked.
pub deserialize-append_changes :
    (to_lowercase : Bytes → Bytes) (now later clock : Clock) (m' m : Message)
    → MessageFits now m
    → TracksMessage now later clock m' m
    → message_deserialize to_lowercase clock
        (message_serialize now m ++ (serialize_changes later m').0)
      ≡ some (restored to_lowercase later clock (serialize_changes later m').1)
unfolding serialize_changes
deserialize-append_changes to_lowercase now later clock m' m fits tracks =
    let changes =
      log later clock is_changed is_marked unchanged unmarked m'.domains m'.recipients [] in
    let written : (domain_changes later 0 m'.domains).0 ++ (recipient_changes 0 m'.recipients).0
        ≡ changes =
      rw (
        domain_changes-log later 0 m'.domains,
        recipient_changes-log 0 m'.recipients,
        append-nil,
      ) in
    let (left, enough, read) = read_log to_lowercase now clock m fits changes in
    let same_ds = All₂-length (TracksDomain now later clock) m'.domains m.domains tracks.domains in
    let same_rs = All₂-length TracksRecipient m'.recipients m.recipients tracks.recipients in
    let (left', _, read') =
      status_loop-log later clock is_changed is_marked unchanged unmarked m'.domains m'.recipients
        left (restored to_lowercase now clock m) [] enough
        (length-map (restored_domain now clock) m.domains ∙ sym same_ds)
        (length-map (restored_recipient to_lowercase) m.recipients ∙ sym same_rs)
        (omega (arith, same_ds, fits.num_domains)) (omega (arith, same_rs, fits.num_recipients))
        (edits-All is_changed unchanged 0 m'.domains (unchanged-DomainFits later)
          tracks.domains_fit)
        (edits-All is_marked unmarked 0 m'.recipients unmarked-StateFits tracks.recipients_fit) in
    rw
      (
        written,
        domain_changes-settled later 0 m'.domains,
        recipient_changes-settled 0 m'.recipients,
      )
      (read
        ∙ ap some (
            read'
            ∙ status_loop-nil clock left' _
            ∙ overlaid-restored to_lowercase now later clock m' m tracks))
