-- ===== src/Queue/Serialize/RoundTrip.antt =====
-- A queue file reads back to the message that was written, and what `save_changes` appends to it
-- reads as the changes.
use smtp_server.Base.{
  ℕ, suc, ◌+◌, ◌-◌, ◌^◌, ◌<◌, ◌≤◌, ◌≡◌, refl, ◌∙◌, ap, Bool, true, false, List, [], ◌∷◌, ◌++◌,
  append_assoc, append-nil, some, arith, Bytes, length, length-append, All, map,
}
use smtp_server.Queue.Message.{Domain, Recipient, Message, Clock, domain_part}
use smtp_server.Queue.Serialize.Writer.{message_serialize}
use smtp_server.Queue.Serialize.Reader.{
  message_deserialize, message_deserialize-header, status_loop,
}
use smtp_server.Queue.Serialize.Edits.{
  apply_edits, edits, edits-lt, edits-All, overlay, apply_edits-overlay,
}
use smtp_server.Queue.Serialize.Log.{
  DomainFits, StateFits, carried, carried_schedule, patch_domain, patch_recipient,
}
use smtp_server.Queue.Serialize.Log.Loop.{
  domain_log, recipient_log, domain_records-log, recipient_records-log, status_loop-domain_log,
  status_loop-recipient_log, status_loop-nil, length-domain_log, length-recipient_log,
}
use smtp_server.Queue.Serialize.Header.{
  RecipientFits, MessageFits, blank_domain, blank_recipient, blank_message, header,
  header-reads_back,
}

-- A message as a restart sees it: the times go through time stamps in seconds, marks and quotas
-- are gone, and what is derived from the addresses is derived again.
abbrev pub restored_domain : Clock → Clock → Domain → Domain
restored_domain now clock d = record d {
  retry = carried_schedule now clock d.retry;
  notify = carried_schedule now clock d.notify;
  expires = carried now clock d.expires;
  changed = false;
}

abbrev pub restored_recipient : (Bytes → Bytes) → Recipient → Recipient
restored_recipient to_lowercase r = record r { address_lcase = to_lowercase r.address }

abbrev pub restored : (Bytes → Bytes) → Clock → Clock → Message → Message
restored to_lowercase now clock m = record m {
  id = 0;
  path = [];
  return_path_lcase = to_lowercase m.return_path;
  return_path_domain = domain_part (to_lowercase m.return_path);
  recipients = map (restored_recipient to_lowercase) m.recipients;
  domains = map (restored_domain now clock) m.domains;
  size = 0;
  queue_refs = [];
}

overlay_blank_domains :
    (now clock : Clock) (ds : List Domain)
    → overlay (λ _. true) (λ d. d) (patch_domain now clock) ds (map (blank_domain now clock) ds)
      ≡ map (restored_domain now clock) ds
overlay_blank_domains now clock [] = refl
overlay_blank_domains now clock (d ∷ ds) =
    ap (◌∷◌ (restored_domain now clock d)) (overlay_blank_domains now clock ds)

overlay_blank_recipients :
    (to_lowercase : Bytes → Bytes) (rs : List Recipient)
    → overlay (λ _. true) (λ r. r) patch_recipient rs (map (blank_recipient to_lowercase) rs)
      ≡ map (restored_recipient to_lowercase) rs
overlay_blank_recipients to_lowercase [] = refl
overlay_blank_recipients to_lowercase (r ∷ rs) =
    ap (◌∷◌ (restored_recipient to_lowercase r)) (overlay_blank_recipients to_lowercase rs)

-- A log of domains and then of recipients, of lists as long as the message's.
module _ (now clock : Clock) (pick_domain : Domain → Bool) (pick_recipient : Recipient → Bool)
    (put_domain : Domain → Domain) (put_recipient : Recipient → Recipient) (ds : List Domain)
    (rs : List Recipient) where
  abbrev pub log : Bytes → Bytes
  log rest =
      domain_log now (edits pick_domain put_domain 0 ds)
      ++ (recipient_log (edits pick_recipient put_recipient 0 rs) ++ rest)

  abbrev pub overlaid : Message → Message
  overlaid m = record m {
    domains = overlay pick_domain put_domain (patch_domain now clock) ds m.domains;
    recipients = overlay pick_recipient put_recipient patch_recipient rs m.recipients;
  }

  pub status_loop-log :
      (fuel : ℕ) (m : Message) (rest : Bytes)
      → length (log rest) ≤ fuel
      → length m.domains ≡ length ds
      → length m.recipients ≡ length rs
      → length ds < 2 ^ 64
      → length rs < 2 ^ 64
      → All (λ e. DomainFits now e.1) (edits pick_domain put_domain 0 ds)
      → All (λ e. StateFits e.1) (edits pick_recipient put_recipient 0 rs)
      → (left : ℕ) × (length rest ≤ left)
        × (status_loop clock fuel m (log rest) ≡ status_loop clock left (overlaid m) rest)
  status_loop-log fuel m rest f same_ds same_rs word_ds word_rs fit_ds fit_rs =
      let eds = edits pick_domain put_domain 0 ds in
      let ers = edits pick_recipient put_recipient 0 rs in
      let after_domains : Message = record m {
        domains = apply_edits (patch_domain now clock) m.domains eds;
      } in
      let room : length eds + (length ers + length rest) ≤ fuel = omega (
        arith,
        length-append (domain_log now eds) (recipient_log ers ++ rest),
        length-append (recipient_log ers) rest,
        length-domain_log now eds,
        length-recipient_log ers,
      ) in
      (
        fuel - length eds - length ers,
        omega arith,
        status_loop-domain_log now clock (length ds) word_ds fuel m eds (recipient_log ers ++ rest)
              (omega arith) same_ds (edits-lt pick_domain put_domain 0 (length ds) ds (omega arith))
              fit_ds
            ∙ status_loop-recipient_log now clock (length rs) word_rs (fuel - length eds)
                after_domains ers rest (omega arith) same_rs
                (edits-lt pick_recipient put_recipient 0 (length rs) rs (omega arith)) fit_rs
            ∙ ap (λ (t : Message). status_loop clock (fuel - length eds - length ers) t rest)
                (rw (
                  apply_edits-overlay pick_domain put_domain (patch_domain now clock) ds m.domains,
                  apply_edits-overlay pick_recipient put_recipient patch_recipient rs m.recipients,
                )),
      )

pub length-map : {A B : Type 0} (f : A → B) (xs : List A) → length (map f xs) ≡ length xs
length-map f [] = refl
length-map f (x ∷ xs) = ap suc (length-map f xs)

All-StateFits : (rs : List Recipient) → All RecipientFits rs → All StateFits rs
All-StateFits [] h = tt
All-StateFits (r ∷ rs) h = (h.0.state, All-StateFits rs h.1)

module _ (to_lowercase : Bytes → Bytes) (now clock : Clock) (m : Message)
    (fits : MessageFits now m) where
  message_serialize-header :
      (rest : Bytes)
      → message_serialize now m ++ rest
        ≡ header now m
            (log now clock (λ _. true) (λ _. true) (λ d. d) (λ r. r) m.domains m.recipients rest)
  unfolding message_serialize
  message_serialize-header rest = simp (append_assoc, domain_records-log, recipient_records-log)

  pub read_log :
      (rest : Bytes)
      → (left : ℕ) × (length rest ≤ left)
        × (message_deserialize to_lowercase clock (message_serialize now m ++ rest)
            ≡ some (status_loop clock left (restored to_lowercase now clock m) rest))
  read_log rest =
      let blank = blank_message to_lowercase now clock m in
      let written =
        log now clock (λ _. true) (λ _. true) (λ d. d) (λ r. r) m.domains m.recipients rest in
      let (left, enough, read) =
        status_loop-log now clock (λ _. true) (λ _. true) (λ d. d) (λ r. r) m.domains m.recipients
          (suc (length written)) blank rest (omega arith)
          (length-map (blank_domain now clock) m.domains)
          (length-map (blank_recipient to_lowercase) m.recipients) fits.num_domains
          fits.num_recipients (edits-All (λ _. true) (λ d. d) 0 m.domains (λ _ x. x) fits.domains)
          (edits-All (λ _. true) (λ r. r) 0 m.recipients (λ _ x. x)
            (All-StateFits m.recipients fits.recipients)) in
      (
        left,
        enough,
        rw (message_serialize-header rest) (
            message_deserialize-header to_lowercase clock _
              (header-reads_back to_lowercase now clock m written fits)
            ∙ ap some (read ∙ ap (λ (t : Message). status_loop clock left t rest) blank_overlaid)),
      )
    where
      blank_overlaid :
          overlaid now clock
            (λ _. true)
            (λ _. true)
            (λ d. d)
            (λ r. r)
            m.domains
            m.recipients
            (blank_message to_lowercase now clock m)
          ≡ restored to_lowercase now clock m
      blank_overlaid = rw (
        overlay_blank_domains now clock m.domains,
        overlay_blank_recipients to_lowercase m.recipients,
      )

  -- A message whose texts and numbers fit the format is read back from its file, by any clock: all
  -- of it is as it was but for the times, which go through time stamps in seconds, the lower-case
  -- copies and the sender's domain, which are derived again, the marks of unsaved changes, and
  -- what the file does not hold (`id`, `path`, `size`, `queue_refs`).
  pub deserialize-serialize :
      message_deserialize to_lowercase clock (message_serialize now m)
      ≡ some (restored to_lowercase now clock m)
  deserialize-serialize =
      let (left, _, read) = read_log [] in
      rw (append-nil (message_serialize now m)) at
        (read ∙ ap some (status_loop-nil clock left (restored to_lowercase now clock m)))
