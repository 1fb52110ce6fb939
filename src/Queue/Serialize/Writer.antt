-- ===== src/Queue/Serialize/Writer.antt =====
-- `Message::serialize` and `serialize_changes`. A call reads the clocks once here; the source reads
-- the system clock again for each time stamp within the call.
use smtp_server.Base.{
  ℕ, suc, false, List, [], ◌∷◌, ◌++◌, Option, none, some, Bytes, length, if◌then◌else◌,
}
use smtp_server.Queue.Message.{
  Domain, Recipient, Message, Clock, instant_to_timestamp, has_flag, without_flag,
  rcpt_status_changed,
}
use smtp_server.Queue.Serialize.Numbers.{usize_serialize, i16_serialize}
use smtp_server.Queue.Serialize.Text.{string_serialize, string_serializer}
use smtp_server.Queue.Serialize.Values.{
  status_serialize, host_serializer, details_serializer, unit_serializer, error_serializer,
}

-- `as_deref().unwrap_or_default()`
abbrev pub or_empty : Option Bytes → Bytes
or_empty none = []
or_empty (some s) = s

-- The loop over `domains` that writes each name and expiry.
unfoldable pub domains_serialize : Clock → List Domain → Bytes
domains_serialize now [] = []
domains_serialize now (d ∷ ds) =
    string_serialize d.domain
    ++ (usize_serialize (instant_to_timestamp now d.expires) ++ domains_serialize now ds)

unfoldable pub recipients_serialize : List Recipient → Bytes
recipients_serialize [] = []
recipients_serialize (r ∷ rs) =
    usize_serialize r.domain_idx
    ++ (string_serialize r.address
        ++ (string_serialize (or_empty r.orcpt) ++ recipients_serialize rs))

-- `Domain::serialize`
unfoldable pub domain_serialize : Clock → ℕ → Domain → Bytes
domain_serialize now idx d =
    b'D'
    ∷ (usize_serialize idx
        ++ (usize_serialize d.retry.inner
            ++ (usize_serialize (instant_to_timestamp now d.retry.due)
                ++ (usize_serialize d.notify.inner
                    ++ (usize_serialize (instant_to_timestamp now d.notify.due)
                        ++ status_serialize d.status)))))

-- `Recipient::serialize`
unfoldable pub recipient_serialize : ℕ → Recipient → Bytes
recipient_serialize idx r =
    b'R' ∷ (usize_serialize idx ++ (usize_serialize r.flags ++ status_serialize r.status))

-- The loops over `iter().enumerate()`; the number is the index of the first.
unfoldable pub domain_records : Clock → ℕ → List Domain → Bytes
domain_records now idx [] = []
domain_records now idx (d ∷ ds) = domain_serialize now idx d ++ domain_records now (suc idx) ds

unfoldable pub recipient_records : ℕ → List Recipient → Bytes
recipient_records idx [] = []
recipient_records idx (r ∷ rs) = recipient_serialize idx r ++ recipient_records (suc idx) rs

unfoldable pub message_serialize : Clock → Message → Bytes
unfolding domains_serialize recipients_serialize domain_records recipient_records
message_serialize now m =
    usize_serialize m.created
    ++ (string_serialize m.return_path
        ++ (string_serialize (or_empty m.env_id)
            ++ (usize_serialize m.flags
                ++ (i16_serialize m.priority
                    ++ (usize_serialize (length m.domains)
                        ++ (domains_serialize now m.domains
                            ++ (usize_serialize (length m.recipients)
                                ++ (recipients_serialize m.recipients
                                    ++ (domain_records now 0 m.domains
                                        ++ recipient_records 0 m.recipients)))))))))

-- `serialize_changes`: each loop writes the records of what has changed and clears the mark.
unfoldable pub domain_changes : Clock → ℕ → List Domain → Bytes × List Domain
domain_changes now idx [] = ([], [])
domain_changes now idx (d ∷ ds) =
    let (written, rest) = domain_changes now (suc idx) ds in
    if d.changed
    then (
      domain_serialize now idx (record d { changed = false }) ++ written,
      record d { changed = false } ∷ rest,
    )
    else (written, d ∷ rest)

unfoldable pub unmarked : Recipient → Recipient
unmarked r = record r { flags = without_flag r.flags rcpt_status_changed }

unfoldable pub recipient_changes : ℕ → List Recipient → Bytes × List Recipient
recipient_changes idx [] = ([], [])
recipient_changes idx (r ∷ rs) =
    let (written, rest) = recipient_changes (suc idx) rs in
    if has_flag r.flags rcpt_status_changed
    then (recipient_serialize idx (unmarked r) ++ written, unmarked r ∷ rest)
    else (written, r ∷ rest)

unfoldable pub serialize_changes : Clock → Message → Bytes × Message
unfolding domain_changes recipient_changes
serialize_changes now m =
    let (written, domains) = domain_changes now 0 m.domains in
    let (more, recipients) = recipient_changes 0 m.recipients in
    (written ++ more, record m { domains = domains; recipients = recipients })
