-- ===== src/Queue/Serialize/Reader.antt =====
-- `Message::deserialize`. The clocks are read once. `to_lowercase` of the standard library, the
-- Unicode tables, is an argument.
use smtp_server.Base.{
  ◌≡◌, ℕ, zero, suc, ◌%◌, ◌^◌, false, List, [], ◌∷◌, Option, none, some, Bytes, length, get_elem?,
  set, Parser, ◌>>=◌, pure, fail, next, ◌==◌, if◌then◌else◌,
}
use smtp_server.Queue.Message.{
  scheduled, Schedule, Domain, Recipient, Message, Clock, to_instant, domain_part,
}
use smtp_server.Queue.Serialize.Numbers.{usize_deserialize, i16_deserialize}
use smtp_server.Queue.Serialize.Text.{string_deserialize, string_serializer}
use smtp_server.Queue.Serialize.Values.{
  status_deserialize, host_serializer, details_serializer, unit_serializer, error_serializer,
}

-- `if !s.is_empty() { s.into() } else { None }`
abbrev pub non_empty : Bytes → Option Bytes
non_empty [] = none
non_empty (c ∷ s) = some (c ∷ s)

-- `Instant::deserialize` and `Schedule::deserialize`
unfoldable pub instant_deserialize : Clock → Parser ℕ
instant_deserialize clock = do timestamp ← usize_deserialize; pure (to_instant clock timestamp)

unfoldable pub schedule_deserialize : Clock → Parser (Schedule ℕ)
schedule_deserialize clock = do
  inner ← usize_deserialize
  due ← instant_deserialize clock
  pure (record { due = due; inner = inner % 2 ^ 32 })

-- `Schedule::now()`
abbrev pub schedule_now : Clock → Schedule ℕ
schedule_now clock = record { due = clock.instant; inner = 0 }

-- `for _ in 0..n { vec.push(..?) }`
unfoldable pub repeat {ℓ} : {A : Type ℓ} → ℕ → Parser A → Parser (List A)
repeat zero p bytes = some ([], bytes)
repeat (suc n) p bytes = elim (p bytes) [
  | none ↦ none
  | some (x, rest) ↦ elim (repeat n p rest) [ none ↦ none | some (xs, left) ↦ some (x ∷ xs, left) ]
]

unfoldable pub domain_deserialize : Clock → Parser Domain
domain_deserialize clock = do
  domain ← string_deserialize
  expires ← instant_deserialize clock
  pure (record {
    domain = domain;
    retry = schedule_now clock;
    notify = schedule_now clock;
    expires = expires;
    status = scheduled;
    changed = false;
  })

unfoldable pub recipient_deserialize : (Bytes → Bytes) → Parser Recipient
recipient_deserialize to_lowercase = do
  domain_idx ← usize_deserialize
  address ← string_deserialize
  orcpt ← string_deserialize
  pure (record {
    domain_idx = domain_idx;
    address = address;
    address_lcase = to_lowercase address;
    status = scheduled;
    flags = 0;
    orcpt = non_empty orcpt;
  })

-- The arms `b'D'` and `b'R'`; `none` is their `break`.
unfoldable pub domain_record : Clock → ℕ → Message → Parser Message
domain_record clock idx m bytes = elim (get_elem? m.domains idx) [
  | none ↦ none
  | some d ↦
      (do
        retry ← schedule_deserialize clock
        notify ← schedule_deserialize clock
        status ← status_deserialize
        pure (record m {
          domains =
              set m.domains idx (record d { retry = retry; notify = notify; status = status });
        }))
        bytes
]

unfoldable pub recipient_record : ℕ → Message → Parser Message
recipient_record idx m bytes = elim (get_elem? m.recipients idx) [
  | none ↦ none
  | some r ↦
      (do
        flags ← usize_deserialize
        status ← status_deserialize
        pure (record m {
          recipients = set m.recipients idx (record r { flags = flags; status = status });
        }))
        bytes
]

unfoldable pub record_body : Clock → ℕ → ℕ → Message → Parser Message
unfolding domain_record recipient_record
record_body clock ch idx m =
    if ch == b'D'
    then domain_record clock idx m
    else if ch == b'R'
    then recipient_record idx m
    else fail

-- One round of `while let Some((ch, idx))`; `none` ends the loop.
unfoldable pub status_record : Clock → Message → Parser Message
unfolding record_body
status_record clock m = do ch ← next; idx ← usize_deserialize; record_body clock ch idx m

-- The loop. A round takes at least one byte, so fuel for each byte is enough.
unfoldable pub status_loop : Clock → ℕ → Message → Bytes → Message
status_loop clock zero m bytes = m
status_loop clock (suc fuel) m bytes = elim (status_record clock m bytes) [
  | none ↦ m
  | some (m', rest) ↦ status_loop clock fuel m' rest
]

-- What stands before the status records.
unfoldable pub header_deserialize : (Bytes → Bytes) → Clock → Parser Message
header_deserialize to_lowercase clock = do
  created ← usize_deserialize
  return_path ← string_deserialize
  env_id ← string_deserialize
  flags ← usize_deserialize
  priority ← i16_deserialize
  num_domains ← usize_deserialize
  domains ← repeat num_domains (domain_deserialize clock)
  num_recipients ← usize_deserialize
  recipients ← repeat num_recipients (recipient_deserialize to_lowercase)
  pure (record {
    id = 0;
    created = created;
    path = [];
    return_path = return_path;
    return_path_lcase = to_lowercase return_path;
    return_path_domain = domain_part (to_lowercase return_path);
    recipients = recipients;
    domains = domains;
    flags = flags;
    env_id = non_empty env_id;
    priority = priority;
    size = 0;
    queue_refs = [];
  })

unfoldable pub message_deserialize : (Bytes → Bytes) → Clock → Bytes → Option Message
message_deserialize to_lowercase clock bytes = elim (header_deserialize to_lowercase clock bytes) [
  | none ↦ none
  | some (m, rest) ↦ some (status_loop clock (suc (length rest)) m rest)
]

pub message_deserialize-header :
    (to_lowercase : Bytes → Bytes) (clock : Clock) (bytes : Bytes) {rest : Bytes} {m : Message}
    → header_deserialize to_lowercase clock bytes ≡ some (m, rest)
    → message_deserialize to_lowercase clock bytes
      ≡ some (status_loop clock (suc (length rest)) m rest)
unfolding message_deserialize
message_deserialize-header to_lowercase clock bytes e = rw (e, message_deserialize)
