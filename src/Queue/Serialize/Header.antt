-- ===== src/Queue/Serialize/Header.antt =====
-- What stands before the status records is read back: names, addresses, expiry times and counts.
-- Each domain and recipient is then a blank, whose schedules and status the records fill in.
use smtp_server.Base.{
  ℕ, suc, ◌^◌, ◌<◌, ◌≡◌, refl, false, List, [], ◌∷◌, ◌++◌, append_assoc, Option, none, some, arith,
  Bytes, length, All, Parser, map, bind_ok,
}
use smtp_server.Base.Utf8.{is_utf8}
use smtp_server.Queue.Message.{scheduled, Domain, Recipient, Message, Clock, domain_part}
use smtp_server.Queue.Serialize.Numbers.{
  usize_serialize, usize_deserialize, usize-reads_back, i16_serialize, i16_deserialize,
  i16-reads_back,
}
use smtp_server.Queue.Serialize.Text.{
  IsText, string_serialize, string_deserialize, string-reads_back,
}
use smtp_server.Queue.Serialize.Writer.{or_empty, domains_serialize, recipients_serialize}
use smtp_server.Queue.Serialize.Reader.{
  non_empty, instant_deserialize, schedule_now, repeat, domain_deserialize, recipient_deserialize,
  header_deserialize,
}
use smtp_server.Queue.Serialize.Log.{DomainFits, StateFits, carried, instant-reads_back}

-- An optional text that the format tells apart: an empty one reads as none.
abbrev pub OptionFits : Option Bytes → Type 0
OptionFits none = Unit
OptionFits (some s) = IsText s × ((s ≡ []) → ⊥)

pub record RecipientFits (r : Recipient) : Type 0 where
  pub index : r.domain_idx < 2 ^ 64
  pub address : IsText r.address
  pub orcpt : OptionFits r.orcpt
  pub state : StateFits r

pub record MessageFits (now : Clock) (m : Message) : Type 0 where
  pub created : m.created < 2 ^ 64
  pub return_path : IsText m.return_path
  pub env_id : OptionFits m.env_id
  pub flags : m.flags < 2 ^ 64
  pub priority : m.priority < 2 ^ 16
  pub num_domains : length m.domains < 2 ^ 64
  pub domains : All (DomainFits now) m.domains
  pub num_recipients : length m.recipients < 2 ^ 64
  pub recipients : All RecipientFits m.recipients

or_empty-IsText : (o : Option Bytes) → OptionFits o → IsText (or_empty o)
unfolding is_utf8
or_empty-IsText none h = record { utf8 = refl; short = omega arith }
or_empty-IsText (some s) h = h.0

non_empty-or_empty : (o : Option Bytes) → OptionFits o → non_empty (or_empty o) ≡ o
non_empty-or_empty none h = refl
non_empty-or_empty (some []) h = absurd (h.1 refl)
non_empty-or_empty (some (c ∷ s)) h = refl

abbrev pub blank_domain : Clock → Clock → Domain → Domain
blank_domain now clock d = record {
  domain = d.domain;
  retry = schedule_now clock;
  notify = schedule_now clock;
  expires = carried now clock d.expires;
  status = scheduled;
  changed = false;
}

abbrev pub blank_recipient : (Bytes → Bytes) → Recipient → Recipient
blank_recipient to_lowercase r = record {
  domain_idx = r.domain_idx;
  address = r.address;
  address_lcase = to_lowercase r.address;
  status = scheduled;
  flags = 0;
  orcpt = r.orcpt;
}

abbrev pub blank_message : (Bytes → Bytes) → Clock → Clock → Message → Message
blank_message to_lowercase now clock m = record {
  id = 0;
  created = m.created;
  path = [];
  return_path = m.return_path;
  return_path_lcase = to_lowercase m.return_path;
  return_path_domain = domain_part (to_lowercase m.return_path);
  recipients = map (blank_recipient to_lowercase) m.recipients;
  domains = map (blank_domain now clock) m.domains;
  flags = m.flags;
  env_id = m.env_id;
  priority = m.priority;
  size = 0;
  queue_refs = [];
}

repeat_step {ℓ} :
    {A : Type ℓ} (n : ℕ) (p : Parser A) {x : A} {xs : List A} {bytes rest left : Bytes}
    → p bytes ≡ some (x, rest)
    → repeat n p rest ≡ some (xs, left)
    → repeat (suc n) p bytes ≡ some (x ∷ xs, left)
unfolding repeat
repeat_step n p e k = rw (e, repeat) (rw (k, repeat))

module _ (now clock : Clock) where
  domains-reads_back :
      (ds : List Domain) (rest : Bytes)
      → All (DomainFits now) ds
      → repeat (length ds) (domain_deserialize clock) (domains_serialize now ds ++ rest)
        ≡ some (map (blank_domain now clock) ds, rest)
  unfolding domains_serialize domain_deserialize
  domains-reads_back [] rest h = unfold repeat in refl
  domains-reads_back (d ∷ ds) rest h = simp append_assoc (
      repeat_step (length ds) (domain_deserialize clock)
        (bind_ok string_deserialize _ (string-reads_back d.domain h.0.name _) (
          bind_ok (instant_deserialize clock) _
            (instant-reads_back now clock d.expires _ h.0.expires) refl))
        (domains-reads_back ds rest h.1))

module _ (to_lowercase : Bytes → Bytes) where
  recipients-reads_back :
      (rs : List Recipient) (rest : Bytes)
      → All RecipientFits rs
      → repeat (length rs) (recipient_deserialize to_lowercase) (recipients_serialize rs ++ rest)
        ≡ some (map (blank_recipient to_lowercase) rs, rest)
  unfolding recipients_serialize recipient_deserialize
  recipients-reads_back [] rest h = unfold repeat in refl
  recipients-reads_back (r ∷ rs) rest h = simp append_assoc (
      repeat_step (length rs) (recipient_deserialize to_lowercase)
        (bind_ok usize_deserialize _ (usize-reads_back r.domain_idx h.0.index _) (
          bind_ok string_deserialize _ (string-reads_back r.address h.0.address _) (
            bind_ok string_deserialize _
              (string-reads_back (or_empty r.orcpt) (or_empty-IsText r.orcpt h.0.orcpt) _)
              (rw (non_empty-or_empty r.orcpt h.0.orcpt)))))
        (recipients-reads_back rs rest h.1))

-- The header of a message with whatever follows it.
abbrev pub header : Clock → Message → Bytes → Bytes
header now m rest =
    usize_serialize m.created
    ++ (string_serialize m.return_path
        ++ (string_serialize (or_empty m.env_id)
            ++ (usize_serialize m.flags
                ++ (i16_serialize m.priority
                    ++ (usize_serialize (length m.domains)
                        ++ (domains_serialize now m.domains
                            ++ (usize_serialize (length m.recipients)
                                ++ (recipients_serialize m.recipients ++ rest))))))))

pub header-reads_back :
    (to_lowercase : Bytes → Bytes) (now clock : Clock) (m : Message) (rest : Bytes)
    → MessageFits now m
    → header_deserialize to_lowercase clock (header now m rest)
      ≡ some (blank_message to_lowercase now clock m, rest)
unfolding header_deserialize
header-reads_back to_lowercase now clock m rest h =
    bind_ok usize_deserialize _ (usize-reads_back m.created h.created _) (
      bind_ok string_deserialize _ (string-reads_back m.return_path h.return_path _) (
        bind_ok string_deserialize _
          (string-reads_back (or_empty m.env_id) (or_empty-IsText m.env_id h.env_id) _)
          (bind_ok usize_deserialize _ (usize-reads_back m.flags h.flags _) (
            bind_ok i16_deserialize _ (i16-reads_back m.priority h.priority _) (
              bind_ok usize_deserialize _ (usize-reads_back (length m.domains) h.num_domains _) (
                bind_ok (repeat (length m.domains) (domain_deserialize clock)) _
                  (domains-reads_back now clock m.domains _ h.domains)
                  (bind_ok usize_deserialize _
                    (usize-reads_back (length m.recipients) h.num_recipients _)
                    (bind_ok (repeat (length m.recipients) (recipient_deserialize to_lowercase)) _
                      (recipients-reads_back to_lowercase m.recipients rest h.recipients)
                      (rw (non_empty-or_empty m.env_id h.env_id))))))))))
