-- ===== src/Queue/Serialize/Log.antt =====
-- The status records behind the header are a log: the reader applies them one by one.
pub mod Loop
use native.Mathlib.Nat.{mod-eq_of_lt}
use smtp_server.Base.{
  ℕ, ◌^◌, ◌<◌, ◌≡◌, refl, ◌∙◌, ap, ◌++◌, append_assoc, some, arith, Bytes, length, get_elem?, set,
  bind_ok,
}
use smtp_server.Queue.Message.{
  Status, Schedule, Domain, Recipient, Message, Error, HostResponse, ErrorDetails, Clock,
  instant_to_timestamp, to_instant,
}
use smtp_server.Queue.Serialize.Numbers.{usize_serialize, usize_deserialize, usize-reads_back}
use smtp_server.Queue.Serialize.Text.{IsText, string_serializer, string-reads_back}
use smtp_server.Queue.Serialize.Values.{
  status_serialize, status_deserialize, unit_serializer, error_serializer, host_serializer,
  details_serializer,
}
use smtp_server.Queue.Serialize.Values.ReadBack.{
  StatusFits, ErrorFits, HostFits, DetailsFits, status-ReadsBack, error-ReadsBack, host-ReadsBack,
  details-ReadsBack,
}
use smtp_server.Queue.Serialize.Writer.{domain_serialize, recipient_serialize}
use smtp_server.Queue.Serialize.Reader.{
  instant_deserialize, schedule_deserialize, domain_record, recipient_record, record_body,
  status_record,
}
use smtp_server.Queue.Serialize.Edits.{modify, get_elem?_in_range, set-modify}

abbrev pub ScheduleFits : Clock → Schedule ℕ → Type 0
ScheduleFits now s = (s.inner < 2 ^ 32) × (instant_to_timestamp now s.due < 2 ^ 64)

pub record DomainFits (now : Clock) (d : Domain) : Type 0 where
  pub name : IsText d.domain
  pub expires : instant_to_timestamp now d.expires < 2 ^ 64
  pub retry : ScheduleFits now d.retry
  pub notify : ScheduleFits now d.notify
  pub status : StatusFits (λ _. Unit {0}) ErrorFits d.status

pub record StateFits (r : Recipient) : Type 0 where
  pub flags : r.flags < 2 ^ 64
  pub status : StatusFits (HostFits IsText) (HostFits DetailsFits) r.status

-- An instant that one clock wrote as a time stamp and another reads.
abbrev pub carried : Clock → Clock → ℕ → ℕ
carried now clock time = to_instant clock (instant_to_timestamp now time)

abbrev pub carried_schedule : Clock → Clock → Schedule ℕ → Schedule ℕ
carried_schedule now clock s = record s { due = carried now clock s.due }

-- What a status record replaces: schedules and status, and nothing else.
abbrev pub patch_domain : Clock → Clock → Domain → Domain → Domain
patch_domain now clock d x = record x {
  retry = carried_schedule now clock d.retry;
  notify = carried_schedule now clock d.notify;
  status = d.status;
}

abbrev pub patch_recipient : Recipient → Recipient → Recipient
patch_recipient r x = record x { flags = r.flags; status = r.status }

pub instant-reads_back :
    (now clock : Clock) (time : ℕ) (rest : Bytes)
    → instant_to_timestamp now time < 2 ^ 64
    → instant_deserialize clock (usize_serialize (instant_to_timestamp now time) ++ rest)
      ≡ some (carried now clock time, rest)
unfolding instant_deserialize
instant-reads_back now clock time rest h =
    bind_ok usize_deserialize _ (usize-reads_back _ h rest) refl

schedule-reads_back :
    (now clock : Clock) (s : Schedule ℕ) (rest : Bytes)
    → ScheduleFits now s
    → schedule_deserialize clock
        (usize_serialize s.inner ++ (usize_serialize (instant_to_timestamp now s.due) ++ rest))
      ≡ some (carried_schedule now clock s, rest)
unfolding schedule_deserialize
schedule-reads_back now clock s rest h =
    bind_ok usize_deserialize _ (usize-reads_back s.inner (omega (arith, h.0)) _) (
      bind_ok (instant_deserialize clock) _ (instant-reads_back now clock s.due rest h.1) (
        ap (λ (n : ℕ). some (record { due = carried now clock s.due; inner = n }, rest))
          (mod-eq_of_lt h.0)))

domain_status-reads_back :
    (s : Status Unit Error) (rest : Bytes)
    → StatusFits (λ _. Unit {0}) ErrorFits s
    → status_deserialize (status_serialize s ++ rest) ≡ some (s, rest)
domain_status-reads_back s rest h = status-ReadsBack (λ _ _ _. refl) error-ReadsBack s h rest

recipient_status-reads_back :
    (s : Status (HostResponse Bytes) (HostResponse ErrorDetails)) (rest : Bytes)
    → StatusFits (HostFits IsText) (HostFits DetailsFits) s
    → status_deserialize (status_serialize s ++ rest) ≡ some (s, rest)
recipient_status-reads_back s rest h =
    status-ReadsBack (host-ReadsBack string-reads_back) (host-ReadsBack details-ReadsBack) s h rest

module _ (now clock : Clock) where
  after_index : Domain → Bytes → Bytes
  after_index d rest =
      usize_serialize d.retry.inner
      ++ (usize_serialize (instant_to_timestamp now d.retry.due)
          ++ (usize_serialize d.notify.inner
              ++ (usize_serialize (instant_to_timestamp now d.notify.due)
                  ++ (status_serialize d.status ++ rest))))

  domain_record-reads_back :
      (m : Message) (idx : ℕ) (d x : Domain) (rest : Bytes)
      → DomainFits now d
      → get_elem? m.domains idx ≡ some x
      → domain_record clock idx m (after_index d rest)
        ≡ some (record m { domains = set m.domains idx (patch_domain now clock d x) }, rest)
  unfolding domain_record after_index
  domain_record-reads_back m idx d x rest h found =
      rw (found, domain_record)
        (bind_ok (schedule_deserialize clock) _ (schedule-reads_back now clock d.retry _ h.retry) (
          bind_ok (schedule_deserialize clock) _ (schedule-reads_back now clock d.notify _ h.notify)
            (bind_ok status_deserialize _ (domain_status-reads_back d.status rest h.status) refl)))

  -- One record of a domain, read in any message that has the domain.
  pub status_record-domain :
      (m : Message) (idx : ℕ) (d : Domain) (rest : Bytes)
      → idx < length m.domains
      → idx < 2 ^ 64
      → DomainFits now d
      → status_record clock m (domain_serialize now idx d ++ rest)
        ≡ some (record m { domains = modify m.domains idx (patch_domain now clock d) }, rest)
  unfolding status_record domain_serialize after_index record_body
  status_record-domain m idx d rest within word h =
      let (x, found) = get_elem?_in_range m.domains idx within in
      simp append_assoc (
        bind_ok usize_deserialize _ (usize-reads_back idx word _) (
          domain_record-reads_back m idx d x rest h found
          ∙ ap (λ ds. some (record m { domains = ds }, rest))
              (set-modify m.domains idx (patch_domain now clock d) x found)))

  pub status_record-recipient :
      (m : Message) (idx : ℕ) (r : Recipient) (rest : Bytes)
      → idx < length m.recipients
      → idx < 2 ^ 64
      → StateFits r
      → status_record clock m (recipient_serialize idx r ++ rest)
        ≡ some (record m { recipients = modify m.recipients idx (patch_recipient r) }, rest)
  unfolding status_record recipient_serialize record_body recipient_record
  status_record-recipient m idx r rest within word h =
      let (x, found) = get_elem?_in_range m.recipients idx within in
      simp append_assoc (
        bind_ok usize_deserialize _ (usize-reads_back idx word _) (
          rw (found, recipient_record)
            (bind_ok usize_deserialize _ (usize-reads_back r.flags h.flags _) (
              bind_ok status_deserialize _ (recipient_status-reads_back r.status rest h.status) (
                ap (λ rs. some (record m { recipients = rs }, rest))
                  (set-modify m.recipients idx (patch_recipient r) x found))))))
