-- ===== src/Queue/Dsn/Build.antt =====
-- src/queue/dsn.rs: the notification of an attempt, and what it leaves of the message.
use Prim.Native.String.{String}
use smtp_server.Base.{
  ℕ, ◌+◌, ◌*◌, Bool, true, false, ◌&&◌, ◌||◌, not, List, [], ◌∷◌, ◌++◌, map, Option, none, some,
  Bytes, get_elem?, leb, if◌then◌else◌, is_empty,
}
use smtp_server.Base.Texts.{codes, line}
use smtp_server.Core.Conditions.Eval.{if_block_eval}
use smtp_server.Queue.Message.{
  scheduled, completed, temporary_failure, permanent_failure, Schedule, Domain, Recipient, Message,
  Clock, is_pending, with_flag, nanos,
}
use smtp_server.Queue.Envelopes.{simple_envelope}
use smtp_server.Queue.Dsn.{dsn_headers}
use smtp_server.Base.Flags.{Flags}
use smtp_server.Session.Build.{QueueTimes}
use smtp_server.Queue.Dsn.Notices.{
  rcpt_dsn_sent, Outcome, success, delay, failure, Notice, is_done, notices,
}

module _ (fl : Flags) (to_rfc822 : ℕ → Bytes) (clock : Clock) where
  abbrev pub is_outcome : Outcome → Outcome → Bool
  is_outcome success success = true
  is_outcome delay delay = true
  is_outcome failure failure = true
  is_outcome a b = false

  -- `txt_success`, `txt_delay` and `txt_failed`
  unfoldable pub text_of : Outcome → List Notice → Bytes
  text_of outcome [] = []
  text_of outcome (n ∷ ns) =
      let rest = text_of outcome ns in if is_outcome outcome n.outcome then n.text ++ rest else rest

  abbrev pub lines_of : List Notice → Bytes
  lines_of [] = []
  lines_of (n ∷ ns) = n.lines ++ lines_of ns

  abbrev pub has_outcome : Outcome → List Notice → Bool
  unfolding text_of
  has_outcome outcome ns = not (is_empty (text_of outcome ns))

  abbrev pub next_schedule : Domain → Option ℕ → Schedule ℕ
  next_schedule d none = record { due = d.expires + 10 * nanos; inner = d.notify.inner }
  next_schedule d (some next) = record { due = clock.instant + next; inner = d.notify.inner + 1 }

  -- The next notice of a delay is at the next interval, or never.
  unfoldable pub next_notice : QueueTimes → Message → Domain → Domain
  unfolding if_block_eval
  next_notice q m d =
      if is_pending d.status && leb d.notify.due clock.instant
      then (let intervals = if_block_eval q.notify (simple_envelope m d.domain []) in
          record d {
            notify = next_schedule d (get_elem? (intervals.0 ∷ intervals.1) (d.notify.inner + 1));
            changed = true;
          })
      else d

  -- What comes before the addresses of one outcome, when there are others too.
  abbrev pub section_of : Bool → String → Bytes → Bytes
  section_of is_mixed title text =
      if is_empty text then [] else (if is_mixed then line title else []) ++ (text ++ line "")

  -- The subject, the text above the addresses, and whether there are several outcomes.
  unfoldable pub headline : Bool → Bool → Bool → Bytes × Bytes × Bool
  headline true false false = (
    codes "Successfully delivered message",
    line "Your message has been successfully delivered to the following recipients:" ++ line "",
    false,
  )
  headline false true false = (
    codes "Warning: Delay in message delivery",
    line "There was a temporary problem delivering your message to the following recipients:"
        ++ line "",
    false,
  )
  headline false false true = (
    codes "Failed to deliver message",
    line "Your message could not be delivered to the following recipients:" ++ line "",
    false,
  )
  headline true has_delay has_failure = (
    codes "Partially delivered message",
    line "Your message has been partially delivered:" ++ line "",
    true,
  )
  headline false has_delay has_failure = (
    codes "Warning: Temporary and permanent failures during message delivery",
    line "Your message could not be delivered to some recipients:" ++ line "",
    true,
  )

  -- What the notification holds, besides its headers and the beginning of the message.
  pub record Report : Type 0 where
    pub subject : Bytes
    pub text : Bytes
    pub delivery_status : Bytes

  unfoldable pub report_of : Bytes → Message → List Notice → Report
  unfolding headline text_of dsn_headers
  report_of reporting_mta m ns =
      let h = headline (has_outcome success ns) (has_outcome delay ns) (has_outcome failure ns) in
      record {
        subject = h.0;
        text =
            h.1
            ++ (section_of h.2 "    ----- Delivery to the following addresses was succesful -----"
                  (text_of success ns)
                ++ (section_of h.2
                      "    ----- There was a temporary problem delivering to these addresses -----"
                      (text_of delay ns)
                    ++ section_of h.2 "    ----- Delivery to the following addresses failed -----"
                        (text_of failure ns)));
        delivery_status = dsn_headers to_rfc822 reporting_mta m ++ lines_of ns;
      }

  -- `build_dsn`
  unfoldable pub build_dsn : QueueTimes → Bytes → Message → Option Report × Message
  unfolding notices text_of next_notice report_of
  build_dsn q reporting_mta m =
      let r = notices fl to_rfc822 clock m.domains m.recipients in
      let m' : Message = record m { recipients = r.0 } in
      if has_outcome success r.1 || (has_outcome delay r.1 || has_outcome failure r.1)
      then (
        some (report_of reporting_mta m' r.1),
        if has_outcome delay r.1
            then record m' { domains = map (next_notice q m') m.domains }
            else m',
      )
      else (none, m')

  -- The lines of a double bounce are only traced.
  unfoldable pub bounce_at : Option Domain → Recipient → Recipient
  bounce_at none r = r
  bounce_at (some d) r = elim r.status [
    | permanent_failure err ↦ record r { flags = with_flag r.flags rcpt_dsn_sent }
    | scheduled ↦ elim d.status [
      | permanent_failure err ↦ record r { flags = with_flag r.flags rcpt_dsn_sent }
      | scheduled ↦ r
      | completed u ↦ r
      | temporary_failure err ↦ r
    ]
    | completed h ↦ r
    | temporary_failure h ↦ r
  ]

  abbrev pub silence : Domain → Domain
  silence d =
      if leb d.notify.due clock.instant
      then record d { notify = record d.notify { due = d.expires + 10 * nanos } }
      else d

  -- `handle_double_bounce`
  unfoldable pub handle_double_bounce : Message → Message
  unfolding bounce_at
  handle_double_bounce m = record m {
    recipients =
        map (λ r. if is_done fl r then r else bounce_at (get_elem? m.domains r.domain_idx) r)
          m.recipients;
    domains = map silence m.domains;
  }

  -- `send_dsn`: the notification that is queued, if there is one, and the message.
  unfoldable pub send_dsn : QueueTimes → Bytes → Message → Option Report × Message
  unfolding build_dsn handle_double_bounce
  send_dsn q reporting_mta m =
      if is_empty m.return_path then (none, handle_double_bounce m) else build_dsn q reporting_mta m
