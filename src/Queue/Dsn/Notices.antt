-- ===== src/Queue/Dsn/Notices.antt =====
-- src/queue/dsn.rs: what the loop over the recipients of `build_dsn` reports of each.
--
-- The notices stand in a list, of which the source keeps the texts. The clock is read once.
use smtp_server.Base.{
  ℕ, ◌^◌, Bool, true, false, ◌&&◌, ◌||◌, List, [], ◌∷◌, ◌++◌, Option, none, some, Bytes, get_elem?,
  leb, if◌then◌else◌,
}
use smtp_server.Base.Texts.{line}
use smtp_server.Queue.Message.{
  Status, scheduled, completed, temporary_failure, permanent_failure, HostResponse, ErrorDetails,
  Error, concurrency_limited, Domain, Recipient, Clock, has_flag, with_flag, rcpt_status_changed,
}
use smtp_server.Queue.Dsn.{
  delivered_text, rejected_text, error_text, rcpt_status, domain_status, final_recipient,
  will_retry_until,
}
use smtp_server.Base.Flags.{Flags}

-- `RCPT_DSN_SENT`
abbrev pub rcpt_dsn_sent : ℕ
rcpt_dsn_sent = 2 ^ 32

-- Which of the three texts a recipient is written to.
pub data Outcome : Type 0 where
  success delay failure : Outcome

pub record Notice : Type 0 where
  pub outcome : Outcome
  pub text : Bytes
  pub lines : Bytes

abbrev pub mark_sent : Recipient → Recipient
mark_sent r = record r { flags = with_flag (with_flag r.flags rcpt_dsn_sent) rcpt_status_changed }

-- A recipient that is not asked about any more: it has been reported, or wants no report.
abbrev pub is_done : Flags → Recipient → Bool
is_done fl r = has_flag r.flags rcpt_dsn_sent || has_flag r.flags fl.rcpt_notify_never

abbrev pub notice_if : Bool → Notice → Option Notice
notice_if true n = some n
notice_if false n = none

module _ (fl : Flags) (to_rfc822 : ℕ → Bytes) (clock : Clock) where
  abbrev pub is_due : Domain → Recipient → Bool
  is_due d r = leb d.notify.due clock.instant && has_flag r.flags fl.rcpt_notify_delay

  abbrev pub domain_delay : Domain → Recipient → Error → Notice
  unfolding error_text domain_status final_recipient will_retry_until
  domain_delay d r err = record {
    outcome = delay;
    text = error_text err r.address d.domain;
    lines =
        final_recipient r
        ++ (domain_status d.status ++ (will_retry_until to_rfc822 clock d ++ line ""));
  }

  abbrev pub rcpt_delay : Domain → Recipient → HostResponse ErrorDetails → Notice
  unfolding rejected_text rcpt_status final_recipient will_retry_until
  rcpt_delay d r response = record {
    outcome = delay;
    text = rejected_text response r.address;
    lines =
        final_recipient r
        ++ (rcpt_status r.status ++ (will_retry_until to_rfc822 clock d ++ line ""));
  }

  abbrev pub domain_failure : Domain → Recipient → Error → Notice
  unfolding error_text domain_status final_recipient
  domain_failure d r err = record {
    outcome = failure;
    text = error_text err r.address d.domain;
    lines = final_recipient r ++ (domain_status d.status ++ line "");
  }

  abbrev pub rcpt_failure : Recipient → HostResponse ErrorDetails → Notice
  unfolding rejected_text rcpt_status final_recipient
  rcpt_failure r response = record {
    outcome = failure;
    text = rejected_text response r.address;
    lines = final_recipient r ++ (rcpt_status r.status ++ line "");
  }

  -- A recipient with no status of its own has that of its domain. At a domain whose delivery is
  -- completed only the empty line is written.
  unfoldable pub domain_notice :
      Domain → Recipient → Status (Unit {0}) Error → Recipient × Option Notice
  unfolding error_text domain_status final_recipient will_retry_until
  domain_notice d r (permanent_failure err) = (
    mark_sent r,
    notice_if (has_flag (mark_sent r).flags fl.rcpt_notify_failure) (domain_failure d r err),
  )
  domain_notice d r (temporary_failure err) = (r, notice_if (is_due d r) (domain_delay d r err))
  domain_notice d r scheduled = (r, notice_if (is_due d r) (domain_delay d r concurrency_limited))
  domain_notice d r (completed u) =
      (r, some (record { outcome = success; text = []; lines = line "" }))

  unfoldable pub rcpt_notice :
      Domain
      → Recipient
      → Status (HostResponse Bytes) (HostResponse ErrorDetails)
      → Recipient × Option Notice
  unfolding domain_notice delivered_text rejected_text rcpt_status final_recipient will_retry_until
  rcpt_notice d r (completed response) = (
    mark_sent r,
    notice_if (has_flag (mark_sent r).flags fl.rcpt_notify_success) (record {
      outcome = success;
      text = delivered_text response r.address;
      lines = final_recipient r ++ (rcpt_status r.status ++ line "");
    }),
  )
  rcpt_notice d r (temporary_failure response) =
      (r, notice_if (is_due d r) (rcpt_delay d r response))
  rcpt_notice d r (permanent_failure response) = (
    mark_sent r,
    notice_if (has_flag (mark_sent r).flags fl.rcpt_notify_failure) (rcpt_failure r response),
  )
  rcpt_notice d r scheduled = domain_notice d r d.status

  -- A message has the domain that a recipient names.
  unfoldable pub notice_at : Option Domain → Recipient → Recipient × Option Notice
  unfolding rcpt_notice
  notice_at none r = (r, none)
  notice_at (some d) r = rcpt_notice d r r.status

  unfoldable pub notice_of : List Domain → Recipient → Recipient × Option Notice
  unfolding notice_at
  notice_of ds r = if is_done fl r then (r, none) else notice_at (get_elem? ds r.domain_idx) r

  abbrev pub with_notice : Option Notice → List Notice → List Notice
  with_notice none ns = ns
  with_notice (some n) ns = n ∷ ns

  -- The loop over the recipients.
  unfoldable pub notices : List Domain → List Recipient → List Recipient × List Notice
  unfolding notice_of
  notices ds [] = ([], [])
  notices ds (r ∷ rs) =
      let x = notice_of ds r in let rest = notices ds rs in (x.0 ∷ rest.0, with_notice x.1 rest.1)
