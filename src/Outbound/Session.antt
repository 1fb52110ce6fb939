-- ===== src/Outbound/Session.antt =====
-- src/outbound/session.rs: `deliver`, the dialogue with a host about the recipients of one domain.
--
-- What the host answers to each command is an argument. The timeouts, which only bound waiting, are
-- among the answers or the errors.
pub mod Counts
pub mod Outcome
use Prim.Native.String.{String}
use smtp_server.Base.{
  ℕ, zero, suc, ◌+◌, Bool, true, false, ◌&&◌, ◌||◌, List, [], ◌∷◌, ◌++◌, map, Option, none, some,
  Bytes, length, leb, ◌==◌, if◌then◌else◌,
}
use smtp_server.Base.Decimal.{decimal}
use smtp_server.Base.Texts.{codes, line}
use smtp_server.Queue.Message.{
  Status, scheduled, completed, temporary_failure, permanent_failure, Response, HostResponse,
  ErrorDetails, Error, io, Recipient, Message, is_final, has_flag, with_flag, rcpt_status_changed,
}
use smtp_server.Base.Flags.{Flags}
use smtp_server.Outbound.Errors.{
  ClientError, unexpected_reply, Severity, positive_completion, positive_intermediate,
  transient_negative_completion, permanent_negative_completion, invalid, DomainStatus,
  from_smtp_error, timed_out_status,
}
use smtp_server.Outbound.Commands.{
  Reply, replied, broken, Answer, answered, failed, timed_out, MailFlags, Capabilities, Host, Asked,
  Loop, build_mail_from, build_rcpt_to, recipients_of, accepted, data_command,
}

-- The end of the dialogue.
unfoldable pub finish : ℕ → List Recipient × ℕ → List Recipient × DomainStatus
finish total_completed x =
    (x.0, if total_completed + x.1 == length x.0 then completed tt else scheduled)

module _ (fl : Flags) (mf : MailFlags) (severity : Response → Severity)
    (display : ClientError → Bytes) (trim : Bytes → Bytes) (h : Host) (m : Message) where
  abbrev smtp_error : Bytes → ClientError → DomainStatus
  unfolding from_smtp_error
  smtp_error command err = from_smtp_error severity display trim h.hostname command err

  -- A recipient as an answer of the host leaves it, and whether its delivery is over.
  abbrev pub delivered : Response → Recipient → Recipient
  delivered response r = record r {
    status = completed (record { hostname = h.hostname; response = response });
    flags = with_flag r.flags rcpt_status_changed;
  }

  abbrev pub rejected : Bytes → Response → Bool → Recipient → Recipient
  rejected command response for_good r =
      let e : HostResponse ErrorDetails = record {
        hostname = record { entity = h.hostname; details = command };
        response = response;
      } in
      record r {
        status = if for_good then permanent_failure e else temporary_failure e;
        flags = with_flag r.flags rcpt_status_changed;
      }

  unfoldable pub by_answer : Bytes → Recipient → Response → Severity → Loop → Loop
  by_answer cmd r response positive_completion rest = record rest {
    asked = (r, some response) ∷ rest.asked;
  }
  by_answer cmd r response permanent_negative_completion rest = record rest {
    asked = (rejected (trim cmd) response true r, none) ∷ rest.asked;
    total_completed = suc rest.total_completed;
  }
  by_answer cmd r response positive_intermediate rest = record rest {
    asked = (rejected (trim cmd) response false r, none) ∷ rest.asked;
  }
  by_answer cmd r response transient_negative_completion rest = record rest {
    asked = (rejected (trim cmd) response false r, none) ∷ rest.asked;
  }
  by_answer cmd r response invalid rest = record rest {
    asked = (rejected (trim cmd) response false r, none) ∷ rest.asked;
  }

  -- The rest of the recipients is left as it is.
  abbrev pub abort : DomainStatus → List Recipient → Loop
  abort status rs = record {
    asked = map (λ r. (r, none)) rs;
    total_completed = 0;
    aborted = some status;
  }

  unfoldable pub on_rcpt : Bytes → Recipient → List Recipient → Reply → Loop → Loop
  unfolding by_answer from_smtp_error
  on_rcpt cmd r rs (replied response) rest = by_answer cmd r response (severity response) rest
  on_rcpt cmd r rs (broken err) rest = abort (smtp_error [] err) (r ∷ rs)

  unfoldable pub ask_rcpts : Capabilities → ℕ → List Recipient → Loop
  unfolding on_rcpt build_rcpt_to
  ask_rcpts c position [] = record { asked = []; total_completed = 0; aborted = none }
  ask_rcpts c position (r ∷ rs) =
      let rest = ask_rcpts c (suc position) rs in
      let cmd = build_rcpt_to fl r c in
      if is_final r.status
      then record rest {
        asked = (r, none) ∷ rest.asked;
        total_completed = suc rest.total_completed;
      }
      else on_rcpt cmd r rs (h.rcpt_answer position cmd) rest

  -- All that were accepted have the message.
  unfoldable pub mark_delivered : List Asked → List Recipient × ℕ
  mark_delivered [] = ([], 0)
  mark_delivered ((r, none) ∷ asked) = let rest = mark_delivered asked in (r ∷ rest.0, rest.1)
  mark_delivered ((r, some response) ∷ asked) =
      let rest = mark_delivered asked in (delivered response r ∷ rest.0, suc rest.1)

  abbrev pub lmtp_mark : Bytes → Recipient → Response → Severity → Recipient × ℕ
  lmtp_mark command r response positive_completion = (delivered response r, 1)
  lmtp_mark command r response permanent_negative_completion = (rejected command response true r, 1)
  lmtp_mark command r response positive_intermediate = (rejected command response false r, 0)
  lmtp_mark command r response transient_negative_completion =
      (rejected command response false r, 0)
  lmtp_mark command r response invalid = (rejected command response false r, 0)

  -- Over LMTP each that was accepted has an answer, while there are answers.
  unfoldable pub mark_lmtp : Bytes → List Asked → List Response → List Recipient × ℕ
  mark_lmtp command [] responses = ([], 0)
  mark_lmtp command ((r, none) ∷ asked) responses =
      let rest = mark_lmtp command asked responses in (r ∷ rest.0, rest.1)
  mark_lmtp command ((r, some a) ∷ asked) [] =
      let rest = mark_lmtp command asked [] in (r ∷ rest.0, rest.1)
  mark_lmtp command ((r, some a) ∷ asked) (response ∷ responses) =
      let rest = mark_lmtp command asked responses in
      let x = lmtp_mark command r response (severity response) in (x.0 ∷ rest.0, x.1 + rest.1)

  unfoldable pub on_data : Option Bytes → Loop → Answer Response → List Recipient × DomainStatus
  unfolding mark_delivered finish from_smtp_error timed_out_status
  on_data bdat_cmd l (answered response) =
      if response.code == 250
      then finish l.total_completed (mark_delivered l.asked)
      else (recipients_of l.asked, smtp_error (data_command bdat_cmd) (unexpected_reply response))
  on_data bdat_cmd l (failed err) = (recipients_of l.asked, smtp_error (data_command bdat_cmd) err)
  on_data bdat_cmd l timed_out =
      (recipients_of l.asked, timed_out_status h.hostname (codes "reading SMTP DATA response"))

  unfoldable pub on_lmtp :
      Option Bytes → Loop → Answer (List Response) → List Recipient × DomainStatus
  unfolding mark_lmtp finish from_smtp_error timed_out_status
  on_lmtp bdat_cmd l (answered responses) =
      finish l.total_completed (mark_lmtp (data_command bdat_cmd) l.asked responses)
  on_lmtp bdat_cmd l (failed err) = (recipients_of l.asked, smtp_error [] err)
  on_lmtp bdat_cmd l timed_out =
      (recipients_of l.asked, timed_out_status h.hostname (codes "reading LMTP DATA responses"))

  -- `send_message`, and the answers to it
  unfoldable pub on_sent : Option Bytes → Loop → Answer (Unit {0}) → List Recipient × DomainStatus
  unfolding on_data on_lmtp from_smtp_error timed_out_status
  on_sent bdat_cmd l (answered u) =
      if h.is_smtp then on_data bdat_cmd l h.data_answer else on_lmtp bdat_cmd l h.lmtp_answers
  on_sent bdat_cmd l (failed err) = (recipients_of l.asked, smtp_error (data_command bdat_cmd) err)
  on_sent bdat_cmd l timed_out =
      (recipients_of l.asked, timed_out_status h.hostname (codes "sending message"))

  abbrev pub bdat_command : Capabilities → Option Bytes
  bdat_command c =
      if c.ext_chunking then some (codes "BDAT " ++ (decimal m.size ++ line " LAST")) else none

  -- What follows the RCPT commands.
  unfoldable pub after_rcpts :
      Capabilities → Loop → Option DomainStatus → List Recipient × DomainStatus
  unfolding on_sent finish
  after_rcpts c l (some status) = (recipients_of l.asked, status)
  after_rcpts c l none =
      if accepted l.asked == 0
      then finish l.total_completed (recipients_of l.asked, 0)
      else if h.file_is_read
      then on_sent (bdat_command c) l (h.sending (bdat_command c))
      else (recipients_of l.asked, temporary_failure (io (codes "Queue system error.")))

  -- From MAIL on. A reply of another severity is an error.
  unfoldable pub on_mail :
      Capabilities → List Recipient → Bytes → Reply → List Recipient × DomainStatus
  unfolding ask_rcpts after_rcpts from_smtp_error
  on_mail c rs cmd (broken err) = (rs, smtp_error cmd err)
  on_mail c rs cmd (replied response) = elim (severity response) [
    | positive_completion ↦ let l = ask_rcpts c 0 rs in after_rcpts c l l.aborted
    | positive_intermediate ↦ (rs, smtp_error cmd (unexpected_reply response))
    | transient_negative_completion ↦ (rs, smtp_error cmd (unexpected_reply response))
    | permanent_negative_completion ↦ (rs, smtp_error cmd (unexpected_reply response))
    | invalid ↦ (rs, smtp_error cmd (unexpected_reply response))
  ]

  abbrev hello_command : Bytes
  hello_command =
      (if h.is_smtp then codes "EHLO " else codes "LHLO ") ++ (h.local_hostname ++ line "")

  -- `say_helo`, and what follows it
  unfoldable pub on_hello :
      List Recipient
      → (Capabilities → List Recipient × DomainStatus)
      → Answer Capabilities
      → List Recipient × DomainStatus
  unfolding from_smtp_error timed_out_status
  on_hello rs next (answered c) = next c
  on_hello rs next (failed err) = (rs, smtp_error hello_command err)
  on_hello rs next timed_out = (rs, timed_out_status h.hostname (codes "reading EHLO response"))

  abbrev pub send_mail : List Recipient → Capabilities → List Recipient × DomainStatus
  unfolding on_mail build_mail_from
  send_mail rs c = let cmd = build_mail_from fl mf m c in on_mail c rs cmd (h.mail_answer cmd)

  unfoldable pub authenticate :
      List Recipient → Capabilities → Option (Option ClientError) → List Recipient × DomainStatus
  unfolding on_hello send_mail from_smtp_error
  authenticate rs c none = send_mail rs c
  authenticate rs c (some (some err)) = (rs, smtp_error (codes "AUTH ...") err)
  authenticate rs c (some none) = on_hello rs (send_mail rs) h.hello_again

  -- `deliver`: the recipients as they are left, and the status of the domain.
  unfoldable pub deliver : List Recipient → List Recipient × DomainStatus
  unfolding on_hello authenticate
  deliver rs = on_hello rs (λ c. authenticate rs c h.authentication) h.hello
