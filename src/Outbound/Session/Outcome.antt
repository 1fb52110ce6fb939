-- ===== src/Outbound/Session/Outcome.antt =====
-- What the status that `deliver` gives a domain says of its recipients.
use smtp_server.Base.{
  ◌≡◌, refl, Bool, true, false, List, [], Option, none, some, Bytes, ◌==◌, if◌then◌else◌, arith,
}
use smtp_server.Base.Texts.{codes}
use smtp_server.Queue.Message.{temporary_failure, Response, Error, Recipient, Message}
use smtp_server.Base.Flags.{Flags}
use smtp_server.Outbound.Errors.{
  ClientError, unexpected_reply, Severity, positive_completion, positive_intermediate,
  transient_negative_completion, permanent_negative_completion, invalid, DomainStatus,
  from_smtp_error,
}
use smtp_server.Outbound.Commands.{
  Reply, replied, broken, Answer, answered, failed, timed_out, MailFlags, Capabilities, Host, Loop,
  recipients_of, accepted, data_command,
}
use smtp_server.Outbound.Session.{
  ask_rcpts, mark_delivered, mark_lmtp, on_data, on_lmtp, on_sent, bdat_command, after_rcpts,
  on_mail, on_hello, authenticate, deliver,
}
use smtp_server.Outbound.Session.Counts.{
  IsSettledWith, unsettled, finish-IsSettledWith, from_smtp_error-open, timed_out-open, Counted,
  ask_rcpts-Counted, mark_delivered-finals, mark_lmtp-finals,
}

module _ (fl : Flags) (mf : MailFlags) (severity : Response → Severity)
    (display : ClientError → Bytes) (trim : Bytes → Bytes) (h : Host) (m : Message) where
  either :
      (b : Bool) (x y : List Recipient × DomainStatus)
      → IsSettledWith x
      → IsSettledWith y
      → IsSettledWith (if b then x else y)
  either true x y p q = p
  either false x y p q = q

  on_data-IsSettledWith :
      (bdat_cmd : Option Bytes) (l : Loop) (a : Answer Response)
      → Counted l
      → l.aborted ≡ none
      → IsSettledWith (on_data fl mf severity display trim h m bdat_cmd l a)
  unfolding on_data
  on_data-IsSettledWith bdat_cmd l (answered response) (c, all, g) e =
      either (response.code == 250) _ _
        (finish-IsSettledWith l.total_completed
          (mark_delivered fl mf severity display trim h m l.asked)
          (omega (arith, c e, mark_delivered-finals fl mf severity display trim h m l.asked all)))
        (unsettled _ (
          from_smtp_error-open severity display trim h.hostname (data_command bdat_cmd)
            (unexpected_reply response)))
  on_data-IsSettledWith bdat_cmd l (failed err) c e =
      unsettled _
        (from_smtp_error-open severity display trim h.hostname (data_command bdat_cmd) err)
  on_data-IsSettledWith bdat_cmd l timed_out c e =
      unsettled _ (timed_out-open h.hostname (codes "reading SMTP DATA response"))

  on_lmtp-IsSettledWith :
      (bdat_cmd : Option Bytes) (l : Loop) (a : Answer (List Response))
      → Counted l
      → l.aborted ≡ none
      → IsSettledWith (on_lmtp fl mf severity display trim h m bdat_cmd l a)
  unfolding on_lmtp
  on_lmtp-IsSettledWith bdat_cmd l (answered responses) (c, all, g) e =
      finish-IsSettledWith l.total_completed
        (mark_lmtp fl mf severity display trim h m (data_command bdat_cmd) l.asked responses)
        (omega (
          arith,
          c e,
          mark_lmtp-finals fl mf severity display trim h m (data_command bdat_cmd) l.asked responses
              all,
        ))
  on_lmtp-IsSettledWith bdat_cmd l (failed err) c e =
      unsettled _ (from_smtp_error-open severity display trim h.hostname [] err)
  on_lmtp-IsSettledWith bdat_cmd l timed_out c e =
      unsettled _ (timed_out-open h.hostname (codes "reading LMTP DATA responses"))

  on_sent-IsSettledWith :
      (bdat_cmd : Option Bytes) (l : Loop) (a : Answer (Unit {0}))
      → Counted l
      → l.aborted ≡ none
      → IsSettledWith (on_sent fl mf severity display trim h m bdat_cmd l a)
  unfolding on_sent
  on_sent-IsSettledWith bdat_cmd l (answered u) c e =
      either h.is_smtp _ _ (on_data-IsSettledWith bdat_cmd l h.data_answer c e)
        (on_lmtp-IsSettledWith bdat_cmd l h.lmtp_answers c e)
  on_sent-IsSettledWith bdat_cmd l (failed err) c e =
      unsettled _
        (from_smtp_error-open severity display trim h.hostname (data_command bdat_cmd) err)
  on_sent-IsSettledWith bdat_cmd l timed_out c e =
      unsettled _ (timed_out-open h.hostname (codes "sending message"))

  after_rcpts-IsSettledWith :
      (c : Capabilities) (l : Loop) (o : Option DomainStatus)
      → Counted l
      → l.aborted ≡ o
      → IsSettledWith (after_rcpts fl mf severity display trim h m c l o)
  unfolding after_rcpts
  after_rcpts-IsSettledWith c l (some status) (c', all, g) e = unsettled _ (g status e)
  after_rcpts-IsSettledWith c l none k e =
      either (accepted l.asked == 0) _ _
        (finish-IsSettledWith l.total_completed (recipients_of l.asked, 0) (omega (arith, k.0 e)))
        (either h.file_is_read _
          (recipients_of l.asked, temporary_failure (Error.io (codes "Queue system error.")))
          (on_sent-IsSettledWith (bdat_command fl mf severity display trim h m c) l
            (h.sending (bdat_command fl mf severity display trim h m c)) k e)
          (unsettled
            (recipients_of l.asked, temporary_failure (Error.io (codes "Queue system error.")))
            refl))

  on_mail-IsSettledWith :
      (c : Capabilities) (rs : List Recipient) (cmd : Bytes) (reply : Reply)
      → IsSettledWith (on_mail fl mf severity display trim h m c rs cmd reply)
  unfolding on_mail
  on_mail-IsSettledWith c rs cmd (broken err) =
      unsettled _ (from_smtp_error-open severity display trim h.hostname cmd err)
  on_mail-IsSettledWith c rs cmd (replied response) = by_reply (severity response)
    where
      by_reply :
          (s : Severity)
          → IsSettledWith (elim s [
            | positive_completion ↦
                let l = ask_rcpts fl mf severity display trim h m c 0 rs in
                after_rcpts fl mf severity display trim h m c l l.aborted
            | positive_intermediate ↦ (
              rs,
              from_smtp_error severity display trim h.hostname cmd (unexpected_reply response),
            )
            | transient_negative_completion ↦ (
              rs,
              from_smtp_error severity display trim h.hostname cmd (unexpected_reply response),
            )
            | permanent_negative_completion ↦ (
              rs,
              from_smtp_error severity display trim h.hostname cmd (unexpected_reply response),
            )
            | invalid ↦ (
              rs,
              from_smtp_error severity display trim h.hostname cmd (unexpected_reply response),
            )
          ])
      by_reply positive_completion =
          after_rcpts-IsSettledWith c _ _ (ask_rcpts-Counted fl mf severity display trim h m c 0 rs)
            refl
      by_reply positive_intermediate =
          unsettled _
            (from_smtp_error-open severity display trim h.hostname cmd (unexpected_reply response))
      by_reply transient_negative_completion =
          unsettled _
            (from_smtp_error-open severity display trim h.hostname cmd (unexpected_reply response))
      by_reply permanent_negative_completion =
          unsettled _
            (from_smtp_error-open severity display trim h.hostname cmd (unexpected_reply response))
      by_reply invalid =
          unsettled _
            (from_smtp_error-open severity display trim h.hostname cmd (unexpected_reply response))

  on_hello-IsSettledWith :
      (rs : List Recipient) (next : Capabilities → List Recipient × DomainStatus)
      (a : Answer Capabilities)
      → ((c : Capabilities) → IsSettledWith (next c))
      → IsSettledWith (on_hello fl mf severity display trim h m rs next a)
  unfolding on_hello
  on_hello-IsSettledWith rs next (answered c) g = g c
  on_hello-IsSettledWith rs next (failed err) g =
      unsettled _ (from_smtp_error-open severity display trim h.hostname _ err)
  on_hello-IsSettledWith rs next timed_out g =
      unsettled _ (timed_out-open h.hostname (codes "reading EHLO response"))

  authenticate-IsSettledWith :
      (rs : List Recipient) (c : Capabilities) (o : Option (Option ClientError))
      → IsSettledWith (authenticate fl mf severity display trim h m rs c o)
  unfolding authenticate
  authenticate-IsSettledWith rs c none = on_mail-IsSettledWith c rs _ _
  authenticate-IsSettledWith rs c (some (some err)) =
      unsettled _ (from_smtp_error-open severity display trim h.hostname _ err)
  authenticate-IsSettledWith rs c (some none) =
      on_hello-IsSettledWith rs _ h.hello_again (λ c. on_mail-IsSettledWith c rs _ _)

  -- Whatever the host answers, if a domain is given the status that its delivery is completed, the
  -- delivery to each of its recipients is over: the recipient has the message, or has failed for
  -- good.
  pub deliver-IsSettledWith :
      (rs : List Recipient) → IsSettledWith (deliver fl mf severity display trim h m rs)
  unfolding deliver
  deliver-IsSettledWith rs =
      on_hello-IsSettledWith rs _ h.hello (λ c. authenticate-IsSettledWith rs c h.authentication)
