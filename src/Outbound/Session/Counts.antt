-- ===== src/Outbound/Session/Counts.antt =====
-- The count of the recipients whose delivery is over, through the dialogue.
use mathlib.Core.Option.{some-injective}
use smtp_server.Base.{
  ℕ, suc, ◌+◌, ◌≤◌, ◌≡◌, refl, sym, ap, ◌∙◌, Bool, true, false, List, [], ◌∷◌, map, none, some,
  Bytes, length, All, if◌then◌else◌, arith, is_some,
}
use smtp_server.Queue.Message.{
  scheduled, completed, temporary_failure, permanent_failure, Response, Recipient, Message,
  is_final,
}
use smtp_server.Base.Flags.{Flags}
use smtp_server.Outbound.Errors.{
  ClientError, io, tls, base64, auth, authentication_failed, unexpected_reply, unparseable_reply,
  missing_credentials, missing_mail_from, missing_rcpt_to, timeout, unsupported_auth_mechanism,
  invalid_tls_name, missing_start_tls, by_severity, Severity, positive_completion,
  positive_intermediate, transient_negative_completion, permanent_negative_completion, invalid,
  DomainStatus, from_smtp_error, timed_out_status,
}
use smtp_server.Outbound.Commands.{
  Reply, replied, broken, MailFlags, Capabilities, Host, Asked, Loop, recipients_of,
}
use smtp_server.Outbound.Session.{
  by_answer, on_rcpt, ask_rcpts, mark_delivered, lmtp_mark, mark_lmtp, finish,
}

-- The delivery to a recipient is over.
abbrev pub IsSettled : Recipient → Type 0
IsSettled r = is_final r.status ≡ true

-- If the status of the domain is that its delivery is completed, the delivery to each recipient is
-- over.
abbrev pub IsSettledWith : List Recipient × DomainStatus → Type 0
IsSettledWith x = x.1 ≡ completed tt → All IsSettled x.0

abbrev one_if : Bool → ℕ
one_if true = 1
one_if false = 0

abbrev pub finals : List Recipient → ℕ
finals [] = 0
finals (r ∷ rs) = one_if (is_final r.status) + finals rs

finals-le : (rs : List Recipient) → finals rs ≤ length rs
finals-le [] = omega arith
finals-le (r ∷ rs) = ground (arith, finals-le rs)

finals-IsSettled : (rs : List Recipient) → finals rs ≡ length rs → All IsSettled rs
finals-IsSettled [] e = tt
finals-IsSettled (r ∷ rs) e =
    (ground (arith, finals-le rs, e), finals-IsSettled rs (ground (arith, finals-le rs, e)))

-- A recipient that was accepted has no final status yet.
abbrev IsOpen : Asked → Type 0
IsOpen (r, o) = is_some o ≡ true → is_final r.status ≡ false

abbrev pub is_completed : DomainStatus → Bool
is_completed (completed u) = true
is_completed scheduled = false
is_completed (temporary_failure e) = false
is_completed (permanent_failure e) = false

abbrev pub Counted : Loop → Type 0
Counted l =
    (l.aborted ≡ none → l.total_completed ≡ finals (recipients_of l.asked))
    × All IsOpen l.asked
    × ((status : DomainStatus) → l.aborted ≡ some status → is_completed status ≡ false)

pub unsettled : (x : List Recipient × DomainStatus) → is_completed x.1 ≡ false → IsSettledWith x
unsettled x h e = absurd (cc (sym h ∙ ap is_completed e))

pub finish-IsSettledWith :
    (n : ℕ) (x : List Recipient × ℕ) → n + x.1 ≡ finals x.0 → IsSettledWith (finish n x)
unfolding finish
finish-IsSettledWith n x h e = finals-IsSettled x.0 (ground (arith, h, e))

module _ (severity : Response → Severity) (display : ClientError → Bytes)
    (trim : Bytes → Bytes) where
  by_severity-open :
      (hostname details : Bytes) (r : Response)
      → is_completed (by_severity severity display trim hostname details r) ≡ false
  by_severity-open hostname details r = ground arith

  pub from_smtp_error-open :
      (hostname command : Bytes) (err : ClientError)
      → is_completed (from_smtp_error severity display trim hostname command err) ≡ false
  unfolding from_smtp_error
  from_smtp_error-open hostname command (io e) = refl
  from_smtp_error-open hostname command (tls e) = refl
  from_smtp_error-open hostname command (base64 e) = refl
  from_smtp_error-open hostname command (auth e) = refl
  from_smtp_error-open hostname command (authentication_failed r) = refl
  from_smtp_error-open hostname command (unexpected_reply r) =
      by_severity-open hostname (trim command) r
  from_smtp_error-open hostname command unparseable_reply = refl
  from_smtp_error-open hostname command missing_credentials = refl
  from_smtp_error-open hostname command missing_mail_from = refl
  from_smtp_error-open hostname command missing_rcpt_to = refl
  from_smtp_error-open hostname command timeout = refl
  from_smtp_error-open hostname command unsupported_auth_mechanism = refl
  from_smtp_error-open hostname command invalid_tls_name = refl
  from_smtp_error-open hostname command missing_start_tls = refl

pub timed_out-open :
    (hostname stage : Bytes) → is_completed (timed_out_status hostname stage) ≡ false
unfolding timed_out_status
timed_out-open hostname stage = refl

module _ (fl : Flags) (mf : MailFlags) (severity : Response → Severity)
    (display : ClientError → Bytes) (trim : Bytes → Bytes) (h : Host) (m : Message) where
  by_answer-Counted :
      (cmd : Bytes) (r : Recipient) (response : Response) (s : Severity) (rest : Loop)
      → is_final r.status ≡ false
      → Counted rest
      → Counted (by_answer fl mf severity display trim h m cmd r response s rest)
  unfolding by_answer
  by_answer-Counted cmd r response positive_completion rest o (c, all, g') =
      (λ e. omega (arith, c e, ap one_if o), ((λ s. o), all), g')
  by_answer-Counted cmd r response permanent_negative_completion rest o (c, all, g') =
      (λ e. omega (arith, c e), ((λ s. absurd (cc s)), all), g')
  by_answer-Counted cmd r response positive_intermediate rest o (c, all, g') =
      (λ e. omega (arith, c e), ((λ s. absurd (cc s)), all), g')
  by_answer-Counted cmd r response transient_negative_completion rest o (c, all, g') =
      (λ e. omega (arith, c e), ((λ s. absurd (cc s)), all), g')
  by_answer-Counted cmd r response invalid rest o (c, all, g') =
      (λ e. omega (arith, c e), ((λ s. absurd (cc s)), all), g')

  untouched-IsOpen : (rs : List Recipient) → All IsOpen (map (λ r. (r, none)) rs)
  untouched-IsOpen [] = tt
  untouched-IsOpen (r ∷ rs) = ((λ s. absurd (cc s)), untouched-IsOpen rs)

  on_rcpt-Counted :
      (cmd : Bytes) (r : Recipient) (rs : List Recipient) (reply : Reply) (rest : Loop)
      → is_final r.status ≡ false
      → Counted rest
      → Counted (on_rcpt fl mf severity display trim h m cmd r rs reply rest)
  unfolding on_rcpt
  on_rcpt-Counted cmd r rs (replied response) rest o c =
      by_answer-Counted cmd r response (severity response) rest o c
  on_rcpt-Counted cmd r rs (broken err) rest o c = (
    λ e. absurd (cc e),
    untouched-IsOpen (r ∷ rs),
    λ status e.
        ap is_completed (sym (some-injective _ status e))
        ∙ from_smtp_error-open severity display trim h.hostname [] err,
  )

  final_or_asked :
      (b : Bool) (r : Recipient) (rest l : Loop)
      → is_final r.status ≡ b
      → Counted rest
      → (is_final r.status ≡ false → Counted l)
      → Counted (
          if b
          then record rest {
            asked = (r, none) ∷ rest.asked;
            total_completed = suc rest.total_completed;
          }
          else l)
  final_or_asked true r rest l o (c, all, g') g =
      (λ e. omega (arith, c e, ap one_if o), ((λ s. absurd (cc s)), all), g')
  final_or_asked false r rest l o (c, all, g') g = g o

  pub ask_rcpts-Counted :
      (c : Capabilities) (position : ℕ) (rs : List Recipient)
      → Counted (ask_rcpts fl mf severity display trim h m c position rs)
  unfolding ask_rcpts
  ask_rcpts-Counted c position [] = (λ e. refl, tt, λ status e. absurd (cc e))
  ask_rcpts-Counted c position (r ∷ rs) =
      final_or_asked (is_final r.status) r _ _ refl (ask_rcpts-Counted c (suc position) rs)
        (λ o. on_rcpt-Counted _ r rs _ _ o (ask_rcpts-Counted c (suc position) rs))

  pub mark_delivered-finals :
      (asked : List Asked)
      → All IsOpen asked
      → let x = mark_delivered fl mf severity display trim h m asked in
        finals (recipients_of asked) + x.1 ≡ finals x.0
  unfolding mark_delivered
  mark_delivered-finals [] all = omega arith
  mark_delivered-finals ((r, none) ∷ asked) (o, all) =
      omega (arith, mark_delivered-finals asked all)
  mark_delivered-finals ((r, some response) ∷ asked) (o, all) =
      omega (arith, mark_delivered-finals asked all, ap one_if (o refl))

  lmtp_mark-finals :
      (command : Bytes) (r : Recipient) (response : Response) (s : Severity)
      → let x = lmtp_mark fl mf severity display trim h m command r response s in
        one_if (is_final x.0.status) ≡ x.1
  lmtp_mark-finals command r response positive_completion = refl
  lmtp_mark-finals command r response permanent_negative_completion = refl
  lmtp_mark-finals command r response positive_intermediate = refl
  lmtp_mark-finals command r response transient_negative_completion = refl
  lmtp_mark-finals command r response invalid = refl

  pub mark_lmtp-finals :
      (command : Bytes) (asked : List Asked) (responses : List Response)
      → All IsOpen asked
      → let x = mark_lmtp fl mf severity display trim h m command asked responses in
        finals (recipients_of asked) + x.1 ≡ finals x.0
  unfolding mark_lmtp
  mark_lmtp-finals command [] responses all = omega arith
  mark_lmtp-finals command ((r, none) ∷ asked) responses (o, all) =
      omega (arith, mark_lmtp-finals command asked responses all)
  mark_lmtp-finals command ((r, some a) ∷ asked) [] (o, all) =
      omega (arith, mark_lmtp-finals command asked [] all)
  mark_lmtp-finals command ((r, some a) ∷ asked) (response ∷ responses) (o, all) = omega (
    arith,
    mark_lmtp-finals command asked responses all,
    ap one_if (o refl),
    lmtp_mark-finals command r response (severity response),
  )
