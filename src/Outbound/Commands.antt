-- ===== src/Outbound/Commands.antt =====
-- src/outbound/session.rs: what a host answers, and the commands it is sent.
use smtp_server.Base.{
  ℕ, suc, Bool, ◌&&◌, ◌||◌, List, [], ◌∷◌, ◌++◌, Option, none, some, Bytes, if◌then◌else◌,
}
use smtp_server.Base.Decimal.{decimal}
use smtp_server.Base.Texts.{codes, line}
use smtp_server.Queue.Message.{Response, Recipient, Message, has_flag}
use smtp_server.Base.Flags.{Flags}
use smtp_server.Outbound.Errors.{ClientError, DomainStatus}

-- What becomes of a command: a reply or an error.
pub data Reply : Type 0 where
  replied : Response → Reply
  broken : ClientError → Reply

-- What becomes of a part of the dialogue with a timeout of its own.
pub data Answer (A : Type 0) : Type 0 where
  answered : A → Answer A
  failed : ClientError → Answer A
  timed_out : Answer A

-- Of the flags of MAIL, those that a host is told of.
pub record MailFlags : Type 0 where
  pub mail_smtputf8 : ℕ
  pub mail_ret_full : ℕ
  pub mail_ret_hdrs : ℕ

-- `EhloResponse`, as far as it is asked
pub record Capabilities : Type 0 where
  pub ext_size : Bool
  pub ext_require_tls : Bool
  pub ext_smtp_utf8 : Bool
  pub ext_dsn : Bool
  pub ext_chunking : Bool

-- `SessionParams`, and what the host answers in a session with them. The answer to MAIL is one of
-- `assert_positive_completion`. There are two greetings if there are credentials.
pub record Host : Type 0 where
  pub hostname : Bytes
  pub local_hostname : Bytes
  pub is_smtp : Bool
  pub hello : Answer Capabilities
  pub authentication : Option (Option ClientError)
  pub hello_again : Answer Capabilities
  pub mail_answer : Bytes → Reply
  pub rcpt_answer : ℕ → Bytes → Reply
  pub file_is_read : Bool
  pub sending : Option Bytes → Answer (Unit {0})
  pub data_answer : Answer Response
  pub lmtp_answers : Answer (List Response)

-- A recipient, with the answer to its RCPT command if it was accepted.
abbrev pub Asked : Type 0
Asked = Recipient × Option Response

-- The loop over the recipients, which an error ends.
pub record Loop : Type 0 where
  pub asked : List Asked
  pub total_completed : ℕ
  pub aborted : Option DomainStatus

-- `build_mail_from`
unfoldable pub build_mail_from : Flags → MailFlags → Message → Capabilities → Bytes
build_mail_from fl mf m c =
    codes "MAIL FROM:<"
    ++ (m.return_path
        ++ (codes ">"
            ++ ((if c.ext_size then codes " SIZE=" ++ decimal m.size else [])
                ++ ((if has_flag m.flags fl.mail_requiretls && c.ext_require_tls
                      then codes " REQUIRETLS"
                      else [])
                    ++ ((if has_flag m.flags mf.mail_smtputf8 && c.ext_smtp_utf8
                          then codes " SMTPUTF8"
                          else [])
                        ++ ((if c.ext_dsn
                              then (if has_flag m.flags mf.mail_ret_full
                                  then codes " RET=FULL"
                                  else if has_flag m.flags mf.mail_ret_hdrs
                                  then codes " RET=HDRS"
                                  else [])
                                ++ (elim m.env_id [
                                  | none ↦ []
                                  | some env_id ↦ codes " ENVID=" ++ env_id
                                ])
                              else [])
                            ++ line ""))))))

-- The conditions of NOTIFY, with commas between them.
abbrev listed : Bool → Bool → Bool → Bytes
listed success delay failure =
    (if success then codes "SUCCESS" else [])
    ++ ((if delay then (if success then codes ",DELAY" else codes "DELAY") else [])
        ++ (if failure
            then (if success || delay then codes ",FAILURE" else codes "FAILURE")
            else []))

-- `build_rcpt_to`
unfoldable pub build_rcpt_to : Flags → Recipient → Capabilities → Bytes
build_rcpt_to fl r c =
    let success = has_flag r.flags fl.rcpt_notify_success in
    let failure = has_flag r.flags fl.rcpt_notify_failure in
    let delay = has_flag r.flags fl.rcpt_notify_delay in
    codes "RCPT TO:<"
    ++ (r.address
        ++ (codes ">"
            ++ ((if c.ext_dsn
                  then (if success || (failure || delay)
                      then codes " NOTIFY=" ++ listed success delay failure
                      else if has_flag r.flags fl.rcpt_notify_never
                      then codes " NOTIFY=NEVER"
                      else [])
                  else [])
                ++ line "")))

abbrev pub recipients_of : List Asked → List Recipient
recipients_of [] = []
recipients_of ((r, o) ∷ asked) = r ∷ recipients_of asked

abbrev pub accepted : List Asked → ℕ
accepted [] = 0
accepted ((r, none) ∷ asked) = accepted asked
accepted ((r, some response) ∷ asked) = suc (accepted asked)

abbrev pub data_command : Option Bytes → Bytes
data_command none = codes "DATA"
data_command (some bdat_cmd) = bdat_cmd
