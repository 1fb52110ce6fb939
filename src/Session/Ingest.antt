-- ===== src/Session/Ingest.antt =====
-- src/inbound/session.rs: `ingest`, the state machine of a session, and src/inbound/spawn.rs, the
-- loop that feeds it.
--
-- The receivers that split the stream into requests, messages and lines are a package's. What they
-- make of the bytes that have come is an input: a request or an error, a part of a message, a line
-- of an exchange, or the end of what is skipped. Inputs that a state does not wait for are not met.
use smtp_server.Base.{
  ℕ, zero, suc, ◌+◌, ◌-◌, Bool, ◌&&◌, ◌||◌, not, [], ◌∷◌, ◌++◌, none, some, Bytes, ltb, length,
  ◌==◌, if◌then◌else◌, is_some, is_empty,
}
use smtp_server.Base.Texts.{codes, line}
use smtp_server.Core.Conditions.Mask.{bit_and}
use smtp_server.Queue.Message.{has_flag}
use smtp_server.Session.State.{reset_data}
use smtp_server.Session.Config.{SessionConfig, eval}
use smtp_server.Session.Conn.{
  World, M, when◌then◌else◌, on_option, ◌>>=◌, ◌>>◌, pure, disconnect, ask, change_data, write,
}
use smtp_server.Base.Flags.{Flags}
use smtp_server.Session.Parameters.{MailFrom}
use smtp_server.Session.Mail.{handle_mail_from}
use smtp_server.Session.Rcpt.{RcptTo, handle_rcpt_to}
use smtp_server.Session.Ehlo.{Mechanisms, EhloResponse, handle_ehlo}
use smtp_server.Session.Auth.{SaslToken, from_mechanism, handle_sasl_response, auth_error}
use smtp_server.Session.Vrfy.{handle_vrfy, handle_expn}
use smtp_server.Session.Build.{QueueTimes}
use smtp_server.Session.Received.{Authority, DataConfig, queue_message, can_send_data}

-- `Request`
pub data Request : Type 0 where
  rcpt : RcptTo → Request
  mail : MailFrom → Request
  ehlo helo lhlo : Bytes → Request
  send_data : Request
  bdat : ℕ → Bool → Request
  auth : ℕ → Bytes → Request
  noop start_tls rset quit help : Request
  vrfy expn : Bytes → Request
  etrn_atrn_burl : Request

-- `Error`
pub data RequestError : Type 0 where
  unknown_command invalid_sender_address invalid_recipient_address response_too_long : RequestError
  syntax_error invalid_parameter unsupported_parameter : Bytes → RequestError

-- `State`; a chunk has so many bytes to come.
pub data State : Type 0 where
  in_request in_data data_too_large request_too_large : State
  in_bdat : ℕ → Bool → State
  in_sasl : SaslToken → State

-- How `ingest` goes on: in a state, or with a handshake.
pub data Next : Type 0 where
  go : State → Next
  handshake : Next

-- Of a message: how many bytes have come, what they are without the marks of the protocol, and
-- whether it ends. Of an exchange: a line, or one that is too long.
pub data Input : Type 0 where
  requested : Request → Input
  rejected : RequestError → Input
  received : ℕ → Bytes → Bool → Input
  answered : Bytes → Input
  too_long : Input
  skipped : Input

abbrev in_quotes : Bytes → Bytes
in_quotes text = b'"' ∷ (text ++ (b'"' ∷ []))

-- A reply for each recipient where the protocol is LMTP.
unfoldable pub write_times : ℕ → Bytes → M (Unit {0})
unfolding write
write_times zero reply = pure tt
write_times (suc n) reply = do write reply; write_times n reply

module _ (fl : Flags) (mech : Mechanisms) (write_ehlo : EhloResponse → Bytes) (q : QueueTimes)
    (x : Authority) (k : SessionConfig) (dc : DataConfig) (w : World) where
  abbrev pub stay : M (Unit {0}) → M Next
  stay m = do m; pure (go in_request)

  -- A message has come as a whole.
  unfoldable pub finish_message : M (Unit {0})
  unfolding queue_message write_times write
  finish_message = do
    s ← ask (λ s. s)
    reply ← queue_message fl q x w k dc
    (when s.instance_data.is_smtp
        then write reply
        else write_times (length s.session_data.rcpt_to) reply)
    change_data reset_data

  unfoldable pub start_auth : ℕ → Bytes → M Next
  unfolding from_mechanism handle_sasl_response bit_and write
  start_auth mechanism initial = do
    s ← ask (λ s. s)
    let allowed = eval k.auth.mechanisms s
    when allowed == 0 || not (is_some s.params.auth_lookup)
        then stay (write (line "503 5.5.1 AUTH not allowed."))
        else when not (is_empty s.session_data.authenticated_as)
        then stay (write (line "503 5.5.1 Already authenticated."))
        else when (has_flag mechanism mech.auth_login || has_flag mechanism mech.auth_plain)
            && not s.is_tls
        then stay (write (line "503 5.5.1 Clear text authentication without TLS is forbidden."))
        else on_option (from_mechanism mech w k (bit_and 64 mechanism allowed))
            (stay (write (line "554 5.7.8 Authentication mechanism not supported.")))
            (λ token. do
              exchange ← handle_sasl_response mech w k token initial
              pure (go (elim exchange [ none ↦ in_request | some token' ↦ in_sasl token' ])))

  -- `State::Request` with a request
  unfoldable pub handle_request : Request → M Next
  unfolding handle_rcpt_to handle_mail_from handle_ehlo can_send_data start_auth handle_vrfy
      handle_expn write
  handle_request (rcpt to) = stay (handle_rcpt_to fl w k to)
  handle_request (mail from) = stay (handle_mail_from fl w k from)
  handle_request (ehlo host) = do
    s ← ask (λ s. s)
    stay (
        when s.instance_data.is_smtp
        then handle_ehlo mech write_ehlo w k host
        else write (line "500 5.5.1 Invalid command."))
  handle_request (helo host) = do
    s ← ask (λ s. s)
    stay (
        when s.instance_data.is_smtp && is_empty s.session_data.helo_domain
        then (do
          change_data (λ d. record d { helo_domain = host })
          write (codes "250 " ++ (s.instance_data.hostname ++ line " says hello")))
        else write (line "503 5.5.1 Invalid command."))
  handle_request (lhlo host) = do
    s ← ask (λ s. s)
    stay (
        when s.instance_data.is_smtp
        then write (line "502 5.5.1 Invalid command.")
        else handle_ehlo mech write_ehlo w k host)
  handle_request send_data = do
    allowed ← can_send_data k
    when allowed
        then (do
          write (line "354 Start mail input; end with <CRLF>.<CRLF>")
          change_data (λ d. record d { message = [] })
          pure (go in_data))
        else pure (go in_request)
  handle_request (bdat chunk_size is_last) = do
    s ← ask (λ s. s)
    pure (
        go (
          if ltb (chunk_size + length s.session_data.message) s.params.max_message_size
          then in_bdat chunk_size is_last
          else data_too_large))
  handle_request (auth mechanism initial) = start_auth mechanism initial
  handle_request noop = stay (write (line "250 2.0.0 OK"))
  handle_request (vrfy address) = stay (handle_vrfy w address)
  handle_request (expn address) = stay (handle_expn w address)
  handle_request start_tls = do
    s ← ask (λ s. s)
    when s.is_tls
        then stay (write (line "504 5.7.4 Already in TLS mode."))
        else (do write (line "220 2.0.0 Ready to start TLS."); pure handshake)
  handle_request rset = stay (do change_data reset_data; write (line "250 2.0.0 OK"))
  handle_request quit = do write (line "221 2.0.0 Bye."); disconnect
  handle_request help = stay (write (line "250 2.0.0 Help can be found at https://stalw.art/smtp/"))
  handle_request etrn_atrn_burl = stay (write (line "502 5.5.1 Command not implemented."))

  -- `State::Request` with an error
  unfoldable pub handle_error : RequestError → M Next
  unfolding write
  handle_error unknown_command = stay (write (line "500 5.5.1 Invalid command."))
  handle_error invalid_sender_address = stay (write (line "501 5.1.8 Bad sender's system address."))
  handle_error invalid_recipient_address =
      stay (write (line "501 5.1.3 Bad destination mailbox address syntax."))
  handle_error (syntax_error syntax) =
      stay (write (codes "501 5.5.2 Syntax error, expected: " ++ (syntax ++ line "")))
  handle_error (invalid_parameter p) =
      stay (write (codes "501 5.5.4 Invalid parameter " ++ (in_quotes p ++ line ".")))
  handle_error (unsupported_parameter p) =
      stay (write (codes "504 5.5.4 Unsupported parameter " ++ (in_quotes p ++ line ".")))
  handle_error response_too_long = pure (go request_too_large)

  abbrev pub append_message : Bytes → M (Unit {0})
  append_message text = change_data (λ d. record d { message = d.message ++ text })

  -- `State::Data`
  unfoldable pub handle_data : ℕ → Bytes → Bool → M Next
  unfolding finish_message
  handle_data size text ends = do
    s ← ask (λ s. s)
    when ltb (length s.session_data.message + size) s.params.max_message_size
        then (do append_message text; when ends then stay finish_message else pure (go in_data))
        else pure (go data_too_large)

  -- The end of a chunk.
  unfoldable pub finish_chunk : Bool → M (Unit {0})
  unfolding finish_message can_send_data write
  finish_chunk is_last = do
    allowed ← can_send_data k
    when allowed
        then (when is_last then finish_message else write (line "250 2.6.0 Chunk accepted."))
        else change_data (λ d. record d { message = [] })

  -- `State::Bdat`
  unfoldable pub handle_chunk : ℕ → Bool → Bytes → Bool → M Next
  unfolding finish_chunk
  handle_chunk chunk_size is_last text ends = do
    append_message text
    when ends
        then stay (finish_chunk is_last)
        else pure (go (in_bdat (chunk_size - length text) is_last))

  -- `State::Sasl`
  unfoldable pub handle_answer : SaslToken → Bytes → M Next
  unfolding handle_sasl_response
  handle_answer token text = do
    exchange ← handle_sasl_response mech w k token text
    pure (go (elim exchange [ none ↦ in_request | some token' ↦ in_sasl token' ]))

  -- One round of `ingest`.
  unfoldable pub ingest : State → Input → M Next
  unfolding handle_request handle_error handle_data handle_chunk handle_answer auth_error write
  ingest in_request (requested request) = handle_request request
  ingest in_request (rejected error) = handle_error error
  ingest in_data (received size text ends) = handle_data size text ends
  ingest (in_bdat chunk_size is_last) (received size text ends) =
      handle_chunk chunk_size is_last text ends
  ingest (in_sasl token) (answered text) = handle_answer token text
  ingest (in_sasl token) too_long = do
    _ ← auth_error (line "500 5.5.6 Authentication Exchange line is too long.")
    pure (go in_request)
  ingest data_too_large skipped = do
    change_data (λ d. record d { message = [] })
    stay (write (line "552 5.3.4 Message too big for system."))
  ingest request_too_large skipped = stay (write (line "554 5.3.4 Line is too long."))
  ingest state input = pure (go state)
