-- ===== src/Session/Changes/Inputs.antt =====
-- Every input changes a session by the steps.
use smtp_server.Base.{ℕ, zero, suc, refl, Bool, Bytes}
use smtp_server.Session.Conn.{World, M, write}
use smtp_server.Session.Conn.Keeps.{
  Keeps, Steps-ask, Steps-if, Steps-option, Keeps-bind, Keeps-then, Keeps-pure, Keeps-disconnect,
  Keeps-write, at,
}
use smtp_server.Session.Changes.{Reach}
use smtp_server.Session.Changes.Asides.{by_aside, Keeps-reset}
use smtp_server.Session.State.{Session}
use smtp_server.Session.Config.{SessionConfig}
use smtp_server.Base.Flags.{Flags}
use smtp_server.Session.Changes.Senders.{Keeps-handle_mail_from}
use smtp_server.Session.Changes.Recipients.{Keeps-handle_rcpt_to}
use smtp_server.Session.Changes.Greetings.{Keeps-handle_ehlo}
use smtp_server.Session.Changes.Logins.{Keeps-auth_error, Keeps-handle_sasl_response}
use smtp_server.Session.Changes.Messages.{Keeps-queue_message, Keeps-can_send_data}
use smtp_server.Session.Ehlo.{Mechanisms, EhloResponse}
use smtp_server.Session.Auth.{SaslToken}
use smtp_server.Session.Vrfy.{handle_vrfy, handle_expn}
use smtp_server.Session.Build.{QueueTimes}
use smtp_server.Session.Received.{Authority, DataConfig}
use smtp_server.Session.Ingest.{
  Request, rcpt, mail, ehlo, helo, lhlo, send_data, bdat, auth, noop, start_tls, rset, quit, help,
  vrfy, expn, etrn_atrn_burl, RequestError, unknown_command, invalid_sender_address,
  invalid_recipient_address, response_too_long, syntax_error, invalid_parameter,
  unsupported_parameter, State, in_request, in_data, data_too_large, request_too_large, in_bdat,
  in_sasl, Input, requested, rejected, received, answered, too_long, skipped, write_times, stay,
  finish_message, start_auth, handle_request, handle_error, handle_data, finish_chunk, handle_chunk,
  handle_answer, ingest,
}

module _ (s0 : Session) where
  Keeps-write_times : (n : ℕ) (reply : Bytes) → Keeps (Reach s0) (write_times n reply)
  unfolding write_times
  Keeps-write_times zero reply = Keeps-pure tt
  Keeps-write_times (suc n) reply = Keeps-then (Keeps-write reply) (Keeps-write_times n reply)

  Keeps-handle_vrfy : (w : World) (address : Bytes) → Keeps (Reach s0) (handle_vrfy w address)
  unfolding handle_vrfy
  Keeps-handle_vrfy w address = Steps-ask _ _ (λ s r. at r (Keeps-write _))

  Keeps-handle_expn : (w : World) (address : Bytes) → Keeps (Reach s0) (handle_expn w address)
  unfolding handle_expn
  Keeps-handle_expn w address = Steps-ask _ _ (λ s r. at r (Keeps-write _))

module _ (s0 : Session) (fl : Flags) (mech : Mechanisms) (write_ehlo : EhloResponse → Bytes)
    (q : QueueTimes) (x : Authority) (k : SessionConfig) (dc : DataConfig) (w : World) where
  Keeps-stay :
      {m : M (Unit {0})}
      → Keeps (Reach s0) m
      → Keeps (Reach s0) (stay fl mech write_ehlo q x k dc w m)
  Keeps-stay h = Keeps-then h (Keeps-pure _)

  Keeps-reply :
      (reply : Bytes) → Keeps (Reach s0) (stay fl mech write_ehlo q x k dc w (write reply))
  Keeps-reply reply = Keeps-stay (Keeps-write reply)

  Keeps-finish_message : Keeps (Reach s0) (finish_message fl mech write_ehlo q x k dc w)
  unfolding finish_message
  Keeps-finish_message = Steps-ask _ _ (λ s r. at r (
      Keeps-bind (Keeps-queue_message s0 fl q x w k dc) (λ reply.
        Keeps-then (Steps-if _ (λ e. Keeps-write _) (λ e. Keeps-write_times s0 _ _))
          (Keeps-reset s0))))

  Keeps-start_auth :
      (mechanism : ℕ) (initial : Bytes)
      → Keeps (Reach s0) (start_auth fl mech write_ehlo q x k dc w mechanism initial)
  unfolding start_auth
  Keeps-start_auth mechanism initial = Steps-ask _ _ (λ s r. at r (
      Steps-if _ (λ e. Keeps-reply _)
        (λ e.
          Steps-if _ (λ e. Keeps-reply _)
            (λ e.
              Steps-if _ (λ e. Keeps-reply _)
                (λ e.
                  Steps-option _ (λ e. Keeps-reply _)
                    (λ token e.
                      Keeps-bind (Keeps-handle_sasl_response s0 mech w k token initial)
                        (λ exchange. Keeps-pure _)))))))

  Keeps-handle_request :
      (r : Request) → Keeps (Reach s0) (handle_request fl mech write_ehlo q x k dc w r)
  unfolding handle_request
  Keeps-handle_request (rcpt to) = Keeps-stay (Keeps-handle_rcpt_to s0 fl w k to)
  Keeps-handle_request (mail from) = Keeps-stay (Keeps-handle_mail_from s0 fl w k from)
  Keeps-handle_request (ehlo host) = Steps-ask _ _ (λ s r. at r (
      Keeps-stay
        (Steps-if _ (λ e. Keeps-handle_ehlo s0 mech write_ehlo w k host) (λ e. Keeps-write _))))
  Keeps-handle_request (helo host) = Steps-ask _ _ (λ s r. at r (
      Keeps-stay (
        Steps-if _ (λ e. Keeps-then (by_aside s0 _ (λ d. (refl, refl, refl, refl))) (Keeps-write _))
          (λ e. Keeps-write _))))
  Keeps-handle_request (lhlo host) = Steps-ask _ _ (λ s r. at r (
      Keeps-stay
        (Steps-if _ (λ e. Keeps-write _) (λ e. Keeps-handle_ehlo s0 mech write_ehlo w k host))))
  Keeps-handle_request send_data = Keeps-bind (Keeps-can_send_data s0 k) (λ allowed.
      Steps-if allowed
        (λ e.
          Keeps-then (Keeps-write _)
            (Keeps-then (by_aside s0 _ (λ d. (refl, refl, refl, refl))) (Keeps-pure _)))
        (λ e. Keeps-pure _))
  Keeps-handle_request (bdat chunk_size is_last) = Steps-ask _ _ (λ s r. at r (Keeps-pure _))
  Keeps-handle_request (auth mechanism initial) = Keeps-start_auth mechanism initial
  Keeps-handle_request noop = Keeps-reply _
  Keeps-handle_request (vrfy address) = Keeps-stay (Keeps-handle_vrfy s0 w address)
  Keeps-handle_request (expn address) = Keeps-stay (Keeps-handle_expn s0 w address)
  Keeps-handle_request start_tls = Steps-ask _ _ (λ s r.
      at r (Steps-if _ (λ e. Keeps-reply _) (λ e. Keeps-then (Keeps-write _) (Keeps-pure _))))
  Keeps-handle_request rset = Keeps-stay (Keeps-then (Keeps-reset s0) (Keeps-write _))
  Keeps-handle_request quit = Keeps-then (Keeps-write _) Keeps-disconnect
  Keeps-handle_request help = Keeps-reply _
  Keeps-handle_request etrn_atrn_burl = Keeps-reply _

  Keeps-handle_error :
      (e : RequestError) → Keeps (Reach s0) (handle_error fl mech write_ehlo q x k dc w e)
  unfolding handle_error
  Keeps-handle_error unknown_command = Keeps-reply _
  Keeps-handle_error invalid_sender_address = Keeps-reply _
  Keeps-handle_error invalid_recipient_address = Keeps-reply _
  Keeps-handle_error response_too_long = Keeps-pure _
  Keeps-handle_error (syntax_error syntax) = Keeps-reply _
  Keeps-handle_error (invalid_parameter p) = Keeps-reply _
  Keeps-handle_error (unsupported_parameter p) = Keeps-reply _

  Keeps-handle_data :
      (size : ℕ) (text : Bytes) (ends : Bool)
      → Keeps (Reach s0) (handle_data fl mech write_ehlo q x k dc w size text ends)
  unfolding handle_data
  Keeps-handle_data size text ends = Steps-ask _ _ (λ s r. at r (
      Steps-if _
        (λ e.
          Keeps-then (by_aside s0 _ (λ d. (refl, refl, refl, refl)))
            (Steps-if ends (λ e. Keeps-stay Keeps-finish_message) (λ e. Keeps-pure _)))
        (λ e. Keeps-pure _)))

  Keeps-finish_chunk :
      (is_last : Bool) → Keeps (Reach s0) (finish_chunk fl mech write_ehlo q x k dc w is_last)
  unfolding finish_chunk
  Keeps-finish_chunk is_last = Keeps-bind (Keeps-can_send_data s0 k) (λ allowed.
      Steps-if allowed (λ e. Steps-if is_last (λ e. Keeps-finish_message) (λ e. Keeps-write _))
        (λ e. by_aside s0 _ (λ d. (refl, refl, refl, refl))))

  Keeps-handle_chunk :
      (chunk_size : ℕ) (is_last : Bool) (text : Bytes) (ends : Bool)
      → Keeps (Reach s0) (handle_chunk fl mech write_ehlo q x k dc w chunk_size is_last text ends)
  unfolding handle_chunk
  Keeps-handle_chunk chunk_size is_last text ends =
      Keeps-then (by_aside s0 _ (λ d. (refl, refl, refl, refl)))
        (Steps-if ends (λ e. Keeps-stay (Keeps-finish_chunk is_last)) (λ e. Keeps-pure _))

  Keeps-handle_answer :
      (token : SaslToken) (text : Bytes)
      → Keeps (Reach s0) (handle_answer fl mech write_ehlo q x k dc w token text)
  unfolding handle_answer
  Keeps-handle_answer token text =
      Keeps-bind (Keeps-handle_sasl_response s0 mech w k token text) (λ exchange. Keeps-pure _)

  pub Keeps-ingest :
      (state : State) (input : Input)
      → Keeps (Reach s0) (ingest fl mech write_ehlo q x k dc w state input)
  unfolding ingest
  Keeps-ingest in_request (requested request) = Keeps-handle_request request
  Keeps-ingest in_request (rejected error) = Keeps-handle_error error
  Keeps-ingest in_data (received size text ends) = Keeps-handle_data size text ends
  Keeps-ingest (in_bdat chunk_size is_last) (received size text ends) =
      Keeps-handle_chunk chunk_size is_last text ends
  Keeps-ingest (in_sasl token) (answered text) = Keeps-handle_answer token text
  Keeps-ingest (in_sasl token) too_long =
      Keeps-bind (Keeps-auth_error s0 mech w k _) (λ o. Keeps-pure _)
  Keeps-ingest data_too_large skipped =
      Keeps-then (by_aside s0 _ (λ d. (refl, refl, refl, refl))) (Keeps-reply _)
  Keeps-ingest request_too_large skipped = Keeps-reply _
  Keeps-ingest state input = Keeps-pure _
