-- ===== src/Session/Changes/Messages.antt =====
-- A message that is received changes a session by the steps.
use smtp_server.Base.Texts.{line}
use smtp_server.Base.{refl, true, false, List, [], ◌∷◌, Bytes, ltb, if◌then◌else◌}
use smtp_server.Session.Conn.{World, ◌>>◌, when◌then◌else◌, pure, write}
use smtp_server.Session.Conn.Keeps.{
  Keeps, Steps-ask, Steps-change_data, Steps-if, Steps-option, Keeps-bind, Keeps-then, Keeps-pure,
  Keeps-panic, Keeps-write, at,
}
use smtp_server.Session.Changes.{no_recipients, Reach, next}
use smtp_server.Session.Changes.Asides.{by_aside, Keeps-is_domain_dnsbl_allowed}
use smtp_server.Session.State.{Session, SessionAddress}
use smtp_server.Session.Config.{SessionConfig, eval}
use smtp_server.Base.Flags.{Flags}
use smtp_server.Session.Build.{QueueTimes}
use smtp_server.Session.Received.{
  Authority, DataConfig, Parsed, Enqueued, queued, failed, over_quota, ScriptResult, accept,
  discard, replace, reject, count_sent, enqueue_message, filter_message, authenticated_message,
  check_signatures, check_received, queue_message, can_send_data,
}

module _ (s0 : Session) (fl : Flags) (q : QueueTimes) (x : Authority) (w : World)
    (k : SessionConfig) (dc : DataConfig) where
  Keeps-count_sent : Keeps (Reach s0) (count_sent fl q x w k dc)
  Keeps-count_sent = by_aside s0 _ (λ d. (refl, refl, refl, refl))

  answered_queue :
      (a : Enqueued)
      → Keeps (Reach s0) (elim a [
        | queued ↦ count_sent fl q x w k dc >> pure (line "250 2.0.0 Message queued for delivery.")
        | failed ↦ pure (line "451 4.3.5 Unable to accept message at this time.")
        | over_quota ↦ pure (line "452 4.3.1 Mail system full, try again later.")
      ])
  answered_queue queued = Keeps-then Keeps-count_sent (Keeps-pure _)
  answered_queue failed = Keeps-pure _
  answered_queue over_quota = Keeps-pure _

  Keeps-enqueue_message :
      (from : SessionAddress) (raw : Bytes)
      → Keeps (Reach s0) (enqueue_message fl q x w k dc from raw)
  unfolding enqueue_message
  Keeps-enqueue_message from raw = Steps-ask _ _ (λ s r.
      at r (Keeps-then (Steps-change_data _ (λ s r. next r (no_recipients s))) (answered_queue _)))

  by_script :
      (from : SessionAddress) (edited : Bytes) (r : ScriptResult)
      → Keeps (Reach s0) (elim r [
        | accept ↦ enqueue_message fl q x w k dc from edited
        | replace message ↦ enqueue_message fl q x w k dc from message
        | reject message ↦ pure message
        | discard ↦ pure (line "250 2.0.0 Message queued for delivery.")
      ])
  by_script from edited accept = Keeps-enqueue_message from edited
  by_script from edited (replace message) = Keeps-enqueue_message from message
  by_script from edited (reject message) = Keeps-pure message
  by_script from edited discard = Keeps-pure _

  Keeps-filter_message :
      (from : SessionAddress) (raw : Bytes)
      → Keeps (Reach s0) (filter_message fl q x w k dc from raw)
  unfolding filter_message
  Keeps-filter_message from raw = Steps-ask _ _ (λ s r.
      at r (Steps-option _ (λ e. Keeps-enqueue_message from _) (λ script e. by_script from _ _)))

  Keeps-authenticated_message :
      (from : SessionAddress) (raw : Bytes)
      → Keeps (Reach s0) (authenticated_message fl q x w k dc from raw)
  unfolding authenticated_message
  Keeps-authenticated_message from raw = Steps-ask _ _ (λ s r. at r (
      Steps-option _
        (λ e.
          Steps-if _ (λ e. Keeps-then Keeps-count_sent (Keeps-pure _))
            (λ e. Keeps-filter_message from raw))
        (λ reply e. Keeps-pure reply)))

  Keeps-check_signatures : (raw : Bytes) → Keeps (Reach s0) (check_signatures fl q x w k dc raw)
  unfolding check_signatures
  Keeps-check_signatures raw = Steps-ask _ _ (λ s r. at r (
      Steps-option _
        (λ e. Steps-option _ (λ e. Keeps-panic) (λ from e. Keeps-authenticated_message from raw))
        (λ reply e. Keeps-pure reply)))

  Keeps-check_received :
      (raw : Bytes) (parsed : Parsed) → Keeps (Reach s0) (check_received fl q x w k dc raw parsed)
  unfolding check_received
  Keeps-check_received raw parsed =
      Keeps-bind (Steps-if _ (λ e. Keeps-pure true) (λ e. Keeps-is_domain_dnsbl_allowed s0 w _ _))
        (λ allowed. Steps-ask _ _ (λ s r. at r (
          Steps-if _
            (λ e.
              Keeps-then (by_aside s0 _ (λ d. (refl, refl, refl, refl)))
                (Steps-option _ (λ e. Keeps-panic) (λ error e. Keeps-pure error)))
            (λ e. Steps-if _ (λ e. Keeps-pure _) (λ e. Keeps-check_signatures raw)))))

  pub Keeps-queue_message : Keeps (Reach s0) (queue_message fl q x w k dc)
  unfolding queue_message
  Keeps-queue_message = Steps-ask _ _ (λ s r. at r (
      Keeps-then (by_aside s0 _ (λ d. (refl, refl, refl, refl)))
        (Steps-option _ (λ e. Keeps-pure _) (λ parsed e. Keeps-check_received _ parsed))))

pub Keeps-can_send_data : (s0 : Session) (k : SessionConfig) → Keeps (Reach s0) (can_send_data k)
unfolding can_send_data
Keeps-can_send_data s0 k = Steps-ask _ _ (λ s r. at r (by_recipients s s.session_data.rcpt_to))
  where
    by_recipients :
        (s : Session) (rs : List SessionAddress)
        → Keeps (Reach s0) (elim rs [
          | [] ↦ write (line "503 5.5.1 RCPT is required first.") >> pure false
          | a ∷ rest ↦
              when ltb s.session_data.messages_sent (eval k.max_messages s)
              then pure true
              else (write (line "451 4.4.5 Maximum number of messages per session exceeded.")
                  >> pure false)
        ])
    by_recipients s [] = Keeps-then (Keeps-write _) (Keeps-pure false)
    by_recipients s (a ∷ rest) =
        Steps-if _ (λ e. Keeps-pure true) (λ e. Keeps-then (Keeps-write _) (Keeps-pure false))
