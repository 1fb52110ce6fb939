-- ===== src/Session/Received.antt =====
-- src/inbound/data.rs: `queue_message`, what becomes of a message that is received, and
-- `can_send_data`.
--
-- The packages of mail authentication, the programs that a message is piped through, the scripts
-- and the writers of headers are arguments, and so is the answer of the queue, whose quotas
-- `Queue.Quota` models. Reports to other domains are left out.
use smtp_server.Base.{
  ℕ, ◌+◌, Bool, true, false, ◌&&◌, ◌||◌, not, List, [], ◌∷◌, Option, none, some, Bytes, length, ltb,
  any, if◌then◌else◌, is_empty,
}
use smtp_server.Base.Texts.{line}
use smtp_server.Core.Conditions.Eval.{IfBlock, StringMatch, string_matches}
use smtp_server.Queue.Message.{Message, domain_part}
use smtp_server.Session.Params.{VerifyStrategy, verifies, is_strict}
use smtp_server.Session.State.{Session, SessionAddress, Verdict, pass, temp_error, other}
use smtp_server.Session.Config.{SessionConfig, eval}
use smtp_server.Session.Conn.{
  World, M, when◌then◌else◌, on_option, ◌>>=◌, ◌>>◌, pure, panic, ask, change_data, write,
}
use smtp_server.Session.Dnsbl.{is_domain_dnsbl_allowed, reset_dnsbl_error}
use smtp_server.Base.Flags.{Flags}
use smtp_server.Session.Build.{QueueTimes, build_message}

abbrev pub dnsbl_from : ℕ
dnsbl_from = 16

pub record Parsed : Type 0 where
  pub from_address : Bytes
  pub received_headers : ℕ

-- `ArcOutput::result`: `DkimResult` with no result at all.
pub data ArcVerdict : Type 0 where
  no_seal : ArcVerdict
  sealed : Verdict → ArcVerdict

pub record DmarcOutput : Type 0 where
  pub policy_reject : Bool
  pub spf_result : Verdict
  pub dkim_result : Verdict

-- `ScriptResult`
pub data ScriptResult : Type 0 where
  accept discard : ScriptResult
  replace reject : Bytes → ScriptResult

pub data Enqueued : Type 0 where
  queued failed over_quota : Enqueued

-- What is asked of packages about a message, and of the queue.
pub record Authority : Type 0 where
  pub parse : Bytes → Option Parsed
  pub verify_dkim : Bytes → List Verdict
  pub verify_arc : Bytes → ArcVerdict
  pub verify_dmarc : Bytes → List Verdict → Bytes → Verdict → DmarcOutput
  pub pipe : ℕ → Session → Bytes → Option Bytes
  pub run_data_script : ℕ → Session → Bytes → ScriptResult
  pub headers : Session → Message → Bytes → Bytes
  pub queue_id : ℕ
  pub enqueue : Message → Bytes → Bytes → Enqueued

-- Of the configuration, what is about a message that is received; a pipe is known by its number.
pub record DataConfig : Type 0 where
  pub max_received_headers : IfBlock ℕ
  pub dkim_verify : IfBlock VerifyStrategy
  pub arc_verify : IfBlock VerifyStrategy
  pub dmarc_verify : IfBlock VerifyStrategy
  pub arc_seals : IfBlock Bool
  pub pipe_commands : List ℕ
  pub data_script : IfBlock (Option ℕ)
  pub analysis_addresses : List StringMatch
  pub analysis_forward : Bool

abbrev pub is_pass : Verdict → Bool
is_pass pass = true
is_pass temp_error = false
is_pass (other t) = false

abbrev pub is_temp_error : Verdict → Bool
is_temp_error temp_error = true
is_temp_error pass = false
is_temp_error (other t) = false

-- `is_report`
unfoldable pub is_report : List StringMatch → List SessionAddress → Bool
unfolding string_matches
is_report matches rcpts =
    any (λ m. any (λ (a : SessionAddress). string_matches m a.address_lcase) rcpts) matches

-- Each program that answers with another text changes the message for those after it.
unfoldable pub pipe_message : (ℕ → Bytes → Option Bytes) → List ℕ → Bytes → Bytes
pipe_message run [] message = message
pipe_message run (p ∷ ps) message =
    pipe_message run ps (elim (run p message) [ none ↦ message | some edited ↦ edited ])

module _ (fl : Flags) (q : QueueTimes) (x : Authority) (w : World) (k : SessionConfig)
    (dc : DataConfig) where
  unfoldable pub dkim_results : Session → Bytes → List Verdict
  unfolding verifies
  dkim_results s raw =
      if verifies (eval dc.dkim_verify s) || verifies (eval dc.dmarc_verify s)
      then x.verify_dkim raw
      else []

  -- The reply if no signature passes and one has to.
  unfoldable pub dkim_refusal : Session → Bytes → Option Bytes
  unfolding dkim_results is_strict
  dkim_refusal s raw =
      let results = dkim_results s raw in
      if is_strict (eval dc.dkim_verify s) && not (any is_pass results)
      then some (
          if any is_temp_error results
          then line "451 4.7.20 No passing DKIM signatures found."
          else line "550 5.7.20 No passing DKIM signatures found.")
      else none

  -- A message with no seal is let through.
  unfoldable pub arc_refusal : Session → Bytes → Option Bytes
  unfolding is_strict
  arc_refusal s raw =
      if is_strict (eval dc.arc_verify s)
      then elim (x.verify_arc raw) [
        | no_seal ↦ none
        | sealed v ↦
            if is_pass v
            then none
            else some (
                if is_temp_error v
                then line "451 4.7.29 ARC validation failed."
                else line "550 5.7.29 ARC validation failed.")
      ]
      else none

  unfoldable pub dmarc_refusal : Session → SessionAddress → Bytes → Option Bytes
  unfolding dkim_results verifies is_strict
  dmarc_refusal s from raw = elim s.session_data.spf_mail_from [
    | none ↦ none
    | some spf ↦
        if verifies (eval dc.dmarc_verify s)
        then (let domain =
              if is_empty from.domain then s.session_data.helo_domain else from.domain in
            let o = x.verify_dmarc raw (dkim_results s raw) domain spf in
            let rejected =
              is_strict (eval dc.dmarc_verify s)
              && (o.policy_reject && not (is_pass o.spf_result || is_pass o.dkim_result)) in
            if rejected
            then some (
                if is_temp_error o.spf_result || is_temp_error o.dkim_result
                then line "451 4.7.1 Email temporarily rejected per DMARC policy."
                else line "550 5.7.1 Email rejected per DMARC policy.")
            else none)
        else none
  ]

  abbrev pub count_sent : M (Unit {0})
  count_sent = change_data (λ d. record d { messages_sent = d.messages_sent + 1 })

  -- The message is built and given to the queue. Its recipients are taken from the session.
  unfoldable pub enqueue_message : SessionAddress → Bytes → M Bytes
  unfolding build_message
  enqueue_message from raw = do
    s ← ask (λ s. s)
    let m =
        build_message fl q w.instant_now s.session_data x.queue_id w.system_now from
          s.session_data.rcpt_to
    change_data (λ d. record d { rcpt_to = [] })
    let headers = x.headers s m raw
    elim (x.enqueue (record m { size = length raw + length headers }) headers raw) [
      | queued ↦ do count_sent; pure (line "250 2.0.0 Message queued for delivery.")
      | failed ↦ pure (line "451 4.3.5 Unable to accept message at this time.")
      | over_quota ↦ pure (line "452 4.3.1 Mail system full, try again later.")
    ]

  unfoldable pub filter_message : SessionAddress → Bytes → M Bytes
  unfolding enqueue_message
  filter_message from raw = do
    s ← ask (λ s. s)
    let edited = pipe_message (λ p. x.pipe p s) dc.pipe_commands raw
    on_option (eval dc.data_script s) (enqueue_message from edited) (λ script.
        elim (x.run_data_script script s edited) [
          | accept ↦ enqueue_message from edited
          | replace message ↦ enqueue_message from message
          | reject message ↦ pure message
          | discard ↦ pure (line "250 2.0.0 Message queued for delivery.")
        ])

  -- What the checks of signatures reply, if one of them refuses.
  unfoldable pub signature_refusal : Session → Bytes → Option Bytes
  unfolding dkim_refusal arc_refusal
  signature_refusal s raw = elim (dkim_refusal s raw) [
    | some reply ↦ some reply
    | none ↦ arc_refusal s raw
  ]

  unfoldable pub authenticated_message : SessionAddress → Bytes → M Bytes
  unfolding dmarc_refusal is_report filter_message
  authenticated_message from raw = do
    s ← ask (λ s. s)
    on_option (dmarc_refusal s from raw)
        (when is_report dc.analysis_addresses s.session_data.rcpt_to && not dc.analysis_forward
          then (do count_sent; pure (line "250 2.0.0 Message queued for delivery."))
          else filter_message from raw)
        (λ reply. pure reply)

  -- The sender is needed from the checks of mail authentication on (`unwrap`). Traces that name it
  -- are taken as not written.
  unfoldable pub check_signatures : Bytes → M Bytes
  unfolding signature_refusal authenticated_message
  check_signatures raw = do
    s ← ask (λ s. s)
    on_option (signature_refusal s raw)
        (on_option s.session_data.mail_from (panic) (λ from. authenticated_message from raw))
        (λ reply. pure reply)

  unfoldable pub check_received : Bytes → Parsed → M Bytes
  unfolding is_domain_dnsbl_allowed check_signatures domain_part
  check_received raw parsed = do
    let domain = domain_part parsed.from_address
    allowed ← (when is_empty domain then pure true else is_domain_dnsbl_allowed w domain dnsbl_from)
    s ← ask (λ s. s)
    when not allowed
        then (do
          reset_dnsbl_error
          on_option s.session_data.dnsbl_error (panic) (λ error. pure error))
        else when ltb (eval dc.max_received_headers s) parsed.received_headers
        then pure (line "450 4.4.6 Too many Received headers. Possible loop detected.")
        else check_signatures raw

  -- `queue_message`
  unfoldable pub queue_message : M Bytes
  unfolding check_received
  queue_message = do
    raw ← ask (λ s. s.session_data.message)
    change_data (λ d. record d { message = [] })
    on_option (x.parse raw) (pure (line "550 5.7.7 Failed to parse message."))
        (λ parsed. check_received raw parsed)

-- `can_send_data`
unfoldable pub can_send_data : SessionConfig → M Bool
unfolding write
can_send_data k = do
  s ← ask (λ s. s)
  elim s.session_data.rcpt_to [
    | [] ↦ do write (line "503 5.5.1 RCPT is required first."); pure false
    | a ∷ rest ↦
        when ltb s.session_data.messages_sent (eval k.max_messages s) then pure true else (do
          write (line "451 4.4.5 Maximum number of messages per session exceeded.")
          pure false)
  ]
