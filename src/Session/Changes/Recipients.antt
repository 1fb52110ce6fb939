-- ===== src/Session/Changes/Recipients.antt =====
-- The RCPT command changes a session by the steps.
use smtp_server.Base.Texts.{line}
use smtp_server.Base.{
  ◌≡◌, refl, true, false, none, Bytes, ◌<◌, arith, length, if◌then◌else◌, is_some,
}
use smtp_server.Session.Conn.{World, when◌then◌else◌, write}
use smtp_server.Session.Conn.Keeps.{
  Steps, Keeps, At, Steps-then, Steps-ask, Steps-change_data, Steps-if, Steps-option, Keeps-bind,
  Keeps-then, Keeps-pure, Keeps-disconnect, Keeps-write, at,
}
use smtp_server.Session.Changes.{recipient, recipient_back, Reach, next}
use smtp_server.Session.Changes.Asides.{by_aside, Keeps-throttle_allows}
use smtp_server.Session.State.{Session, SessionAddress}
use smtp_server.Session.Config.{SessionConfig}
use smtp_server.Base.Flags.{Flags}
use smtp_server.Session.Rcpt.{
  AddressCheck, taken, unsure, refused, RcptTo, verify_address, has_address, pop_rcpt, rcpt_error,
  new_rcpt, rcpt_refusal, admit_rcpt, add_rcpt, check_rcpt, handle_rcpt_to,
}

module _ (s0 : Session) (fl : Flags) (w : World) (k : SessionConfig) where
  Keeps-rcpt_error : (response : Bytes) → Keeps (Reach s0) (rcpt_error response)
  unfolding rcpt_error
  Keeps-rcpt_error response = Keeps-then (by_aside s0 _ (λ d. (refl, refl, refl, refl))) (
      Keeps-then (Keeps-write response) (
        Steps-ask _ _ (λ s r.
          at r
            (Steps-if _ (λ e. Keeps-pure tt) (λ e. Keeps-then (Keeps-write _) Keeps-disconnect)))))

  Keeps-pop_rcpt : Keeps (Reach s0) pop_rcpt
  Keeps-pop_rcpt = Steps-change_data _ (λ s r. next r (recipient_back s))

  Keeps-admit_rcpt : Keeps (Reach s0) (admit_rcpt fl w k)
  unfolding admit_rcpt
  Keeps-admit_rcpt = Keeps-bind (Keeps-throttle_allows s0 w k) (λ allowed.
      Steps-if allowed (λ e. Keeps-write _) (λ e. Keeps-then Keeps-pop_rcpt (Keeps-write _)))

  -- What is known of the session when a recipient is added.
  abbrev MayAdd : SessionAddress → Session → Type 0
  MayAdd a t =
      Reach s0 t
      × (is_some t.session_data.mail_from ≡ true)
      × (length t.session_data.rcpt_to < t.params.rcpt_max)
      × (verify_address t a ≡ taken)
      × (has_address a t.session_data.rcpt_to ≡ false)

  MayAdd-add_rcpt : (a : SessionAddress) → Steps (MayAdd a) (add_rcpt fl w k a) (Reach s0)
  unfolding add_rcpt
  MayAdd-add_rcpt a =
      Steps-then {S = Reach s0}
        (Steps-change_data _ (λ s p. next p.0 (recipient s a p.1 p.2 p.3 p.4))) (λ s r. r)
        (Steps-ask _ _ (λ s r. at r (
          Steps-option _ (λ e. Keeps-admit_rcpt)
            (λ script e.
              Steps-option _ (λ e. Keeps-admit_rcpt)
                (λ message e. Keeps-then Keeps-pop_rcpt (Keeps-write message))))))

  -- What the guards leave.
  abbrev MayAsk : Session → Type 0
  MayAsk t =
      Reach s0 t
      × (is_some t.session_data.mail_from ≡ true)
      × (length t.session_data.rcpt_to < t.params.rcpt_max)

  checked :
      (a : SessionAddress) (s : Session)
      → MayAsk s
      → (v : AddressCheck) → verify_address s a ≡ v
      → Steps
          (At s)
          (elim v [
            | unsure ↦ write (line "451 4.4.3 Unable to verify address at this time.")
            | refused response ↦ rcpt_error response
            | taken ↦
                when has_address a s.session_data.rcpt_to
                then write (line "250 2.1.5 OK")
                else add_rcpt fl w k a
          ])
          (Reach s0)
  checked a s p taken e =
      Steps-if _ (λ h. at p.0 (Keeps-write _)) (λ h. at (p.0, p.1, p.2, e, h) (MayAdd-add_rcpt a))
  checked a s p unsure e = at p.0 (Keeps-write _)
  checked a s p (refused response) e = at p.0 (Keeps-rcpt_error response)

  MayAsk-check_rcpt : (a : SessionAddress) → Steps MayAsk (check_rcpt fl w k a) (Reach s0)
  unfolding check_rcpt
  MayAsk-check_rcpt a = Steps-ask _ _ (λ s p. checked a s p (verify_address s a) refl)

  rcpt_refusal-MayAsk :
      (to : RcptTo) (s : Session) → rcpt_refusal fl w k to s ≡ none → Reach s0 s → MayAsk s
  unfolding rcpt_refusal
  rcpt_refusal-MayAsk to s e r = (r, ground (arith, e), ground (arith, e))

  pub Keeps-handle_rcpt_to : (to : RcptTo) → Keeps (Reach s0) (handle_rcpt_to fl w k to)
  unfolding handle_rcpt_to
  Keeps-handle_rcpt_to to = Steps-ask _ _ (λ s r.
      Steps-option _
        (λ e. at (rcpt_refusal-MayAsk to s e r) (MayAsk-check_rcpt (new_rcpt fl w k to)))
        (λ reply e. at r (Keeps-write reply)))
