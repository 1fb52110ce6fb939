-- ===== src/Session/Changes/Asides.antt =====
-- The parts of commands that change neither sender nor recipients, and the helpers that all share.
use smtp_server.Base.{ℕ, refl, Bool, true, false, [], none, Bytes}
use smtp_server.Session.State.{Session, SessionData, reset_data, Verdict, pass, temp_error, other}
use smtp_server.Session.Config.{SessionConfig}
use smtp_server.Session.Conn.{World, change_data, throttle_allows}
use smtp_server.Session.Conn.Keeps.{
  steps, Keeps, Steps-ask, Steps-change_data, Steps-if, Steps-option, Keeps-then, Keeps-pure,
  Keeps-write, at,
}
use smtp_server.Session.Throttle.{session_is_allowed}
use smtp_server.Session.Dnsbl.{is_domain_dnsbl_allowed, write_dnsbl_error}
use smtp_server.Session.Mail.{handle_spf}
use smtp_server.Session.Parameters.{refuse, clear_sender}
use smtp_server.Session.Changes.{IsAside, aside, flight, no_sender, no_recipients, Reach, next}

-- What a reset does beside the sender and the recipients.
abbrev reset_data_aside : SessionData → SessionData
reset_data_aside d = record d {
  spf_mail_from = none;
  message = [];
  priority = 0;
  delivery_by = 0;
  future_release = 0;
}

module _ (s0 : Session) where
  pub by_aside : (f : SessionData → SessionData) → IsAside f → Keeps (Reach s0) (change_data f)
  by_aside f i = Steps-change_data f (λ s r. next r (aside s f i))

  pub Keeps-throttle_allows :
      (w : World) (k : SessionConfig) → Keeps (Reach s0) (throttle_allows w k)
  unfolding throttle_allows session_is_allowed
  Keeps-throttle_allows w k = steps λ c r. next r (flight c.session _)

  pub Keeps-is_domain_dnsbl_allowed :
      (w : World) (domain : Bytes) (policy : ℕ)
      → Keeps (Reach s0) (is_domain_dnsbl_allowed w domain policy)
  unfolding is_domain_dnsbl_allowed
  Keeps-is_domain_dnsbl_allowed w domain policy = Steps-ask _ _ (λ s r. at r (
      Steps-option _ (λ e. Keeps-pure true)
        (λ dnsbl e. Keeps-then (by_aside _ (λ d. (refl, refl, refl, refl))) (Keeps-pure false))))

  pub Keeps-write_dnsbl_error : Keeps (Reach s0) write_dnsbl_error
  unfolding write_dnsbl_error
  Keeps-write_dnsbl_error =
      Steps-ask _ _
        (λ s r. at r (Steps-option _ (λ e. Keeps-pure tt) (λ error e. Keeps-write error)))

  pub Keeps-handle_spf : (v : Verdict) (strict : Bool) → Keeps (Reach s0) (handle_spf v strict)
  unfolding handle_spf
  Keeps-handle_spf pass strict = Keeps-pure true
  Keeps-handle_spf temp_error strict =
      Steps-if strict (λ e. Keeps-then (Keeps-write _) (Keeps-pure false)) (λ e. Keeps-pure true)
  Keeps-handle_spf (other t) strict =
      Steps-if strict (λ e. Keeps-then (Keeps-write _) (Keeps-pure false)) (λ e. Keeps-pure true)

  pub Keeps-clear_sender : Keeps (Reach s0) clear_sender
  Keeps-clear_sender = Steps-change_data _ (λ s r. next r (no_sender s))

  pub Keeps-refuse : (reply : Bytes) → Keeps (Reach s0) (refuse reply)
  unfolding refuse
  Keeps-refuse reply = Keeps-then Keeps-clear_sender (Keeps-write reply)

  pub Keeps-reset : Keeps (Reach s0) (change_data reset_data)
  Keeps-reset = Steps-change_data reset_data (λ s r.
      next (next (next r (no_sender s)) (no_recipients _))
        (aside _ reset_data_aside (λ d. (refl, refl, refl, refl))))
