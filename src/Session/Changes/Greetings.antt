-- ===== src/Session/Changes/Greetings.antt =====
-- The EHLO command changes a session by the steps.
use smtp_server.Base.{refl, Bytes}
use smtp_server.Session.Conn.{World}
use smtp_server.Session.Conn.Keeps.{
  Keeps, Steps-ask, Steps-change_data, Steps-if, Steps-option, Keeps-bind, Keeps-then, Keeps-pure,
  Keeps-write, at,
}
use smtp_server.Session.Changes.{aside, no_sender, Reach, next}
use smtp_server.Session.Changes.Asides.{
  by_aside, Keeps-is_domain_dnsbl_allowed, Keeps-write_dnsbl_error, Keeps-handle_spf, Keeps-reset,
}
use smtp_server.Session.State.{Session}
use smtp_server.Session.Config.{SessionConfig}
use smtp_server.Session.Ehlo.{
  Mechanisms, EhloResponse, greet, back_to, run_ehlo_script, set_domain, handle_ehlo,
}

module _ (s0 : Session) (mech : Mechanisms) (write_ehlo : EhloResponse → Bytes) (w : World)
    (k : SessionConfig) where
  Keeps-greet : Keeps (Reach s0) (greet mech write_ehlo w k)
  unfolding greet
  Keeps-greet = Steps-ask _ _ (λ s r. at r (
      Keeps-then (Steps-if _ (λ e. Keeps-reset s0) (λ e. Keeps-pure tt))
        (Steps-ask _ _ (λ s' r. at r (Keeps-write _)))))

  Keeps-back_to : (domain : Bytes) → Keeps (Reach s0) (back_to mech write_ehlo w k domain)
  Keeps-back_to domain = Steps-change_data _ (λ s r.
      next (next r (no_sender s))
        (aside _ (λ d. record d { helo_domain = domain }) (λ d. (refl, refl, refl, refl))))

  Keeps-run_ehlo_script :
      (before : Bytes) → Keeps (Reach s0) (run_ehlo_script mech write_ehlo w k before)
  unfolding run_ehlo_script
  Keeps-run_ehlo_script before = Steps-ask _ _ (λ s r. at r (
      Steps-option _ (λ e. Keeps-greet)
        (λ script e.
          Steps-option _ (λ e. Keeps-greet)
            (λ message e.
              Keeps-then (Keeps-back_to before) (
                Keeps-then (by_aside s0 _ (λ d. (refl, refl, refl, refl)))
                  (Keeps-write message))))))

  Keeps-set_domain : (domain : Bytes) → Keeps (Reach s0) (set_domain mech write_ehlo w k domain)
  unfolding set_domain
  Keeps-set_domain domain = Steps-ask _ _ (λ s r. at r (
      Keeps-then (by_aside s0 _ (λ d. (refl, refl, refl, refl))) (
        Steps-ask _ _ (λ s' r. at r (
          Steps-if _
            (λ e. Keeps-bind (Keeps-handle_spf s0 _ _) (λ valid.
              Steps-if valid
                (λ e.
                  Keeps-then (by_aside s0 _ (λ d. (refl, refl, refl, refl)))
                    (Keeps-run_ehlo_script _))
                (λ e. Keeps-back_to _)))
            (λ e. Keeps-run_ehlo_script _))))))

  pub Keeps-handle_ehlo :
      (domain : Bytes) → Keeps (Reach s0) (handle_ehlo mech write_ehlo w k domain)
  unfolding handle_ehlo
  Keeps-handle_ehlo domain = Steps-ask _ _ (λ s r. at r (
      Steps-if _ (λ e. Keeps-greet)
        (λ e.
          Steps-if _ (λ e. Keeps-write _)
            (λ e. Keeps-bind (Keeps-is_domain_dnsbl_allowed s0 w _ _) (λ allowed.
              Steps-if allowed (λ e. Keeps-set_domain domain)
                (λ e.
                  Keeps-then (Keeps-write_dnsbl_error s0)
                    (by_aside s0 _ (λ d. (refl, refl, refl, refl)))))))))
