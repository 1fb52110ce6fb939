-- ===== src/Session/Changes/Senders.antt =====
-- The MAIL command changes a session by the steps.
use smtp_server.Base.{ℕ, ◌≡◌, refl, ap, ◌∙◌, true, false, none, Bytes, arith, is_empty}
use smtp_server.Session.State.{Session, SessionData}
use smtp_server.Session.Config.{SessionConfig, eval_rcpt_params}
use smtp_server.Session.Conn.{World, M, change, change_data}
use smtp_server.Session.Conn.Keeps.{
  Steps, Keeps, Steps-bind, Steps-then, Steps-ask, Steps-change, Steps-change_data, Steps-if,
  Steps-option, Steps-weaken, Keeps-bind, Keeps-then, Keeps-pure, Keeps-write, at,
}
use smtp_server.Session.Dnsbl.{is_domain_dnsbl_allowed, dnsbl_iprev, dnsbl_return_path}
use smtp_server.Base.Flags.{Flags}
use smtp_server.Session.Parameters.{
  MailFrom, check_requiretls, check_deliver_by, check_mt_priority, check_size, check_hold,
  check_dsn,
}
use smtp_server.Session.Mail.{
  check_iprev, check_spf, accept_sender, check_parameters, set_sender, check_sender, mail_refusal,
  handle_mail_from,
}
use smtp_server.Session.Changes.{IsAside, aside, parameters, sender, Reach, next, Admitted}
use smtp_server.Session.Changes.Asides.{
  by_aside, Keeps-throttle_allows, Keeps-is_domain_dnsbl_allowed, Keeps-write_dnsbl_error,
  Keeps-handle_spf, Keeps-clear_sender, Keeps-refuse,
}

module _ (s0 : Session) (fl : Flags) (w : World) (k : SessionConfig) where
  by_eval_rcpt_params : Keeps (Reach s0) (change (eval_rcpt_params k))
  unfolding eval_rcpt_params
  by_eval_rcpt_params = Steps-change _ (λ s r. next r (parameters s _ refl refl))

  Keeps-check_iprev : Keeps (Reach s0) (check_iprev fl w k)
  unfolding check_iprev
  Keeps-check_iprev = Steps-ask _ _ (λ s r. at r (
      Steps-if _
        (λ e.
          Keeps-bind
            (Steps-option _ (λ e. Keeps-pure true)
              (λ p e. Keeps-is_domain_dnsbl_allowed s0 w p dnsbl_iprev))
            (λ allowed.
              Steps-if allowed
                (λ e. Keeps-then (by_aside s0 _ (λ d. (refl, refl, refl, refl))) (Keeps-pure true))
                (λ e. Keeps-pure false)))
        (λ e. Keeps-pure true)))

  module _ (from : MailFrom) where
    Keeps-check_spf : Keeps (Reach s0) (check_spf fl w k from)
    unfolding check_spf
    Keeps-check_spf = Steps-ask _ _ (λ s r. at r (
        Steps-if _
          (λ e. Keeps-bind (Keeps-handle_spf s0 _ _) (λ valid.
            Keeps-then
              (Steps-if valid (λ e. by_aside s0 _ (λ d. (refl, refl, refl, refl)))
                (λ e. Keeps-clear_sender s0))
              (Keeps-pure valid)))
          (λ e. Keeps-pure true)))

    Keeps-accept_sender : Keeps (Reach s0) (accept_sender fl w k from)
    unfolding accept_sender
    Keeps-accept_sender = Keeps-bind (Keeps-throttle_allows s0 w k) (λ allowed.
        Steps-if allowed
          (λ e. Keeps-bind Keeps-check_spf (λ valid.
            Steps-if valid (λ e. Keeps-then by_eval_rcpt_params (Keeps-write _))
              (λ e. Keeps-pure tt)))
          (λ e. Keeps-refuse s0 _))

    -- Each check, before what follows it.
    Keeps-check_requiretls :
        (next : M (Unit {0}))
        → Keeps (Reach s0) next
        → Keeps (Reach s0) (check_requiretls fl w k from next)
    unfolding check_requiretls
    Keeps-check_requiretls m h =
        Steps-ask _ _ (λ s r. at r (Steps-if _ (λ e. Keeps-refuse s0 _) (λ e. h)))

    Keeps-check_deliver_by :
        (next : M (Unit {0}))
        → Keeps (Reach s0) next
        → Keeps (Reach s0) (check_deliver_by fl w k from next)
    unfolding check_deliver_by
    Keeps-check_deliver_by m h = Steps-ask _ _ (λ s r. at r (
        Steps-if _
          (λ e.
            Steps-option _ (λ e. Keeps-refuse s0 _)
              (λ duration e.
                Steps-if _ (λ e. Keeps-then (by_aside s0 _ (λ d. (refl, refl, refl, refl))) h)
                  (λ e. Keeps-refuse s0 _)))
          (λ e. h)))

    Keeps-check_mt_priority :
        (next : M (Unit {0}))
        → Keeps (Reach s0) next
        → Keeps (Reach s0) (check_mt_priority fl w k from next)
    unfolding check_mt_priority
    Keeps-check_mt_priority m h = Steps-ask _ _ (λ s r. at r (
        Steps-if _ (λ e. h)
          (λ e.
            Steps-if _
              (λ e.
                Steps-if _ (λ e. Keeps-then (by_aside s0 _ (λ d. (refl, refl, refl, refl))) h)
                  (λ e. Keeps-refuse s0 _))
              (λ e. Keeps-refuse s0 _))))

    Keeps-check_size :
        (next : M (Unit {0}))
        → Keeps (Reach s0) next
        → Keeps (Reach s0) (check_size fl w k from next)
    unfolding check_size
    Keeps-check_size m h =
        Steps-ask _ _ (λ s r. at r (Steps-if _ (λ e. Keeps-refuse s0 _) (λ e. h)))

    Keeps-check_hold :
        (next : M (Unit {0}))
        → Keeps (Reach s0) next
        → Keeps (Reach s0) (check_hold fl w k from next)
    unfolding check_hold
    Keeps-check_hold m h = Steps-ask _ _ (λ s r. at r (
        Steps-if _ (λ e. h)
          (λ e.
            Steps-option _ (λ e. Keeps-refuse s0 _)
              (λ max_hold e.
                Steps-if _ (λ e. Keeps-then (by_aside s0 _ (λ d. (refl, refl, refl, refl))) h)
                  (λ e. Keeps-refuse s0 _)))))

    Keeps-check_dsn :
        (next : M (Unit {0}))
        → Keeps (Reach s0) next
        → Keeps (Reach s0) (check_dsn fl w k from next)
    unfolding check_dsn
    Keeps-check_dsn m h = Steps-ask _ _ (λ s r. at r (Steps-if _ (λ e. Keeps-refuse s0 _) (λ e. h)))

    Keeps-check_parameters : Keeps (Reach s0) (check_parameters fl w k from)
    unfolding check_parameters
    Keeps-check_parameters = Keeps-check_requiretls _ (
        Keeps-check_deliver_by _ (
          Keeps-check_mt_priority _
            (Keeps-check_size _ (Keeps-check_hold _ (Keeps-check_dsn _ Keeps-accept_sender)))))

  -- Until there is a sender, the client stays admitted and there is none.
  abbrev MayName : Session → Type 0
  MayName t = Reach s0 t × Admitted t × (t.session_data.mail_from ≡ none)

  module _ (from : MailFrom) where
    MayName-set_sender : Steps MayName (set_sender fl w k from) (Reach s0)
    unfolding set_sender
    MayName-set_sender =
        Steps-then {S = Reach s0} (Steps-change_data _ (λ s p. next p.0 (sender s _ p.1 p.2)))
          (λ s r. r)
          (Steps-ask _ _ (λ s r. at r (
            Steps-option _ (λ e. Keeps-check_parameters from)
              (λ script e.
                Steps-option _ (λ e. Keeps-check_parameters from)
                  (λ message e. Keeps-refuse s0 message)))))

    by_aside_MayName : (f : SessionData → SessionData) → IsAside f → Keeps MayName (change_data f)
    by_aside_MayName f i = Steps-change_data f (λ s p. (
      next p.0 (aside s f i),
      λ r. ap is_empty (i s.session_data).2 ∙ p.1 r,
      (i s.session_data).0 ∙ p.2,
    ))

    MayName-is_domain_dnsbl_allowed :
        (domain : Bytes) (policy : ℕ) → Keeps MayName (is_domain_dnsbl_allowed w domain policy)
    unfolding is_domain_dnsbl_allowed
    MayName-is_domain_dnsbl_allowed domain policy = Steps-ask _ _ (λ s r. at r (
        Steps-option _ (λ e. Keeps-pure true)
          (λ dnsbl e.
            Keeps-then (by_aside_MayName _ (λ d. (refl, refl, refl, refl))) (Keeps-pure false))))

    MayName-check_iprev : Keeps MayName (check_iprev fl w k)
    unfolding check_iprev
    MayName-check_iprev = Steps-ask _ _ (λ s r. at r (
        Steps-if _
          (λ e.
            Keeps-bind
              (Steps-option _ (λ e. Keeps-pure true)
                (λ p e. MayName-is_domain_dnsbl_allowed p dnsbl_iprev))
              (λ allowed.
                Steps-if allowed
                  (λ e.
                    Keeps-then (by_aside_MayName _ (λ d. (refl, refl, refl, refl)))
                      (Keeps-pure true))
                  (λ e. Keeps-pure false)))
          (λ e. Keeps-pure true)))

    only_reached : {A : Type 0} (m : M A) → Keeps (Reach s0) m → Steps MayName m (Reach s0)
    only_reached m h = Steps-weaken (λ s p. p.0) h

    MayName-check_sender : Steps MayName (check_sender fl w k from) (Reach s0)
    unfolding check_sender
    MayName-check_sender =
        Steps-bind {S = MayName}
          (Steps-if _ (λ e. Keeps-pure true)
            (λ e. MayName-is_domain_dnsbl_allowed _ dnsbl_return_path))
          (λ s p. p.0)
          (λ allowed.
            Steps-if allowed (λ e. MayName-set_sender)
              (λ e. only_reached _ (
                Keeps-then (Keeps-write_dnsbl_error s0)
                  (by_aside s0 _ (λ d. (refl, refl, refl, refl))))))

    mail_refusal-MayName : (s : Session) → mail_refusal fl w k s ≡ none → Reach s0 s → MayName s
    unfolding mail_refusal
    mail_refusal-MayName s e r = (r, λ a. ground (arith, e, a), ground (arith, e))

    pub Keeps-handle_mail_from : Keeps (Reach s0) (handle_mail_from fl w k from)
    unfolding handle_mail_from
    Keeps-handle_mail_from = Steps-ask _ _ (λ s r.
        Steps-option _
          (λ e. at (mail_refusal-MayName s e r) (
            Steps-bind {S = MayName} MayName-check_iprev (λ s p. p.0)
              (λ allowed.
                Steps-if allowed
                  (λ e. Steps-ask _ _ (λ s' p. at p (
                    Steps-option _ (λ e. MayName-check_sender)
                      (λ reply e. only_reached _ (Keeps-write reply)))))
                  (λ e. only_reached _ (Keeps-write_dnsbl_error s0)))))
          (λ reply e. at r (Keeps-write reply)))
