-- ===== src/Session/Rcpt/Relay.antt =====
-- The RCPT command is no open relay: which address it may add to the recipients.
use smtp_server.Base.{
  ◌≡◌, refl, ap, ◌∙◌, subst, Bool, true, false, List, [], ◌∷◌, ◌++◌, Option, none, some, Bytes, ◌⊎◌,
  inl, inr, if◌then◌else◌,
}
use smtp_server.Base.Texts.{line}
use smtp_server.Session.State.{Session, SessionAddress}
use smtp_server.Session.Config.{SessionConfig}
use smtp_server.Session.Conn.{World, Conn, ◌>>◌, when◌then◌else◌, write, throttle_allows}
use smtp_server.Session.Conn.Keeps.{
  Steps, steps, stepped, Keeps, At, Steps-bind, Steps-then, Steps-ask, Steps-change_data, Steps-if,
  Steps-option, Steps-weaken, Keeps-then, Keeps-pure, Keeps-disconnect, Keeps-write, at,
}
use smtp_server.Session.Params.{Contains, SessionParameters}
use smtp_server.Base.Flags.{Flags}
use smtp_server.Session.Throttle.{session_is_allowed}
use smtp_server.Session.Rcpt.{
  RcptTo, AddressCheck, taken, unsure, refused, relayed, local_check, verify_address, has_address,
  pop, pop_rcpt, rcpt_error, new_rcpt, admit_rcpt, add_rcpt, check_rcpt, handle_rcpt_to,
}

-- The server relays for this client, or both lookups name the address as one of its own.
abbrev pub IsWanted : SessionParameters → SessionAddress → Type 0
IsWanted p a =
    (p.rcpt_relay ≡ true)
    ⊎ ((domains : Contains) × (addresses : Contains) × (p.rcpt_lookup_domain ≡ some domains)
        × (p.rcpt_lookup_addresses ≡ some addresses)
        × (domains a.domain ≡ some true)
        × (addresses a.address_lcase ≡ some true))

relayed-taken : (b : Bool) → relayed b ≡ taken → b ≡ true
relayed-taken true e = refl
relayed-taken false e = absurd (cc e)

local_check-taken : (o : Option Bool) → local_check o ≡ taken → o ≡ some true
local_check-taken none e = absurd (cc e)
local_check-taken (some true) e = refl
local_check-taken (some false) e = absurd (cc e)

by_domain :
    (relay : Bool) (a : SessionAddress) (addresses : Contains) (o : Option Bool)
    → elim o [
      | none ↦ unsure
      | some true ↦ local_check (addresses a.address_lcase)
      | some false ↦ relayed relay
    ]
      ≡ taken
    → (relay ≡ true) ⊎ ((o ≡ some true) × (addresses a.address_lcase ≡ some true))
by_domain relay a addresses none e = absurd (cc e)
by_domain relay a addresses (some true) e = inr (refl, local_check-taken _ e)
by_domain relay a addresses (some false) e = inl (relayed-taken relay e)

by_lookups :
    (relay : Bool) (a : SessionAddress) (d l : Option Contains)
    → elim d [
      | none ↦ relayed relay
      | some domain_lookup ↦ elim l [
        | none ↦ relayed relay
        | some address_lookup ↦ elim (domain_lookup a.domain) [
          | none ↦ unsure
          | some true ↦ local_check (address_lookup a.address_lcase)
          | some false ↦ relayed relay
        ]
      ]
    ]
      ≡ taken
    → (relay ≡ true)
      ⊎ ((domains : Contains) × (addresses : Contains) × (d ≡ some domains)
          × (l ≡ some addresses)
          × (domains a.domain ≡ some true)
          × (addresses a.address_lcase ≡ some true))
by_lookups relay a none l e = inl (relayed-taken relay e)
by_lookups relay a (some domains) none e = inl (relayed-taken relay e)
by_lookups relay a (some domains) (some addresses) e =
    elim (by_domain relay a addresses (domains a.domain) e) [
      | inl r ↦ inl r
      | inr (h, g) ↦ inr (domains, addresses, refl, refl, h, g)
    ]

verify_address-IsWanted :
    (s : Session) (a : SessionAddress) → verify_address s a ≡ taken → IsWanted s.params a
unfolding verify_address
verify_address-IsWanted s a e =
    by_lookups s.params.rcpt_relay a s.params.rcpt_lookup_domain s.params.rcpt_lookup_addresses e

pop-append : (xs : List SessionAddress) (a : SessionAddress) → pop (xs ++ a ∷ []) ≡ xs
pop-append [] a = refl
pop-append (x ∷ []) a = refl
pop-append (x ∷ y ∷ xs) a = ap (λ ys. x ∷ ys) (pop-append (y ∷ xs) a)

abbrev Same : Session → Session → Type 0
Same s t = t.session_data.rcpt_to ≡ s.session_data.rcpt_to

abbrev Pushed : Session → SessionAddress → Session → Type 0
Pushed s a t = t.session_data.rcpt_to ≡ s.session_data.rcpt_to ++ a ∷ []

-- What the command may make of the recipients.
abbrev pub IsRelayedRight : Session → SessionAddress → Session → Type 0
IsRelayedRight s a t =
    (t.session_data.rcpt_to ≡ s.session_data.rcpt_to)
    ⊎ ((t.session_data.rcpt_to ≡ s.session_data.rcpt_to ++ a ∷ []) × IsWanted s.params a)

module _ (s0 : Session) where
  Keeps-rcpt_error : (response : Bytes) → Keeps (Same s0) (rcpt_error response)
  unfolding rcpt_error
  Keeps-rcpt_error response = Keeps-then (Steps-change_data {R = Same s0} _ (λ s e. e)) (
      Keeps-then (Keeps-write response) (
        Steps-ask _ _ (λ s e.
          at e
            (Steps-if _ (λ h. Keeps-pure tt) (λ h. Keeps-then (Keeps-write _) Keeps-disconnect)))))

  module _ (fl : Flags) (w : World) (k : SessionConfig) (a : SessionAddress)
      (wanted : IsWanted s0.params a) where
    unchanged : (s : Session) → Same s0 s → IsRelayedRight s0 a s
    unchanged s e = inl e

    added : (s : Session) → Pushed s0 a s → IsRelayedRight s0 a s
    added s e = inr (e, wanted)

    Steps-pop_rcpt : Steps (Pushed s0 a) pop_rcpt (Same s0)
    Steps-pop_rcpt = Steps-change_data _ (λ s e. ap pop e ∙ pop-append s0.session_data.rcpt_to a)

    Keeps-allows : Keeps (Pushed s0 a) (throttle_allows w k)
    unfolding throttle_allows session_is_allowed
    Keeps-allows = steps λ c e. e

    taken_back :
        (reply : Bytes) → Steps (Pushed s0 a) (pop_rcpt >> write reply) (IsRelayedRight s0 a)
    taken_back reply =
        Steps-then Steps-pop_rcpt unchanged (Steps-weaken unchanged (Keeps-write reply))

    Steps-admit_rcpt : Steps (Pushed s0 a) (admit_rcpt fl w k) (IsRelayedRight s0 a)
    unfolding admit_rcpt
    Steps-admit_rcpt =
        Steps-bind Keeps-allows added (λ allowed.
          Steps-if allowed (λ e. Steps-weaken added (Keeps-write _)) (λ e. taken_back _))

    Steps-add_rcpt : Steps (Same s0) (add_rcpt fl w k a) (IsRelayedRight s0 a)
    unfolding add_rcpt
    Steps-add_rcpt =
        Steps-then {S = Pushed s0 a} (Steps-change_data _ (λ s e. ap (λ as'. as' ++ a ∷ []) e))
          added
          (Steps-ask _ _ (λ s e. at e (
            Steps-option _ (λ h. Steps-admit_rcpt)
              (λ script h.
                Steps-option _ (λ h. Steps-admit_rcpt) (λ message h. taken_back message)))))

  module _ (fl : Flags) (w : World) (k : SessionConfig) (a : SessionAddress) where
    by_check :
        (s : Session) (r : AddressCheck)
        → s ≡ s0
        → verify_address s a ≡ r
        → Steps
            (At s)
            (elim r [
              | unsure ↦ write (line "451 4.4.3 Unable to verify address at this time.")
              | refused response ↦ rcpt_error response
              | taken ↦
                  when has_address a s.session_data.rcpt_to
                  then write (line "250 2.1.5 OK")
                  else add_rcpt fl w k a
            ])
            (IsRelayedRight s0 a)
    by_check s taken h e =
        Steps-weaken {P = Same s0} (λ t g. ap (λ t. t.session_data.rcpt_to) (g ∙ h))
          (Steps-if _ (λ g. Steps-weaken (λ t e. inl e) (Keeps-write _))
            (λ g.
              Steps-add_rcpt fl w k a
                (subst (λ s. IsWanted s.params a) h (verify_address-IsWanted s a e))))
    by_check s unsure h e =
        Steps-weaken {P = IsRelayedRight s0 a}
          (λ t g. inl (ap (λ t. t.session_data.rcpt_to) (g ∙ h))) (Keeps-write _)
    by_check s (refused response) h e = steps λ c p.
        inl (stepped (Keeps-rcpt_error response) c (ap (λ t. t.session_data.rcpt_to) (p ∙ h)))

    Steps-check_rcpt : Steps (At s0) (check_rcpt fl w k a) (IsRelayedRight s0 a)
    unfolding check_rcpt
    Steps-check_rcpt = Steps-ask _ _ (λ s h. by_check s (verify_address s a) h refl)

module _ (fl : Flags) (w : World) (k : SessionConfig) where
  Steps-handle_rcpt_to :
      (s0 : Session) (to : RcptTo)
      → Steps (At s0) (handle_rcpt_to fl w k to) (IsRelayedRight s0 (new_rcpt fl w k to))
  unfolding handle_rcpt_to
  Steps-handle_rcpt_to s0 to = Steps-ask _ _ (λ s h.
      Steps-option _
        (λ e. Steps-weaken (λ t g. g ∙ h) (Steps-check_rcpt s0 fl w k (new_rcpt fl w k to)))
        (λ reply e.
          Steps-weaken {P = IsRelayedRight s0 (new_rcpt fl w k to)}
            (λ t g. inl (ap (λ t. t.session_data.rcpt_to) (g ∙ h))) (Keeps-write reply)))

  -- A RCPT command leaves the recipients as they are or adds its own address at their end, and then
  -- the server relays for the client, or the lookups name the address's domain and the address as
  -- its own.
  pub handle_rcpt_to-IsRelayedRight :
      (to : RcptTo) (c : Conn)
      → IsRelayedRight c.session (new_rcpt fl w k to) (handle_rcpt_to fl w k to c).1.session
  handle_rcpt_to-IsRelayedRight to c = stepped (Steps-handle_rcpt_to c.session to) c refl
