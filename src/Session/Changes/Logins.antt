-- ===== src/Session/Changes/Logins.antt =====
-- The exchange of AUTH changes a session by the steps.
use Prim.Native.String.{String}
use smtp_server.Base.Texts.{line, codes}
use smtp_server.Base.{
  ◌≡◌, refl, sym, subst, Bool, true, false, not, [], ◌∷◌, Option, none, some, Bytes, ◌&&◌, arith,
  contains, if◌then◌else◌, is_empty,
}
use smtp_server.Session.Conn.{World, ◌>>◌, when◌then◌else◌, pure, change, change_data, write}
use smtp_server.Session.Conn.Keeps.{
  Steps, Keeps, At, Steps-then, Steps-ask, Steps-change, Steps-change_data, Steps-if, Steps-option,
  Keeps-then, Keeps-pure, Keeps-disconnect, Keeps-write, at,
}
use smtp_server.Session.Changes.{parameters, authenticated, Reach, next}
use smtp_server.Session.Changes.Asides.{by_aside}
use smtp_server.Session.State.{Session}
use smtp_server.Session.Config.{SessionConfig, eval_post_auth_params}
use smtp_server.Session.Params.{Credentials, plain, xoauth2, oauth_bearer}
use smtp_server.Session.Ehlo.{Mechanisms}
use smtp_server.Session.Auth.{
  SaslToken, Exchange, username_of, auth_error, known, authenticate, invalid_challenge, go_on,
  sasl_answer, sasl_challenge, handle_sasl_response,
}

module _ (s0 : Session) (mech : Mechanisms) (w : World) (k : SessionConfig) where
  pub Keeps-auth_error : (response : Bytes) → Keeps (Reach s0) (auth_error response)
  unfolding auth_error
  Keeps-auth_error response = Keeps-then (by_aside s0 _ (λ d. (refl, refl, refl, refl))) (
      Keeps-then (Keeps-write response) (
        Steps-ask _ _ (λ s r.
          at r (
            Steps-if _ (λ e. Keeps-pure none) (λ e. Keeps-then (Keeps-write _) Keeps-disconnect)))))

  by_eval_post_auth_params : Keeps (Reach s0) (change (eval_post_auth_params k))
  unfolding eval_post_auth_params
  by_eval_post_auth_params = Steps-change _ (λ s r. next r (parameters s _ refl refl))

  abbrev named_as : Credentials → Session → Session
  named_as c s = record s {
    session_data = record s.session_data { authenticated_as = username_of c };
  }

  answered_lookup :
      (c : Credentials) (s : Session) (o : Option Bool)
      → Reach s0 s
      → is_empty (username_of c) ≡ false
      → known s.params.auth_lookup c ≡ o
      → Steps {A = Exchange}
          (At s)
          (elim o [
            | none ↦ write (line "454 4.7.0 Temporary authentication failure") >> pure none
            | some true ↦
                change_data (λ d. record d { authenticated_as = username_of c })
                >> (change (eval_post_auth_params k)
                    >> (write (line "235 2.7.0 Authentication succeeded.") >> pure none))
            | some false ↦ auth_error (line "535 5.7.8 Authentication credentials invalid.")
          ])
          (Reach s0)
  answered_lookup c s none r h l = at r (Keeps-then (Keeps-write _) (Keeps-pure none))
  answered_lookup c s (some true) r h l =
      Steps-then
        (Steps-change_data _
          (λ t e. subst (λ t. Reach s0 (named_as c t)) (sym e) (next r (authenticated s c l h))))
        (λ t r. r)
        (Keeps-then by_eval_post_auth_params (Keeps-then (Keeps-write _) (Keeps-pure none)))
  answered_lookup c s (some false) r h l = at r (Keeps-auth_error _)

  Keeps-authenticate :
      (c : Credentials)
      → is_empty (username_of c) ≡ false
      → Keeps (Reach s0) (authenticate mech w k c)
  unfolding authenticate
  Keeps-authenticate c h =
      Steps-ask _ _ (λ s r. answered_lookup c s (known s.params.auth_lookup c) r h refl)

  Keeps-invalid_challenge : Keeps (Reach s0) (invalid_challenge mech w k)
  unfolding invalid_challenge
  Keeps-invalid_challenge = Keeps-auth_error _

  Keeps-go_on : (reply : String) (token : SaslToken) → Keeps (Reach s0) (go_on mech w k reply token)
  unfolding go_on
  Keeps-go_on reply token = Keeps-then (Keeps-write _) (Keeps-pure (some token))

  -- A name that is checked is not empty.
  named : (a b : Bool) (u : Bytes) → a && (b && not (is_empty u)) ≡ true → is_empty u ≡ false
  named a b u h = ground (arith, h)

  bearer : (response : Bytes) → contains response (codes "auth=") ≡ true → is_empty response ≡ false
  unfolding contains
  bearer [] h = cc h
  bearer (b ∷ bytes) h = refl

  Keeps-sasl_answer :
      (token : SaslToken) (c : Credentials) (response : Bytes)
      → Keeps (Reach s0) (sasl_answer mech w k token c response)
  unfolding sasl_answer
  Keeps-sasl_answer token (plain username secret) response =
      Steps-if _
        (λ e. Steps-if _ (λ h. Keeps-authenticate _ (named _ _ _ h)) (λ h. Keeps-invalid_challenge))
        (λ e.
          Steps-if _
            (λ e. Steps-if _ (λ h. Keeps-go_on "334 UGFzc3dvcmQA" _) (λ h. Keeps-authenticate _ h))
            (λ e. Keeps-invalid_challenge))
  Keeps-sasl_answer token (oauth_bearer t) response =
      Steps-if _ (λ h. Keeps-authenticate _ (bearer (w.into_string response) (ground (arith, h))))
        (λ h. Keeps-invalid_challenge)
  Keeps-sasl_answer token (xoauth2 username secret) response =
      Steps-if _
        (λ e. Steps-if _ (λ h. Keeps-authenticate _ (named _ _ _ h)) (λ h. Keeps-invalid_challenge))
        (λ e. Keeps-invalid_challenge)

  challenged :
      (token : SaslToken) (c : Credentials)
      → Keeps (Reach s0) (elim c [
        | plain username secret ↦
            when is_empty username && is_empty secret
            then go_on mech w k "334 VXNlciBOYW1lAA==" token
            else invalid_challenge mech w k
        | xoauth2 username secret ↦ invalid_challenge mech w k
        | oauth_bearer t ↦ invalid_challenge mech w k
      ])
  challenged token (plain username secret) =
      Steps-if _ (λ h. Keeps-go_on "334 VXNlciBOYW1lAA==" token) (λ h. Keeps-invalid_challenge)
  challenged token (xoauth2 username secret) = Keeps-invalid_challenge
  challenged token (oauth_bearer t) = Keeps-invalid_challenge

  Keeps-sasl_challenge :
      (token : SaslToken) (c : Credentials) → Keeps (Reach s0) (sasl_challenge mech w k token c)
  unfolding sasl_challenge
  Keeps-sasl_challenge token c =
      Steps-if _ (λ e. Keeps-go_on "334 Go ahead." token)
        (λ e. Steps-if _ (λ e. challenged token c) (λ e. Keeps-invalid_challenge))

  pub Keeps-handle_sasl_response :
      (token : SaslToken) (text : Bytes)
      → Keeps (Reach s0) (handle_sasl_response mech w k token text)
  unfolding handle_sasl_response
  Keeps-handle_sasl_response token [] = Keeps-sasl_challenge token token.credentials
  Keeps-handle_sasl_response token (b ∷ bytes) =
      Steps-option _ (λ e. Keeps-invalid_challenge)
        (λ response e. Keeps-sasl_answer token token.credentials response)
