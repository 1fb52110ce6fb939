-- ===== src/Session/Auth.antt =====
-- src/inbound/auth.rs: the exchange of AUTH.
use smtp_server.Base.{
  ℕ, ◌+◌, Bool, true, false, ◌&&◌, ◌||◌, not, [], ◌∷◌, ◌++◌, Option, none, some, Bytes, contains,
  ltb, ◌==◌, if◌then◌else◌, is_empty,
}
use Prim.Native.String.{String}
use smtp_server.Base.Texts.{codes, line}
use smtp_server.Session.Params.{Credentials, plain, xoauth2, oauth_bearer}
use smtp_server.Session.Config.{SessionConfig, eval_post_auth_params}
use smtp_server.Session.Conn.{
  World, M, when◌then◌else◌, on_option, ◌>>=◌, ◌>>◌, pure, disconnect, ask, change, change_data,
  write,
}
use smtp_server.Session.Ehlo.{Mechanisms}

pub record SaslToken : Type 0 where
  pub mechanism : ℕ
  pub credentials : Credentials

-- What becomes of the exchange: it goes on with a token, or is over.
abbrev pub Exchange : Type 0
Exchange = Option SaslToken

abbrev pub username_of : Credentials → Bytes
username_of (plain username secret) = username
username_of (xoauth2 username secret) = username
username_of (oauth_bearer token) = token

-- `auth_error`
unfoldable pub auth_error : Bytes → M Exchange
unfolding write
auth_error response = do
  change_data (λ d. record d { auth_errors = d.auth_errors + 1 })
  write response
  s ← ask (λ s. s)
  when ltb s.session_data.auth_errors s.params.auth_errors_max
      then pure none
      else (do write (line "421 4.3.0 Too many authentication errors, disconnecting."); disconnect)

-- The arguments of PLAIN, split at the zeros: the second and the third.
unfoldable pub plain_arguments : ℕ → Bytes → Bytes → Bytes → Bytes × Bytes
plain_arguments arg username secret [] = (username, secret)
plain_arguments arg username secret (ch ∷ rest) =
    plain_arguments (if ch == 0 then arg + 1 else arg)
      (if not (ch == 0) && (arg == 1) then username ++ ch ∷ [] else username)
      (if not (ch == 0) && (arg == 2) then secret ++ ch ∷ [] else secret) rest

-- Those of XOAUTH2: what is between an equals sign and the next byte 1.
unfoldable pub xoauth2_arguments : ℕ → Bool → Bytes → Bytes → Bytes → Bytes × Bytes
xoauth2_arguments arg in_arg username secret [] = (username, secret)
xoauth2_arguments arg true username secret (ch ∷ rest) =
    xoauth2_arguments arg (not (ch == 1))
      (if not (ch == 1) && (arg == 1) then username ++ ch ∷ [] else username)
      (if not (ch == 1) && (arg == 2) then secret ++ ch ∷ [] else secret) rest
xoauth2_arguments arg false username secret (ch ∷ rest) =
    xoauth2_arguments (if ch == b'=' then arg + 1 else arg) (ch == b'=') username secret rest

abbrev pub known : Option (Credentials → Option Bool) → Credentials → Option Bool
known none credentials = none
known (some lookup) credentials = lookup credentials

module _ (mech : Mechanisms) (w : World) (k : SessionConfig) where
  -- `SaslToken::from_mechanism`
  unfoldable pub from_mechanism : ℕ → Option SaslToken
  from_mechanism m =
      if m == mech.auth_plain || (m == mech.auth_login)
      then some (record { mechanism = m; credentials = plain [] [] })
      else if m == mech.auth_oauthbearer
      then some (record { mechanism = m; credentials = oauth_bearer [] })
      else if m == mech.auth_xoauth2
      then some (record { mechanism = m; credentials = xoauth2 [] [] })
      else none

  -- `authenticate`
  unfoldable pub authenticate : Credentials → M Exchange
  unfolding auth_error eval_post_auth_params write
  authenticate credentials = do
    s ← ask (λ s. s)
    elim (known s.params.auth_lookup credentials) [
      | none ↦ do write (line "454 4.7.0 Temporary authentication failure"); pure none
      | some true ↦ do
        change_data (λ d. record d { authenticated_as = username_of credentials })
        change (eval_post_auth_params k)
        write (line "235 2.7.0 Authentication succeeded.")
        pure none
      | some false ↦ auth_error (line "535 5.7.8 Authentication credentials invalid.")
    ]

  unfoldable pub invalid_challenge : M Exchange
  unfolding auth_error
  invalid_challenge = auth_error (line "500 5.5.6 Invalid challenge.")

  unfoldable pub go_on : String → SaslToken → M Exchange
  unfolding write
  go_on reply token = do write (line reply); pure (some token)

  -- An answer of the client, decoded.
  unfoldable pub sasl_answer : SaslToken → Credentials → Bytes → M Exchange
  unfolding authenticate invalid_challenge go_on plain_arguments xoauth2_arguments
  sasl_answer token (plain username secret) response =
      when token.mechanism == mech.auth_plain
      then (let (u, p) = plain_arguments 0 [] [] response in
          when w.is_utf8 u && (w.is_utf8 p && not (is_empty u))
          then authenticate (plain u p)
          else invalid_challenge)
      else when token.mechanism == mech.auth_login
      then (when is_empty username
          then go_on "334 UGFzc3dvcmQA"
              (record token { credentials = plain (w.into_string response) secret })
          else authenticate (plain username (w.into_string response)))
      else invalid_challenge
  sasl_answer token (oauth_bearer t) response =
      when token.mechanism == mech.auth_oauthbearer
        && contains (w.into_string response) (codes "auth=")
      then authenticate (oauth_bearer (w.into_string response))
      else invalid_challenge
  sasl_answer token (xoauth2 username secret) response =
      when token.mechanism == mech.auth_xoauth2
      then (let (u, p) = xoauth2_arguments 0 false [] [] response in
          when w.is_utf8 u && (w.is_utf8 p && not (is_empty u))
          then authenticate (xoauth2 u p)
          else invalid_challenge)
      else invalid_challenge

  -- An empty answer: the client waits for the challenge.
  unfoldable pub sasl_challenge : SaslToken → Credentials → M Exchange
  unfolding invalid_challenge go_on
  sasl_challenge token credentials =
      when token.mechanism == mech.auth_plain
        || (token.mechanism == mech.auth_xoauth2 || (token.mechanism == mech.auth_oauthbearer))
      then go_on "334 Go ahead." token
      else when token.mechanism == mech.auth_login
      then elim credentials [
        | plain username secret ↦
            when is_empty username && is_empty secret
            then go_on "334 VXNlciBOYW1lAA==" token
            else invalid_challenge
        | xoauth2 username secret ↦ invalid_challenge
        | oauth_bearer t ↦ invalid_challenge
      ]
      else invalid_challenge

  -- `handle_sasl_response`
  unfoldable pub handle_sasl_response : SaslToken → Bytes → M Exchange
  unfolding sasl_challenge sasl_answer invalid_challenge
  handle_sasl_response token [] = sasl_challenge token token.credentials
  handle_sasl_response token (b ∷ bytes) =
      on_option (w.base64_decode (b ∷ bytes)) (invalid_challenge)
        (λ response. sasl_answer token token.credentials response)
