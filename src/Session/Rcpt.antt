-- ===== src/Session/Rcpt.antt =====
-- src/inbound/rcpt.rs: the RCPT command.
pub mod Relay
use smtp_server.Base.{
  ℕ, ◌+◌, Bool, true, false, ◌&&◌, ◌||◌, not, List, [], ◌∷◌, ◌++◌, Option, none, some, Bytes,
  bytes_eq, ltb, leb, length, any, if◌then◌else◌, is_some,
}
use smtp_server.Base.Texts.{line}
use smtp_server.Queue.Message.{has_flag, domain_part}
use smtp_server.Session.State.{Session, SessionData, SessionAddress}
use smtp_server.Session.Config.{SessionConfig}
use smtp_server.Session.Conn.{
  World, Conn, M, when◌then◌else◌, on_option, ◌>>=◌, ◌>>◌, pure, disconnect, ask, change_data,
  write, throttle_allows,
}
use smtp_server.Base.Flags.{Flags}

pub record RcptTo : Type 0 where
  pub rcpt_address : Bytes
  pub rcpt_flags : ℕ
  pub orcpt : Option Bytes

-- What the lookups say of an address: it is taken, refused as an error, or not known now.
pub data AddressCheck : Type 0 where
  taken unsure : AddressCheck
  refused : Bytes → AddressCheck

abbrev relayed : Bool → AddressCheck
relayed true = taken
relayed false = refused (line "550 5.1.2 Relay not allowed.")

abbrev local_check : Option Bool → AddressCheck
local_check none = unsure
local_check (some true) = taken
local_check (some false) = refused (line "550 5.1.2 Mailbox does not exist.")

unfoldable pub verify_address : Session → SessionAddress → AddressCheck
verify_address s a = elim s.params.rcpt_lookup_domain [
  | none ↦ relayed s.params.rcpt_relay
  | some domain_lookup ↦ elim s.params.rcpt_lookup_addresses [
    | none ↦ relayed s.params.rcpt_relay
    | some address_lookup ↦ elim (domain_lookup a.domain) [
      | none ↦ unsure
      | some true ↦ local_check (address_lookup a.address_lcase)
      | some false ↦ relayed s.params.rcpt_relay
    ]
  ]
]

-- Addresses are equal if they are in lower case.
abbrev pub has_address : SessionAddress → List SessionAddress → Bool
has_address a addresses = any (λ b. bytes_eq b.address_lcase a.address_lcase) addresses

-- `Vec::pop`
abbrev pub pop : List SessionAddress → List SessionAddress
pop [] = []
pop (a ∷ []) = []
pop (a ∷ b ∷ addresses) = a ∷ pop (b ∷ addresses)

abbrev pub push_rcpt : SessionAddress → M (Unit {0})
push_rcpt a = change_data (λ d. record d { rcpt_to = d.rcpt_to ++ a ∷ [] })

abbrev pub pop_rcpt : M (Unit {0})
pop_rcpt = change_data (λ d. record d { rcpt_to = pop d.rcpt_to })

-- `rcpt_error`
unfoldable pub rcpt_error : Bytes → M (Unit {0})
unfolding write
rcpt_error response = do
  change_data (λ d. record d { rcpt_errors = d.rcpt_errors + 1 })
  write response
  s ← ask (λ s. s)
  when ltb s.session_data.rcpt_errors s.params.rcpt_errors_max
      then pure tt
      else (do write (line "421 4.3.0 Too many errors, disconnecting."); disconnect)

module _ (fl : Flags) (w : World) (k : SessionConfig) where
  abbrev pub new_rcpt : RcptTo → SessionAddress
  unfolding domain_part
  new_rcpt to = record {
    address = to.rcpt_address;
    address_lcase = w.to_lowercase to.rcpt_address;
    domain = domain_part (w.to_lowercase to.rcpt_address);
    flags = to.rcpt_flags;
    dsn_info = to.orcpt;
  }

  abbrev pub asks_notice : ℕ → Bool
  asks_notice flags =
      has_flag flags fl.rcpt_notify_delay
      || (has_flag flags fl.rcpt_notify_never
          || (has_flag flags fl.rcpt_notify_success || has_flag flags fl.rcpt_notify_failure))

  -- The reply of the guards, if one of them holds.
  unfoldable pub rcpt_refusal : RcptTo → Session → Option Bytes
  rcpt_refusal to s =
      if not (is_some s.session_data.mail_from)
      then some (line "503 5.5.1 MAIL is required first.")
      else if leb s.params.rcpt_max (length s.session_data.rcpt_to)
      then some (line "451 4.5.3 Too many recipients.")
      else if (asks_notice to.rcpt_flags || is_some to.orcpt) && not s.params.rcpt_dsn
      then some (line "501 5.5.4 DSN extension has been disabled.")
      else none

  unfoldable pub admit_rcpt : M (Unit {0})
  unfolding throttle_allows write
  admit_rcpt = do
    allowed ← throttle_allows w k
    when allowed
        then write (line "250 2.1.5 OK")
        else (do pop_rcpt; write (line "451 4.4.5 Rate limit exceeded, try again later."))

  unfoldable pub add_rcpt : SessionAddress → M (Unit {0})
  unfolding admit_rcpt write
  add_rcpt a = do
    push_rcpt a
    s ← ask (λ s. s)
    on_option s.params.rcpt_script (admit_rcpt) (λ script.
        on_option (w.run_script script s) (admit_rcpt) (λ message. do pop_rcpt; write message))

  unfoldable pub check_rcpt : SessionAddress → M (Unit {0})
  unfolding verify_address rcpt_error add_rcpt write
  check_rcpt a = do
    s ← ask (λ s. s)
    elim (verify_address s a) [
      | unsure ↦ write (line "451 4.4.3 Unable to verify address at this time.")
      | refused response ↦ rcpt_error response
      | taken ↦
          when has_address a s.session_data.rcpt_to then write (line "250 2.1.5 OK") else add_rcpt a
    ]

  -- `handle_rcpt_to`
  unfoldable pub handle_rcpt_to : RcptTo → M (Unit {0})
  unfolding rcpt_refusal check_rcpt write
  handle_rcpt_to to = do
    s ← ask (λ s. s)
    on_option (rcpt_refusal to s) (check_rcpt (new_rcpt to)) (λ reply. write reply)
