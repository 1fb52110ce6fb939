-- ===== src/Session/Conn.antt =====
-- A connection, as the handlers of src/inbound change it. A handler answers, or ends the session
-- (`Err(())`); what it has changed stays changed. The stream takes so many writes and fails then.
--
-- Reports to the sender's domain, which a handler may send on its way, are left out.
pub mod Keeps
use smtp_server.Base.{
  ℕ, zero, suc, ◌+◌, ◌/◌, ◌*◌, ◌^◌, Bool, true, false, List, [], ◌∷◌, ◌++◌, Option, none, some,
  Bytes, any, ◌==◌,
}
use smtp_server.Core.Envelope.{IpAddr}
use smtp_server.Queue.Throttle.{Table}
use smtp_server.Session.Params.{Credentials}
use smtp_server.Session.State.{Session, SessionData, Verdict, IprevOutput}
use smtp_server.Session.Config.{SessionConfig}
use smtp_server.Session.Throttle.{session_is_allowed}

-- What a handler asks of packages, of the network and of the clocks.
pub record World : Type 0 where
  pub instant_now : ℕ
  pub system_now : ℕ
  pub blake3 : Bytes → Bytes
  pub to_lowercase : Bytes → Bytes
  pub has_labels : Bytes → Bool
  pub base64_decode : Bytes → Option Bytes
  pub into_string : Bytes → Bytes
  pub is_utf8 : Bytes → Bool
  pub ipv4_lookup : Bytes → Option (List ℕ)
  pub iprev_of : IpAddr → IprevOutput
  pub verify_spf_helo : IpAddr → Bytes → Bytes → Verdict
  pub check_host : IpAddr → Bytes → Bytes → Bytes → Bytes → Verdict
  pub run_script : ℕ → Session → Option Bytes
  pub dnsbl_domains : List Bytes
  pub dnsbl_ips : List Bytes

pub record Conn : Type 0 where
  pub session : Session
  pub table : Table
  pub written : List Bytes
  pub writes_left : ℕ
  pub panicked : Bool

abbrev pub M : Type 0 → Type 0
M A = Conn → Option A × Conn

infixl 5 ◌>>=◌ ◌>>◌
unfoldable pub ◌>>=◌ : {A B : Type 0} → M A → (A → M B) → M B
◌>>=◌ m f c = let r = m c in elim r.0 [ none ↦ (none, r.1) | some a ↦ f a r.1 ]

unfoldable pub ◌>>◌ : {B : Type 0} → M (Unit {0}) → M B → M B
unfolding ◌>>=◌
m >> k = m >>= λ _. k

unfoldable pub pure : {A : Type 0} → A → M A
pure a c = (some a, c)

-- `Err(())`
unfoldable pub disconnect : {A : Type 0} → M A
disconnect c = (none, c)

-- `unwrap` of nothing ends the session's task.
unfoldable pub panic : {A : Type 0} → M A
panic c = (none, record c { panicked = true })

unfoldable pub ask : {A : Type 0} → (Session → A) → M A
ask f c = (some (f c.session), c)

unfoldable pub change : (Session → Session) → M (Unit {0})
change f c = (some tt, record c { session = f c.session })

unfoldable pub change_data : (SessionData → SessionData) → M (Unit {0})
unfolding change
change_data f = change (λ s. record s { session_data = f s.session_data })

unfoldable pub on_option : {A B : Type 0} → Option A → M B → (A → M B) → M B
on_option none m f = m
on_option (some a) m f = f a

-- A branch of a handler.
infix 1 when◌then◌else◌
unfoldable pub when◌then◌else◌ : {A : Type 0} → Bool → M A → M A → M A
when true then m else n = m
when false then m else n = n

-- `Session::write`
unfoldable pub write : Bytes → M (Unit {0})
write bytes c = elim c.writes_left [
  | zero ↦ (none, c)
  | suc n ↦ (some tt, record c { written = c.written ++ bytes ∷ []; writes_left = n })
]

-- `self.is_allowed()`
unfoldable pub throttle_allows : World → SessionConfig → M Bool
throttle_allows w k c =
    let r = session_is_allowed w.blake3 w.instant_now k.throttle c.session c.table in
    (some r.0, record c { session = r.1; table = r.2 })

-- `is_dns_blocked`: an answer in 127.0/16
unfoldable pub is_dns_blocked : World → Bytes → Bool
is_dns_blocked w domain = elim (w.ipv4_lookup domain) [
  | none ↦ false
  | some ips ↦ any (λ ip. ip / 2 ^ 16 == 127 * 256) ips
]
