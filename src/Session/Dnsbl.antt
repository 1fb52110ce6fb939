-- ===== src/Session/Dnsbl.antt =====
-- src/inbound/ehlo.rs: the DNS block lists.
use smtp_server.Base.{
  ℕ, zero, suc, ◌-◌, ◌/◌, ◌%◌, ◌^◌, ◌+◌, Bool, true, false, List, [], ◌∷◌, ◌++◌, Option, none, some,
  Bytes, ◌==◌, ltb, if◌then◌else◌,
}
use smtp_server.Base.Texts.{codes}
use smtp_server.Base.Decimal.{decimal}
use smtp_server.Core.Envelope.{IpAddr, v4, v6, ip_to_string}
use smtp_server.Queue.Message.{has_flag}
use smtp_server.Session.Conn.{
  World, M, when◌then◌else◌, on_option, ◌>>=◌, ◌>>◌, pure, ask, change_data, write, is_dns_blocked,
}

abbrev pub dnsbl_ip : ℕ
dnsbl_ip = 1

abbrev pub dnsbl_iprev : ℕ
dnsbl_iprev = 2

abbrev pub dnsbl_ehlo : ℕ
dnsbl_ehlo = 4

abbrev pub dnsbl_return_path : ℕ
dnsbl_return_path = 8

abbrev pub ends_with_dot : Bytes → Bool
ends_with_dot [] = false
ends_with_dot (b ∷ []) = b == b'.'
ends_with_dot (b ∷ c ∷ bytes) = ends_with_dot (c ∷ bytes)

-- The list that blocks, if one does.
unfoldable pub blocking : World → (Bytes → Bytes) → List Bytes → Option Bytes
unfolding is_dns_blocked
blocking w query [] = none
blocking w query (d ∷ ds) =
    let rest = blocking w query ds in if is_dns_blocked w (query d) then some d else rest

abbrev pub domain_query : World → Bytes → Bytes → Bytes
domain_query w domain dnsbl =
    let d = w.to_lowercase domain in
    if ends_with_dot domain then d ++ dnsbl else d ++ (b'.' ∷ dnsbl)

-- `is_domain_dnsbl_allowed`
unfoldable pub is_domain_dnsbl_allowed : World → Bytes → ℕ → M Bool
unfolding blocking
is_domain_dnsbl_allowed w domain policy_type = do
  s ← ask (λ s. s)
  on_option
      (if has_flag s.params.dnsbl_policy policy_type
        then blocking w (domain_query w domain) w.dnsbl_domains
        else none)
      (pure true)
      (λ dnsbl. do
        change_data (λ d. record d {
          dnsbl_error = some (
              codes "554 5.7.1 Service unavailable; Domain '"
              ++ (domain ++ (codes "' blocked using " ++ (dnsbl ++ (13 ∷ 10 ∷ [])))));
        })
        pure false)

reversed_octets : ℕ → ℕ → Bytes → Bytes
reversed_octets zero ip host = host
reversed_octets (suc k) ip host =
    decimal (ip % 2 ^ 8) ++ (b'.' ∷ reversed_octets k (ip / 2 ^ 8) host)

hex_digit : ℕ → ℕ
hex_digit d = if ltb d 10 then b'0' + d else b'a' + (d - 10)

reversed_nibbles : ℕ → ℕ → Bytes → Bytes
unfolding hex_digit
reversed_nibbles zero ip host = host
reversed_nibbles (suc k) ip host = hex_digit (ip % 16) ∷ b'.' ∷ reversed_nibbles k (ip / 16) host

-- `to_dnsbl`: four hexadecimal digits for each segment of an IPv6 address, the last digit first.
unfoldable pub to_dnsbl : IpAddr → Bytes → Bytes
unfolding reversed_octets reversed_nibbles
to_dnsbl (v4 ip) dnsbl = reversed_octets 4 ip dnsbl
to_dnsbl (v6 ip) dnsbl = reversed_nibbles 32 ip dnsbl

-- `verify_ip_dnsbl`
unfoldable pub verify_ip_dnsbl : World → M Bool
unfolding blocking to_dnsbl ip_to_string
verify_ip_dnsbl w = do
  s ← ask (λ s. s)
  on_option
      (if has_flag s.params.dnsbl_policy dnsbl_ip
        then blocking w (to_dnsbl s.session_data.remote_ip) w.dnsbl_ips
        else none)
      (pure true)
      (λ dnsbl. do
        change_data (λ d. record d {
          dnsbl_error = some (
              codes "554 5.7.1 Service unavailable; IP address "
              ++ (ip_to_string s.session_data.remote_ip
                  ++ (codes " blocked using " ++ (dnsbl ++ (13 ∷ 10 ∷ [])))));
        })
        pure false)

unfoldable pub write_dnsbl_error : M (Unit {0})
unfolding write
write_dnsbl_error = do
  s ← ask (λ s. s)
  on_option s.session_data.dnsbl_error (pure tt) (λ error. write error)

-- `reset_dnsbl_error`
abbrev pub reset_dnsbl_error : M (Unit {0})
reset_dnsbl_error = change_data (λ d. record d { dnsbl_error = none })
