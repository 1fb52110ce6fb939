-- ===== src/Core/Conditions/Mask.antt =====
-- `IpAddrMask::matches` and what it takes from the address types.
use smtp_server.Base.{
  ℕ, zero, suc, ◌+◌, ◌-◌, ◌*◌, ◌/◌, ◌%◌, ◌^◌, Bool, false, ◌&&◌, ◌||◌, Option, none, some, ◌==◌,
  if◌then◌else◌,
}
use smtp_server.Core.Envelope.{IpAddr, v4, v6}

pub data IpAddrMask : Type 0 where
  mask_v4 : ℕ → ℕ → IpAddrMask
  mask_v6 : ℕ → ℕ → IpAddrMask

-- `a & b` of two words of so many bits.
unfoldable pub bit_and : ℕ → ℕ → ℕ → ℕ
bit_and zero a b = 0
bit_and (suc w) a b = (if a % 2 == 1 && (b % 2 == 1) then 1 else 0) + 2 * bit_and w (a / 2) (b / 2)

abbrev pub to_ipv6_mapped : ℕ → ℕ
to_ipv6_mapped ip = 65_535 * 2 ^ 32 + ip

-- `::ffff:a.b.c.d`
abbrev pub to_ipv4_mapped : ℕ → Option ℕ
to_ipv4_mapped ip = if ip / 2 ^ 32 == 65_535 then some (ip % 2 ^ 32) else none

-- `::ffff:a.b.c.d` and `::a.b.c.d`
abbrev pub to_ipv4 : ℕ → Option ℕ
to_ipv4 ip = if ip / 2 ^ 32 == 65_535 || (ip / 2 ^ 32 == 0) then some (ip % 2 ^ 32) else none

abbrev is_some_of : (ℕ → Bool) → Option ℕ → Bool
is_some_of test none = false
is_some_of test (some ip) = test ip

unfoldable pub matches : IpAddrMask → IpAddr → Bool
unfolding bit_and
matches (mask_v4 addr mask) (v4 ip) =
    if mask == 2 ^ 32 - 1 then addr == ip else bit_and 32 ip mask == bit_and 32 addr mask
matches (mask_v4 addr mask) (v6 ip) =
    if mask == 2 ^ 32 - 1
    then is_some_of (λ r. addr == r) (to_ipv4_mapped ip)
    else is_some_of (λ r. bit_and 32 r mask == bit_and 32 addr mask) (to_ipv4 ip)
matches (mask_v6 addr mask) (v6 ip) =
    if mask == 2 ^ 128 - 1 then ip == addr else bit_and 128 ip mask == bit_and 128 addr mask
matches (mask_v6 addr mask) (v4 ip) =
    if mask == 2 ^ 128 - 1
    then to_ipv6_mapped ip == addr
    else bit_and 128 (to_ipv6_mapped ip) mask == bit_and 128 addr mask
