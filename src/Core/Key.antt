-- ===== src/Core/Key.antt =====
-- src/core/throttle.rs: the keys under which limiters are kept. A key is a hash of what the limit
-- goes by; the hash function is that of a package, an argument here.
use smtp_server.Base.{
  ℕ, zero, suc, ◌/◌, ◌%◌, ◌^◌, Bool, List, [], ◌∷◌, ◌++◌, Option, none, some, Bytes, ◌==◌,
  if◌then◌else◌,
}
use smtp_server.Core.Envelope.{Envelope, IpAddr, v4, v6}
use smtp_server.Core.Conditions.Eval.{Condition}

pub record Rate : Type 0 where
  pub requests : ℕ
  pub period : ℕ

-- `period.as_secs()` is the period here.
pub record Throttle : Type 0 where
  pub conditions : List Condition
  pub keys : ℕ
  pub concurrency : Option ℕ
  pub rate : Option Rate

pub record QueueQuota : Type 0 where
  pub conditions : List Condition
  pub keys : ℕ
  pub size : Option ℕ
  pub messages : Option ℕ

-- `THROTTLE_RCPT` and the flags behind it, each by its position
abbrev pub has_key : ℕ → ℕ → Bool
has_key keys position = keys / 2 ^ position % 2 == 1

-- `to_ne_bytes`, on a little-endian machine, of a word of so many bytes
unfoldable pub le_bytes : ℕ → ℕ → Bytes
le_bytes zero n = []
le_bytes (suc k) n = n % 2 ^ 8 ∷ le_bytes k (n / 2 ^ 8)

abbrev be_bytes : ℕ → ℕ → Bytes → Bytes
be_bytes zero n bytes = bytes
be_bytes (suc k) n bytes = be_bytes k (n / 2 ^ 8) (n % 2 ^ 8 ∷ bytes)

-- `ip.octets()`
unfoldable pub octets : IpAddr → Bytes
octets (v4 ip) = be_bytes 4 ip []
octets (v6 ip) = be_bytes 16 ip []

abbrev pub part : Bool → Bytes → Bytes
part b bytes = if b then bytes else []

-- The empty sender is hashed as `<>`.
abbrev pub or_null : Bytes → Bytes
or_null [] = b'<' ∷ b'>' ∷ []
or_null (b ∷ bytes) = b ∷ bytes

abbrev option_bytes : Option ℕ → Bytes
option_bytes none = []
option_bytes (some n) = le_bytes 8 n

abbrev rate_bytes : Option Rate → Bytes
rate_bytes none = []
rate_bytes (some rate) = le_bytes 8 rate.period ++ le_bytes 8 rate.requests

-- What `QueueQuota::new_key` hashes.
unfoldable pub quota_key : QueueQuota → Envelope → Bytes
unfolding le_bytes
quota_key quota e =
    part (has_key quota.keys 0) e.rcpt
    ++ (part (has_key quota.keys 1) e.rcpt_domain
        ++ (part (has_key quota.keys 2) (or_null e.sender)
            ++ (part (has_key quota.keys 3) (or_null e.sender_domain)
                ++ (option_bytes quota.messages ++ option_bytes quota.size))))

-- What `Throttle::new_key` hashes.
unfoldable pub throttle_key : Throttle → Envelope → Bytes
unfolding le_bytes octets
throttle_key t e =
    part (has_key t.keys 0) e.rcpt
    ++ (part (has_key t.keys 1) e.rcpt_domain
        ++ (part (has_key t.keys 2) (or_null e.sender)
            ++ (part (has_key t.keys 3) (or_null e.sender_domain)
                ++ (part (has_key t.keys 9) e.helo_domain
                    ++ (part (has_key t.keys 4) e.authenticated_as
                        ++ (part (has_key t.keys 5) (le_bytes 2 e.listener_id)
                            ++ (part (has_key t.keys 6) e.mx
                                ++ (part (has_key t.keys 7) (octets e.remote_ip)
                                    ++ (part (has_key t.keys 8) (octets e.local_ip)
                                        ++ (rate_bytes t.rate
                                            ++ option_bytes t.concurrency))))))))))
