-- ===== src/Core/Envelope.antt =====
-- src/core/mod.rs: the envelope, what a rule or a throttle can ask about a message or a session.
-- The trait's methods take no argument but the value: they are the fields here. An IPv4 address is
-- its 32 bits as a number, an IPv6 address its 128 bits.
use smtp_server.Base.{
  ℕ, suc, ◌+◌, ◌-◌, ◌/◌, ◌%◌, ◌^◌, List, [], ◌∷◌, ◌++◌, Bytes, ltb, ◌==◌, take, drop, if◌then◌else◌,
}
use smtp_server.Base.Decimal.{decimal}

pub data IpAddr : Type 0 where
  v4 : ℕ → IpAddr
  v6 : ℕ → IpAddr

pub data EnvelopeKey : Type 0 where
  recipient recipient_domain sender sender_domain mx helo_domain authenticated_as listener :
      EnvelopeKey
  remote_ip local_ip priority : EnvelopeKey

pub record Envelope : Type 0 where
  pub local_ip : IpAddr
  pub remote_ip : IpAddr
  pub sender_domain : Bytes
  pub sender : Bytes
  pub rcpt_domain : Bytes
  pub rcpt : Bytes
  pub helo_domain : Bytes
  pub authenticated_as : Bytes
  pub mx : Bytes
  pub listener_id : ℕ
  pub priority : ℕ

-- `0.0.0.0`
abbrev pub unspecified : IpAddr
unspecified = v4 0

v4_to_string : ℕ → Bytes
v4_to_string ip =
    decimal (ip / 2 ^ 24)
    ++ (b'.'
        ∷ (decimal (ip / 2 ^ 16 % 2 ^ 8)
            ++ (b'.' ∷ (decimal (ip / 2 ^ 8 % 2 ^ 8) ++ (b'.' ∷ decimal (ip % 2 ^ 8))))))

-- An IPv6 address is written in hexadecimal, the first longest run of two zeros or more left out.
hex_digit : ℕ → ℕ
hex_digit d = if ltb d 10 then b'0' + d else b'a' + (d - 10)

hex : ℕ → Bytes
unfolding hex_digit
hex n =
    if ltb n 16
    then hex_digit n ∷ []
    else if ltb n 256
    then hex_digit (n / 16) ∷ hex_digit (n % 16) ∷ []
    else if ltb n 4_096
    then hex_digit (n / 256) ∷ hex_digit (n / 16 % 16) ∷ hex_digit (n % 16) ∷ []
    else hex_digit (n / 4_096)
      ∷ hex_digit (n / 256 % 16)
      ∷ hex_digit (n / 16 % 16)
      ∷ hex_digit (n % 16)
      ∷ []

segments : ℕ → List ℕ
segments ip =
    ip / 2 ^ 112
    ∷ ip / 2 ^ 96 % 2 ^ 16
    ∷ ip / 2 ^ 80 % 2 ^ 16
    ∷ ip / 2 ^ 64 % 2 ^ 16
    ∷ ip / 2 ^ 48 % 2 ^ 16
    ∷ ip / 2 ^ 32 % 2 ^ 16
    ∷ ip / 2 ^ 16 % 2 ^ 16
    ∷ ip % 2 ^ 16
    ∷ []

joined : List ℕ → Bytes
unfolding hex
joined [] = []
joined (x ∷ []) = hex x
joined (x ∷ y ∷ xs) = hex x ++ (b':' ∷ joined (y ∷ xs))

-- The start and length of the longest run of zeros, and those of the run that is being read.
zero_run : ℕ → ℕ × ℕ → ℕ × ℕ → List ℕ → ℕ × ℕ
zero_run i longest current [] = longest
zero_run i longest (start, len) (x ∷ xs) =
    let here : ℕ × ℕ = if x == 0 then ((if len == 0 then i else start), suc len) else (0, 0) in
    zero_run (suc i) (if ltb longest.1 here.1 then here else longest) here xs

v6_to_string : ℕ → Bytes
unfolding v4_to_string segments joined zero_run
v6_to_string ip =
    let parts = segments ip in
    let run = zero_run 0 (0, 0) (0, 0) parts in
    if ip / 2 ^ 32 == 65_535
    then b':' ∷ b':' ∷ b'f' ∷ b'f' ∷ b'f' ∷ b'f' ∷ b':' ∷ v4_to_string (ip % 2 ^ 32)
    else if ltb 1 run.1
    then joined (take run.0 parts) ++ (b':' ∷ b':' ∷ joined (drop (run.0 + run.1) parts))
    else joined parts

unfoldable pub ip_to_string : IpAddr → Bytes
unfolding v4_to_string v6_to_string
ip_to_string (v4 ip) = v4_to_string ip
ip_to_string (v6 ip) = v6_to_string ip

-- An `i16` is its two's complement pattern.
unfoldable pub i16_to_string : ℕ → Bytes
i16_to_string w = if ltb w (2 ^ 15) then decimal w else b'-' ∷ decimal (2 ^ 16 - w)

unfoldable pub key_to_string : Envelope → EnvelopeKey → Bytes
unfolding ip_to_string i16_to_string
key_to_string e recipient = e.rcpt
key_to_string e recipient_domain = e.rcpt_domain
key_to_string e sender = e.sender
key_to_string e sender_domain = e.sender_domain
key_to_string e mx = e.mx
key_to_string e authenticated_as = e.authenticated_as
key_to_string e helo_domain = e.helo_domain
key_to_string e listener = decimal e.listener_id
key_to_string e remote_ip = ip_to_string e.remote_ip
key_to_string e local_ip = ip_to_string e.local_ip
key_to_string e priority = i16_to_string e.priority
