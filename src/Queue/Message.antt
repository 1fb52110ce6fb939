-- ===== src/Queue/Message.antt =====
-- src/queue/mod.rs: the message, its domains and recipients, and the delivery status of each.
--
-- A `String` is the list of its bytes, `Serialize.Text.IsText` saying that they are UTF-8. A
-- machine word is a number with its range in the invariants; `i16` is its two's complement
-- pattern below 2 ^ 16. An `Instant` is a number of nanoseconds since an origin of the clock.
use smtp_server.Base.{
  ℕ, ◌+◌, ◌-◌, ◌*◌, ◌/◌, ◌%◌, ◌^◌, Bool, true, false, List, [], ◌∷◌, Option, Bytes, ltb, ◌==◌,
  if◌then◌else◌,
}

pub data Status (T E : Type 0) : Type 0 where
  scheduled : Status T E
  completed : T → Status T E
  temporary_failure : E → Status T E
  permanent_failure : E → Status T E

pub record Response : Type 0 where
  pub code : ℕ
  pub esc0 : ℕ
  pub esc1 : ℕ
  pub esc2 : ℕ
  pub message : Bytes

pub record HostResponse (T : Type 0) : Type 0 where
  pub hostname : T
  pub response : Response

pub record ErrorDetails : Type 0 where
  pub entity : Bytes
  pub details : Bytes

pub data Error : Type 0 where
  dns_error : Bytes → Error
  unexpected_response : HostResponse ErrorDetails → Error
  connection_error tls_error dane_error : ErrorDetails → Error
  mta_sts_error : Bytes → Error
  rate_limited concurrency_limited : Error
  io : Bytes → Error

pub record Schedule (T : Type 0) : Type 0 where
  pub due : ℕ
  pub inner : T

pub record Domain : Type 0 where
  pub domain : Bytes
  pub retry : Schedule ℕ
  pub notify : Schedule ℕ
  pub expires : ℕ
  pub status : Status Unit Error
  pub changed : Bool

pub record Recipient : Type 0 where
  pub domain_idx : ℕ
  pub address : Bytes
  pub address_lcase : Bytes
  pub status : Status (HostResponse Bytes) (HostResponse ErrorDetails)
  pub flags : ℕ
  pub orcpt : Option Bytes

-- The limiter is shared (an `Arc`): it is the limiter's place in the store of limiters.
pub record UsedQuota : Type 0 where
  pub id : ℕ
  pub size : ℕ
  pub limiter : ℕ

pub record Message : Type 0 where
  pub id : ℕ
  pub created : ℕ
  pub path : Bytes
  pub return_path : Bytes
  pub return_path_lcase : Bytes
  pub return_path_domain : Bytes
  pub recipients : List Recipient
  pub domains : List Domain
  pub flags : ℕ
  pub env_id : Option Bytes
  pub priority : ℕ
  pub size : ℕ
  pub queue_refs : List UsedQuota

-- `matches!(status, Status::Scheduled | Status::TemporaryFailure(_))`
abbrev pub is_pending : {T E : Type 0} → Status T E → Bool
is_pending scheduled = true
is_pending (temporary_failure _) = true
is_pending (completed _) = false
is_pending (permanent_failure _) = false

-- `matches!(status, Status::Completed(_) | Status::PermanentFailure(_))`
abbrev pub is_final : {T E : Type 0} → Status T E → Bool
is_final (completed _) = true
is_final (permanent_failure _) = true
is_final scheduled = false
is_final (temporary_failure _) = false

-- `RCPT_STATUS_CHANGED`, `2 << 32`
abbrev pub rcpt_status_changed : ℕ
rcpt_status_changed = 2 * 2 ^ 32

-- `has_flag`, `|=` and `&= !` for a flag of one bit
abbrev pub has_flag : ℕ → ℕ → Bool
has_flag flags flag = flags / flag % 2 == 1

abbrev pub with_flag : ℕ → ℕ → ℕ
with_flag flags flag = if has_flag flags flag then flags else flags + flag

abbrev pub without_flag : ℕ → ℕ → ℕ
without_flag flags flag = if has_flag flags flag then flags - flag else flags

-- `rsplit_once('@').map(|(_, d)| d).unwrap_or_default()`; the flag is whether an `@` was seen.
abbrev domain_after : Bool → Bytes → Bytes → Bytes
domain_after seen current [] = if seen then current else []
domain_after seen current (c ∷ cs) =
    if c == b'@' then domain_after true cs cs else domain_after seen current cs

unfoldable pub domain_part : Bytes → Bytes
domain_part s = domain_after false [] s

-- The two clocks that the queue reads: `SystemTime::now()` in whole seconds since the epoch, and
-- `Instant::now()` in nanoseconds.
pub record Clock : Type 0 where
  pub system : ℕ
  pub instant : ℕ

abbrev pub nanos : ℕ
nanos = 1_000_000_000

-- A duration since a later instant is none, which counts as 0: so does the subtraction.
unfoldable pub instant_to_timestamp : Clock → ℕ → ℕ
instant_to_timestamp clock time = clock.system + (time - clock.instant) / nanos

unfoldable pub to_instant : Clock → ℕ → ℕ
to_instant clock timestamp =
    if ltb clock.system timestamp
    then clock.instant + (timestamp - clock.system) * nanos
    else clock.instant
