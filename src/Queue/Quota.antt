-- ===== src/Queue/Quota.antt =====
-- src/queue/quota.rs: the quotas of the queue, by which a message is let in, and what it holds of
-- them until it leaves.
--
-- The limiters are shared (`Arc`) and are kept by key; a limiter is known by its place in the
-- table. Atomic counters are fields, since each operation is one step here; they wrap around.
-- Limiters that are no longer used are not removed.
pub mod Accounting
pub mod Reserving
pub mod Limits
use smtp_server.Base.{
  ℕ, suc, ◌+◌, ◌-◌, ◌*◌, ◌%◌, ◌^◌, Bool, true, false, not, ◌&&◌, List, [], ◌∷◌, ◌++◌, Option, none,
  some, Bytes, bytes_eq, get_elem?, any, keep, ltb, ◌==◌, if◌then◌else◌,
}
use smtp_server.Core.Envelope.{Envelope}
use smtp_server.Core.Conditions.Eval.{Condition, eval}
use smtp_server.Core.Key.{QueueQuota, quota_key}
use smtp_server.Queue.Envelopes.{message_envelope, simple_envelope}
use smtp_server.Queue.Message.{Message, Domain, Recipient, UsedQuota, is_final}

pub record QuotaLimiter : Type 0 where
  pub max_size : ℕ
  pub max_messages : ℕ
  pub size : ℕ
  pub messages : ℕ

pub record QueueQuotas : Type 0 where
  pub sender : List QueueQuota
  pub rcpt : List QueueQuota
  pub rcpt_domain : List QueueQuota

-- The limiters, each under its key.
abbrev pub Table : Type 0
Table = List (Bytes × QuotaLimiter)

abbrev count_message : QuotaLimiter → QuotaLimiter
count_message l =
    if ltb 0 l.max_messages then record l { messages = (l.messages + 1) % 2 ^ 64 } else l

abbrev count_size : ℕ → QuotaLimiter → Bool × QuotaLimiter
count_size size l =
    if ltb 0 l.max_size
    then if ltb ((l.size + size) % 2 ^ 64) l.max_size
      then (true, record l { size = (l.size + size) % 2 ^ 64 })
      else (false, l)
    else (true, l)

-- `QuotaLimiter::is_allowed`: whether a reference is given, and the counters after.
unfoldable pub is_allowed : ℕ → QuotaLimiter → Bool × QuotaLimiter
is_allowed size l =
    if ltb 0 l.max_messages && not (ltb l.messages l.max_messages)
    then (false, l)
    else count_size size (count_message l)

-- `Drop for UsedQuota`
unfoldable pub release : ℕ → QuotaLimiter → QuotaLimiter
release size l = record l {
  messages = if ltb 0 l.max_messages then (l.messages + (2 ^ 64 - 1)) % 2 ^ 64 else l.messages;
  size = if ltb 0 l.max_size then (l.size + (2 ^ 64 - size)) % 2 ^ 64 else l.size;
}

-- `unwrap_or(0)`
abbrev pub or_zero : Option ℕ → ℕ
or_zero none = 0
or_zero (some n) = n

abbrev pub new_limiter : QueueQuota → QuotaLimiter
new_limiter quota = record {
  max_size = or_zero quota.size;
  max_messages = or_zero quota.messages;
  size = 0;
  messages = 0;
}

abbrev granted : ℕ → Bool → Option ℕ
granted place ok = if ok then some place else none

-- The entry of the key, occupied or vacant: a new limiter is kept only if it allows the message.
unfoldable pub reserve_entry : Bytes → QuotaLimiter → ℕ → ℕ → Table → Option ℕ × Table
unfolding is_allowed
reserve_entry key new size place [] =
    let (ok, l) = is_allowed size new in (granted place ok, if ok then (key, l) ∷ [] else [])
reserve_entry key new size place ((k, l) ∷ table) =
    let rest = reserve_entry key new size (suc place) table in
    let (ok, l') = is_allowed size l in
    if bytes_eq k key then (granted place ok, (k, l') ∷ table) else (rest.0, (k, l) ∷ rest.1)

unfoldable pub release_entry : ℕ → ℕ → Table → Table
unfolding release
release_entry place size [] = []
release_entry place size ((k, l) ∷ table) =
    let rest = release_entry (place - 1) size table in
    if place == 0 then (k, release size l) ∷ table else (k, l) ∷ rest

-- The references that go out of scope.
unfoldable pub release_all : List UsedQuota → Table → Table
unfolding release_entry
release_all [] table = table
release_all (q ∷ refs) table = release_all refs (release_entry q.limiter q.size table)

-- `conditions` of a quota
abbrev pub is_subject : QueueQuota → Envelope → Bool
is_subject quota e = elim quota.conditions [ [] ↦ false | c ∷ cs ↦ eval (c ∷ cs) e ]

-- One call of `reserve_quota`: the quota, the envelope it is asked for, and the id.
pub record Demand : Type 0 where
  pub quota : QueueQuota
  pub envelope : Envelope
  pub id : ℕ

unfoldable pub domain_demands : Message → QueueQuota → ℕ → List Domain → List Demand
domain_demands m quota pos [] = []
domain_demands m quota pos (d ∷ ds) =
    record { quota = quota; envelope = simple_envelope m d.domain []; id = (pos + 1) * 2 ^ 32 }
    ∷ domain_demands m quota (suc pos) ds

-- `message.domains[rcpt.domain_idx]`, which a message has.
abbrev domain_of : Message → Recipient → Bytes
domain_of m r = elim (get_elem? m.domains r.domain_idx) [ none ↦ [] | some d ↦ d.domain ]

unfoldable pub rcpt_demands : Message → QueueQuota → ℕ → List Recipient → List Demand
rcpt_demands m quota pos [] = []
rcpt_demands m quota pos (r ∷ rs) =
    record {
      quota = quota;
      envelope = simple_envelope m (domain_of m r) r.address_lcase;
      id = pos + 1;
    }
    ∷ rcpt_demands m quota (suc pos) rs

abbrev for_quotas : (QueueQuota → List Demand) → List QueueQuota → List Demand
for_quotas f [] = []
for_quotas f (q ∷ qs) = f q ++ for_quotas f qs

-- The loops of `has_quota`, in their order.
unfoldable pub demands : QueueQuotas → Message → List Demand
unfolding domain_demands rcpt_demands
demands quotas m =
    for_quotas (λ q. record { quota = q; envelope = message_envelope m; id = 0 } ∷ []) quotas.sender
    ++ (for_quotas (λ q. domain_demands m q 0 m.domains) quotas.rcpt_domain
        ++ for_quotas (λ q. rcpt_demands m q 0 m.recipients) quotas.rcpt)

module _ (blake3 : Bytes → Bytes) where
  -- `reserve_quota`, with the references so far, which are given back when a demand is refused.
  unfoldable pub reserve_each :
      ℕ → List Demand → List UsedQuota → Table → Option (List UsedQuota) × Table
  unfolding reserve_entry release_all
  reserve_each size [] refs table = (some refs, table)
  reserve_each size (d ∷ ds) refs table =
      let reserved =
        reserve_entry (blake3 (quota_key d.quota d.envelope)) (new_limiter d.quota) size 0 table in
      if is_subject d.quota d.envelope
      then elim reserved.0 [
        | none ↦ (none, release_all refs reserved.1)
        | some place ↦
            reserve_each size ds (refs ++ (record { id = d.id; size = size; limiter = place } ∷ []))
              reserved.1
      ]
      else reserve_each size ds refs table

  -- `has_quota`: the message with its references, if the quotas let it in; those that it had before
  -- go out of scope.
  unfoldable pub has_quota : QueueQuotas → Message → Table → Bool × Message × Table
  unfolding reserve_each
  has_quota quotas m table =
      let reserved = reserve_each m.size (demands quotas m) [] table in
      elim reserved.0 [
        | none ↦ (false, m, reserved.1)
        | some refs ↦ (true, record m { queue_refs = refs }, release_all m.queue_refs reserved.1)
      ]

unfoldable pub finished_domains : ℕ → List Domain → List ℕ
finished_domains pos [] = []
finished_domains pos (d ∷ ds) =
    let rest = finished_domains (suc pos) ds in
    if is_final d.status then (pos + 1) * 2 ^ 32 ∷ rest else rest

unfoldable pub finished_rcpts : ℕ → List Recipient → List ℕ
finished_rcpts pos [] = []
finished_rcpts pos (r ∷ rs) =
    let rest = finished_rcpts (suc pos) rs in if is_final r.status then (pos + 1) ∷ rest else rest

abbrev pub is_among : List ℕ → UsedQuota → Bool
is_among ids q = any (λ id. id == q.id) ids

-- `release_quota`: `retain` keeps the references of what is still to be delivered.
unfoldable pub release_quota : Message → Table → Message × Table
unfolding finished_domains finished_rcpts release_all
release_quota m table =
    let ids = finished_domains 0 m.domains ++ finished_rcpts 0 m.recipients in
    (
      record m { queue_refs = keep (λ q. not (is_among ids q)) m.queue_refs },
      release_all (keep (is_among ids) m.queue_refs) table,
    )
