-- ===== src/Tests/Quotas.antt =====
-- The quotas of the queue.
use smtp_server.Base.{◌≡◌, refl, inr, false, [], ◌∷◌, ◌++◌, some, arith, Bytes}
use smtp_server.Core.Envelope.{sender}
use smtp_server.Core.Conditions.Eval.{match, string, begins}
use smtp_server.Core.Key.{QueueQuota}
use smtp_server.Queue.Message.{Message, UsedQuota}
use smtp_server.Queue.Quota.{
  QueueQuotas, QuotaLimiter, Table, has_quota, release_quota, is_allowed, release,
}
use smtp_server.Queue.Quota.Accounting.{Accounts}
use smtp_server.Queue.Quota.Reserving.{QuotasFit, has_quota-Accounts, release_quota-Accounts}
use smtp_server.Queue.Quota.Limits.{
  IsWithin, is_allowed-release, attempts, refused_attempts-exhaust,
}
use smtp_server.Tests.Samples.{codes, letter}

abbrev per_sender : QueueQuota
per_sender = record {
  conditions = match sender (string (begins (codes "bill"))) false ∷ [];
  keys = 4;
  size = some 5_000;
  messages = some 10;
}

abbrev limits : QueueQuotas
limits = record { sender = per_sender ∷ []; rcpt = []; rcpt_domain = [] }

-- A hash: the key itself.
abbrev same : Bytes → Bytes
same key = key

-- Another message holds 700 bytes of a limit.
abbrev used : UsedQuota
used = record { id = 1; size = 700; limiter = 0 }

abbrev table : Table
table = (codes "k", record { max_size = 5_000; max_messages = 10; size = 700; messages = 1 }) ∷ []

table-Accounts : Accounts table (used ∷ [])
table-Accounts = ((omega arith, inr (refl, omega arith)), λ n. ground arith)

limits-QuotasFit : QuotasFit limits
limits-QuotasFit = record { sender = (omega arith, tt); rcpt = tt; rcpt_domain = tt }

has_quota-Accounts_example :
    (let r = has_quota same limits letter table in Accounts r.2 (r.1.queue_refs ++ used ∷ []))
has_quota-Accounts_example =
    has_quota-Accounts same limits letter table (used ∷ []) (omega arith) limits-QuotasFit tt
      table-Accounts

-- The letter itself holds the 700 bytes, for its second recipient.
abbrev holding : Message
holding = record letter { queue_refs = record used { id = 2 } ∷ [] }

release_quota-Accounts_example :
    (let r = release_quota holding table in Accounts r.1 (r.0.queue_refs ++ []))
release_quota-Accounts_example =
    release_quota-Accounts holding table [] (omega arith, tt)
      ((omega arith, inr (refl, omega arith)), λ n. ground arith)

abbrev limiter : QuotaLimiter
limiter = record { max_size = 5_000; max_messages = 3; size = 700; messages = 1 }

is_allowed-release_example :
    (let l' = (is_allowed 1_200 limiter).1 in IsWithin l' × (release 1_200 l' ≡ limiter))
unfolding is_allowed
is_allowed-release_example =
    is_allowed-release 1_200 limiter (omega arith, omega arith, omega arith, omega arith)
      (omega arith) refl

refused_attempts-exhaust_example : (is_allowed 10 (attempts 2 9_000 limiter)).0 ≡ false
refused_attempts-exhaust_example =
    refused_attempts-exhaust 2 9_000 10 limiter (omega arith, omega arith, omega arith, omega arith)
      (omega arith) refl (omega arith) (omega arith) (omega arith)
