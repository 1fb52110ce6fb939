-- ===== src/Session/Build.antt =====
-- src/inbound/data.rs: `build_message`, the message of the queue from what the session was told.
pub mod Order
pub mod Domains
use smtp_server.Base.{
  ℕ, zero, suc, ◌+◌, ◌-◌, ◌*◌, ◌/◌, ◌%◌, ◌^◌, Bool, true, false, ◌&&◌, ◌||◌, not, List, [], ◌∷◌,
  ◌++◌, Option, none, some, Bytes, bytes_eq, length, ltb, leb, ◌==◌, if◌then◌else◌,
}
use smtp_server.Core.Conditions.Eval.{IfBlock, if_block_eval}
use smtp_server.Queue.Message.{
  Status, scheduled, Schedule, Domain, Recipient, Message, Clock, nanos, has_flag, with_flag,
}
use smtp_server.Queue.Envelopes.{simple_envelope}
use smtp_server.Session.State.{Session, SessionData, SessionAddress}
use smtp_server.Base.Flags.{Flags}
use smtp_server.Session.Parameters.{is_positive}

-- The order of the bytes of strings: whether the first is before the second.
abbrev pub bytes_lt : Bytes → Bytes → Bool
bytes_lt xs [] = false
bytes_lt [] (y ∷ ys) = true
bytes_lt (x ∷ xs) (y ∷ ys) = ltb x y || (x == y && bytes_lt xs ys)

-- `Ord for SessionAddress`: by domain, then by address.
abbrev pub address_lt : SessionAddress → SessionAddress → Bool
address_lt a b =
    bytes_lt a.domain b.domain
    || (bytes_eq a.domain b.domain && bytes_lt a.address_lcase b.address_lcase)

unfoldable pub insert_sorted : SessionAddress → List SessionAddress → List SessionAddress
insert_sorted a [] = a ∷ []
insert_sorted a (b ∷ bs) = if address_lt b a then b ∷ insert_sorted a bs else a ∷ b ∷ bs

-- `sort_unstable`: addresses that are equal in this order stand in any order.
unfoldable pub sort_addresses : List SessionAddress → List SessionAddress
unfolding insert_sorted
sort_addresses [] = []
sort_addresses (a ∷ rest) = insert_sorted a (sort_addresses rest)

-- The intervals of the queue, in nanoseconds. The list of notices is not empty.
pub record QueueTimes : Type 0 where
  pub notify : IfBlock (ℕ × List ℕ)
  pub expire : IfBlock ℕ

abbrev pub last_domain : List Domain → Option Bytes
last_domain [] = none
last_domain (d ∷ []) = some d.domain
last_domain (d ∷ e ∷ ds) = last_domain (e ∷ ds)

abbrev pub is_other : Option Bytes → Bytes → Bool
is_other none domain = true
is_other (some d) domain = not (bytes_eq d domain)

module _ (fl : Flags) (q : QueueTimes) (now : ℕ) (d : SessionData) where
  abbrev pub release : ℕ
  release = d.future_release * nanos

  -- `-self.data.delivery_by`
  abbrev pub before_expiry : ℕ
  before_expiry = 2 ^ 64 - d.delivery_by

  -- The delay of the only notice of a domain whose sender asks for one by a time.
  unfoldable pub notice_delay : ℕ → ℕ → ℕ
  notice_delay expire first =
      let expire_secs = expire / nanos in
      if is_positive d.delivery_by
      then (if ltb d.delivery_by expire_secs then d.delivery_by * nanos else first)
      else (if ltb before_expiry expire_secs then (expire_secs - before_expiry) * nanos else first)

  unfoldable pub new_domain : Message → Bytes → Domain
  unfolding notice_delay if_block_eval
  new_domain m domain =
      let e = simple_envelope m domain [] in
      let intervals = if_block_eval q.notify e in
      let expire = if_block_eval q.expire e in
      let by_return = has_flag m.flags fl.mail_by_return in
      let whole = d.delivery_by == 0 in
      record {
        domain = domain;
        retry = record { due = now + release; inner = 0 };
        notify =
            if whole || by_return
            then record { due = now + release + intervals.0; inner = 0 }
            else record {
              due = now + release + notice_delay expire intervals.0;
              inner = length intervals.1 % 2 ^ 32;
            };
        expires =
            if whole
            then now + release + expire
            else if by_return
            then now + d.delivery_by * nanos
            else now + expire;
        status = scheduled;
        changed = false;
      }

  abbrev pub with_default_notices : ℕ → ℕ
  with_default_notices flags =
      if has_flag flags fl.rcpt_notify_delay
        || (has_flag flags fl.rcpt_notify_failure
            || (has_flag flags fl.rcpt_notify_success || has_flag flags fl.rcpt_notify_never))
      then flags
      else with_flag (with_flag flags fl.rcpt_notify_delay) fl.rcpt_notify_failure

  abbrev pub domains_with : Message → Bytes → List Domain → List Domain
  unfolding new_domain
  domains_with m domain ds =
      if is_other (last_domain ds) domain then ds ++ new_domain m domain ∷ [] else ds

  abbrev pub new_recipient : SessionAddress → List Domain → Recipient
  new_recipient a ds = record {
    domain_idx = length ds - 1;
    address = a.address;
    address_lcase = a.address_lcase;
    status = scheduled;
    flags = with_default_notices a.flags;
    orcpt = a.dsn_info;
  }

  -- The loop over the recipients in order: a domain is added when it is not that of the last.
  unfoldable pub add_recipients :
      Message → List SessionAddress → List Domain × List Recipient → List Domain × List Recipient
  unfolding domains_with
  add_recipients m [] (ds, rs) = (ds, rs)
  add_recipients m (a ∷ rest) (ds, rs) =
      let ds' = domains_with m a.domain ds in
      add_recipients m rest (ds', rs ++ new_recipient a ds' ∷ [])

  abbrev pub empty_message : ℕ → ℕ → SessionAddress → Message
  empty_message id created from = record {
    id = id;
    created = created;
    path = [];
    return_path = from.address;
    return_path_lcase = from.address_lcase;
    return_path_domain = from.domain;
    recipients = [];
    domains = [];
    flags = from.flags;
    env_id = from.dsn_info;
    priority = d.priority;
    size = 0;
    queue_refs = [];
  }

  -- `build_message`, with the number of the message and the time in seconds
  unfoldable pub build_message : ℕ → ℕ → SessionAddress → List SessionAddress → Message
  unfolding add_recipients sort_addresses
  build_message id created from rcpts =
      let m = empty_message id created from in
      let r = add_recipients m (sort_addresses rcpts) ([], []) in
      record m { domains = r.0; recipients = r.1 }
