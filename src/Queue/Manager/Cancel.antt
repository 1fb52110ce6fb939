-- ===== src/Queue/Manager/Cancel.antt =====
-- `QueueRequest::Cancel`, for one id.
use Prim.Native.Char.{code}
use Prim.Native.String.{String}
use smtp_server.Base.{
  ℕ, suc, ◌+◌, Bool, true, false, ◌&&◌, List, [], ◌∷◌, Option, none, some, Bytes, any, contains,
  ◌==◌, if◌then◌else◌,
}
use smtp_server.Queue.Message.{
  completed, HostResponse, Domain, Recipient, Message, Clock, is_pending, is_final, with_flag,
  rcpt_status_changed,
}
use smtp_server.Queue.Manager.State.{Queue, lookup, without, insert}
use smtp_server.Queue.Manager.Files.{FileOp, save_changes, remove}

abbrev pub codes : String → Bytes
codes String.[] = []
codes (String.◌∷◌ c s) = code c ∷ codes s

abbrev pub canceled : HostResponse Bytes
canceled = record {
  hostname = [];
  response = record {
    code = 0;
    esc0 = 0;
    esc1 = 0;
    esc2 = 0;
    message = codes "Delivery canceled.";
  };
}

abbrev pub cancel_recipient : Bytes → Recipient → Recipient
cancel_recipient item r =
    if contains r.address_lcase item
    then record r { flags = with_flag r.flags rcpt_status_changed; status = completed canceled }
    else r

unfoldable pub cancel_recipients : Bytes → List Recipient → List Recipient
cancel_recipients item [] = []
cancel_recipients item (r ∷ rs) = cancel_recipient item r ∷ cancel_recipients item rs

-- The counts over the recipients of a domain: of all, and of those with nothing left to deliver.
unfoldable pub total_rcpt : ℕ → List Recipient → ℕ
total_rcpt idx [] = 0
total_rcpt idx (r ∷ rs) = (if r.domain_idx == idx then 1 else 0) + total_rcpt idx rs

unfoldable pub total_completed : ℕ → List Recipient → ℕ
total_completed idx [] = 0
total_completed idx (r ∷ rs) =
    (if r.domain_idx == idx && is_final r.status then 1 else 0) + total_completed idx rs

abbrev pub complete_domain : ℕ → List Recipient → Domain → Domain
complete_domain idx rcpts d =
    if is_pending d.status && (total_rcpt idx rcpts == total_completed idx rcpts)
    then record d { status = completed tt; changed = true }
    else d

unfoldable pub complete_domains : ℕ → List Recipient → List Domain → List Domain
unfolding total_rcpt total_completed
complete_domains idx rcpts [] = []
complete_domains idx rcpts (d ∷ ds) =
    complete_domain idx rcpts d ∷ complete_domains (suc idx) rcpts ds

unfoldable pub is_matched : Bytes → Message → Bool
is_matched item m = any (λ r. contains r.address_lcase item) m.recipients

unfoldable pub cancel_matching : Bytes → Message → Message
unfolding cancel_recipients complete_domains
cancel_matching item m =
    let recipients = cancel_recipients item m.recipients in
    record m { recipients = recipients; domains = complete_domains 0 recipients m.domains }

abbrev pub has_pending : Message → Bool
has_pending m = any (λ d. is_pending d.status) m.domains

-- With an item: `messages.get_mut(queue_id)` gave the message.
unfoldable pub cancel_part : Clock → ℕ → Bytes → Message → Queue → Queue × Bool × List FileOp
cancel_part clock id item m q =
    let m' = cancel_matching item m in
    let (saved, ops) = save_changes clock m' in
    if is_matched item m
    then if has_pending m'
      then (record q { messages = insert id saved q.messages }, true, ops)
      else (record q { messages = without id q.messages }, true, remove m')
    else (q, false, [])

unfoldable pub cancel_found :
    Clock → ℕ → Option Bytes → Message → Queue → Queue × Bool × List FileOp
cancel_found clock id (some item) m q = cancel_part clock id item m q
cancel_found clock id none m q = (record q { messages = without id q.messages }, true, remove m)

unfoldable pub cancel_one : Clock → Option Bytes → ℕ → Queue → Queue × Bool × List FileOp
cancel_one clock item id q = elim (lookup id q.messages) [
  | none ↦ (q, false, [])
  | some m ↦ cancel_found clock id item m q
]
