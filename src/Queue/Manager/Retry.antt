-- ===== src/Queue/Manager/Retry.antt =====
-- `QueueRequest::Retry`, for one id.
use smtp_server.Base.{
  ℕ, ◌+◌, ◌*◌, Bool, true, false, not, ◌&&◌, List, [], ◌∷◌, Option, none, some, Bytes, any, keep,
  contains, ltb, ◌==◌, if◌then◌else◌,
}
use smtp_server.Queue.Message.{Schedule, Domain, Message, Clock, is_pending, nanos}
use smtp_server.Queue.Manager.State.{Queue, OnHold, lookup, insert, push}
use smtp_server.Queue.Manager.Times.{next_event}
use smtp_server.Queue.Manager.Files.{FileOp, save_changes}
use smtp_server.Queue.Manager.Requests.{map_or}

unfoldable pub is_retried : Option Bytes → Domain → Bool
is_retried item d = is_pending d.status && map_or true (λ i. contains d.domain i) item

abbrev pub retry_domain : ℕ → Option Bytes → Domain → Domain
retry_domain time item d =
    if is_retried item d
    then record d {
      retry = record (d.retry) { due = time };
      expires = if ltb time d.expires then time + 10 * nanos else d.expires;
      changed = true;
    }
    else d

unfoldable pub retry_domains : ℕ → Option Bytes → List Domain → List Domain
unfolding is_retried
retry_domains time item [] = []
retry_domains time item (d ∷ ds) = retry_domain time item d ∷ retry_domains time item ds

-- `retain(|oh| &oh.message != queue_id)`
abbrev pub release_hold : ℕ → List (OnHold ℕ) → List (OnHold ℕ)
release_hold id hs = keep (λ h. not (h.message == id)) hs

abbrev pub push_some : Option ℕ → ℕ → List (Schedule ℕ) → List (Schedule ℕ)
push_some none id ss = ss
push_some (some due) id ss = push (record { due = due; inner = id }) ss

unfoldable pub retry_found :
    Clock → ℕ → Option Bytes → ℕ → Message → Queue → Queue × Bool × List FileOp
retry_found clock time item id m q =
    let (saved, ops) =
      save_changes clock (record m { domains = retry_domains time item m.domains }) in
    if any (is_retried item) m.domains
    then (
      record q {
        on_hold = release_hold id q.on_hold;
        messages = insert id saved q.messages;
        scheduled = push_some (next_event clock.instant saved) id q.scheduled;
      },
      true,
      ops,
    )
    else (q, false, [])

unfoldable pub retry_one : Clock → ℕ → Option Bytes → ℕ → Queue → Queue × Bool × List FileOp
retry_one clock time item id q = elim (lookup id q.messages) [
  | none ↦ (q, false, [])
  | some m ↦ retry_found clock time item id m q
]
