-- ===== src/Queue/Manager/Requests.antt =====
-- The arms of `Event::Manage` that read the queue, and the loop over the ids of the others: a
-- handler of one id gives the new queue, whether it did something, and its operations on files.
use smtp_server.Base.{
  is_some, ℕ, ◌%◌, ◌^◌, Bool, true, false, not, ◌&&◌, ◌||◌, List, [], ◌∷◌, ◌++◌, Option, none, some,
  Bytes, any, contains, ltb, leb, if◌then◌else◌,
}
use smtp_server.Queue.Message.{Message, is_pending}
use smtp_server.Queue.Manager.State.{Queue, lookup}
use smtp_server.Queue.Manager.Files.{FileOp}

-- `as_ref().map_or(default, test)`
abbrev pub map_or {ℓ} : {A : Type ℓ} → Bool → (A → Bool) → Option A → Bool
map_or default test none = default
map_or default test (some a) = test a

-- The test on a domain's next retry, once its status is pending.
due_within : Option ℕ → Option ℕ → ℕ → Bool
due_within (some before) (some after) due = ltb due before && ltb after due
due_within (some before) none due = ltb due before
due_within none (some after) due = ltb after due
due_within none none due = false

unfoldable pub is_listed : Option Bytes → Option Bytes → Option ℕ → Option ℕ → Message → Bool
unfolding due_within
is_listed from to before after m =
    map_or true (λ f. contains m.return_path_lcase f) from
    && map_or true (λ t. any (λ r. contains r.address_lcase t) m.recipients) to
    && (not (is_some before || is_some after)
        || any (λ d. is_pending d.status && due_within before after d.retry.due) m.domains)

-- `sort_unstable_by_key(|id| *id & 0xFFFFFFFF)`
unfoldable pub sort_insert : ℕ → List ℕ → List ℕ
sort_insert id [] = id ∷ []
sort_insert id (x ∷ xs) =
    let rest = sort_insert id xs in if leb (id % 2 ^ 32) (x % 2 ^ 32) then id ∷ x ∷ xs else x ∷ rest

unfoldable pub sort_ids : List ℕ → List ℕ
unfolding sort_insert
sort_ids [] = []
sort_ids (x ∷ xs) = sort_insert x (sort_ids xs)

unfoldable pub listed_ids : (Message → Bool) → List (ℕ × Message) → List ℕ
listed_ids test [] = []
listed_ids test ((k, m) ∷ ms) =
    let rest = listed_ids test ms in if test m then m.id ∷ rest else rest

unfoldable pub list_request : Option Bytes → Option Bytes → Option ℕ → Option ℕ → Queue → List ℕ
unfolding listed_ids is_listed sort_ids
list_request from to before after q =
    sort_ids (listed_ids (is_listed from to before after) q.messages)

-- Status. The conversion of a message to its public view is left out.
unfoldable pub status_request : List ℕ → Queue → List (Option Message)
status_request [] q = []
status_request (id ∷ ids) q = lookup id q.messages ∷ status_request ids q

-- `for queue_id in &queue_ids { ..; result.push(found); }`
unfoldable pub for_each_id :
    (ℕ → Queue → Queue × Bool × List FileOp) → List ℕ → Queue → Queue × List Bool × List FileOp
for_each_id one [] q = (q, [], [])
for_each_id one (id ∷ ids) q =
    let (q', found, ops) = one id q in
    let (q'', results, more) = for_each_id one ids q' in (q'', found ∷ results, ops ++ more)
