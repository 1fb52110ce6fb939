-- ===== src/Queue/Quota/Limits.antt =====
-- One limiter: what is taken is given back, and what a refusal leaves behind.
use smtp_server.Base.{ℕ, zero, suc, ◌+◌, ◌^◌, ◌≤◌, ◌<◌, ◌≡◌, ◌⊎◌, ◌∙◌, ap, true, false, arith}
use smtp_server.Queue.Quota.{QuotaLimiter, is_allowed, release}

-- A limiter's numbers are words.
abbrev pub IsLimiter : QuotaLimiter → Type 0
IsLimiter l =
    (l.max_size < 2 ^ 64) × (l.max_messages < 2 ^ 64) × (l.size < 2 ^ 64) × (l.messages < 2 ^ 64)

-- Within the limits that there are.
abbrev pub IsWithin : QuotaLimiter → Type 0
IsWithin l =
    ((l.max_messages ≡ 0) ⊎ (l.messages ≤ l.max_messages))
    × ((l.max_size ≡ 0) ⊎ (l.size < l.max_size))

-- A limiter that allows a message is within its limits with it, and once the message gives back
-- what it holds the limiter is as it was: if its numbers are words and the sum of the sizes too.
pub is_allowed-release :
    (size : ℕ) (l : QuotaLimiter)
    → IsLimiter l
    → l.size + size < 2 ^ 64
    → (is_allowed size l).0 ≡ true
    → (let l' = (is_allowed size l).1 in IsWithin l' × (release size l' ≡ l))
unfolding is_allowed release
is_allowed-release size l w s h = ground (arith, w, s, h)

refusal :
    (size : ℕ) (l : QuotaLimiter)
    → IsLimiter l
    → 0 < l.max_messages
    → l.messages < l.max_messages
    → 0 < l.max_size
    → l.max_size ≤ l.size + size
    → l.size + size < 2 ^ 64
    → (is_allowed size l).1 ≡ record l { messages = l.messages + 1 }
unfolding is_allowed
refusal size l w m e p q o = ground (arith, w, m, e, p, q, o)

-- So many messages of a size, one after the other, each refused or not.
unfoldable pub attempts : ℕ → ℕ → QuotaLimiter → QuotaLimiter
attempts zero size l = l
attempts (suc n) size l = attempts n size (is_allowed size l).1

-- A message that is refused for its size keeps its count: after as many refusals as there are
-- messages left in the limit, a message of any size is refused, with nothing in the queue for it.
-- The condition is that the size goes beyond a limit on the size, without overflow, and that there
-- is a limit on the messages.
pub refused_attempts-exhaust :
    (n size next : ℕ) (l : QuotaLimiter)
    → IsLimiter l
    → 0 < l.max_messages
    → l.max_messages ≡ l.messages + n
    → 0 < l.max_size
    → l.max_size ≤ l.size + size
    → l.size + size < 2 ^ 64
    → (is_allowed next (attempts n size l)).0 ≡ false
unfolding attempts is_allowed
refused_attempts-exhaust zero size next l w m e p q o = ground (arith, w, m, e, p, q, o)
refused_attempts-exhaust (suc n) size next l w m e p q o =
    ap (λ l'. (is_allowed next (attempts n size l')).0)
      (refusal size l w m (omega (arith, e)) p q o)
    ∙ refused_attempts-exhaust n size next (record l { messages = l.messages + 1 })
        (w.0, w.1, w.2, omega (arith, w.1, e)) m (omega (arith, e)) p q o
