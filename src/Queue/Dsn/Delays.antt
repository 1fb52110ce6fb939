-- ===== src/Queue/Dsn/Delays.antt =====
-- src/queue/dsn.rs: when a recipient is reported as delayed, and when next.
use mathlib.Core.Option.{some-injective}
use smtp_server.Base.{
  ℕ, zero, suc, ◌+◌, ◌≤◌, ◌<◌, ◌≡◌, refl, sym, ap, ◌∙◌, subst, Bool, true, false, ◌&&◌, List, [],
  ◌∷◌, Option, none, some, Bytes, get_elem?, All, leb, arith, is_empty,
}
use smtp_server.Core.Conditions.Eval.{if_block_eval}
use smtp_server.Queue.Message.{
  Status, scheduled, completed, temporary_failure, permanent_failure, HostResponse, ErrorDetails,
  Error, concurrency_limited, dns_error, unexpected_response, connection_error, tls_error,
  dane_error, mta_sts_error, rate_limited, io, Domain, Recipient, Message, Clock, is_pending,
  has_flag,
}
use smtp_server.Queue.Envelopes.{simple_envelope}
use smtp_server.Queue.Dsn.{error_text, rejected_text}
use smtp_server.Queue.Dsn.Notices.{
  delay, Notice, domain_delay, rcpt_delay, is_done, notice_if, is_due, domain_notice, rcpt_notice,
  notice_at, notice_of,
}
use smtp_server.Queue.Dsn.Build.{next_schedule, next_notice}
use smtp_server.Queue.Dsn.Once.{waits, Allows, notice_of-open}
use smtp_server.Base.Flags.{Flags}
use smtp_server.Session.Build.{QueueTimes}

pub error_text-full :
    (e : Error) (address domain : Bytes) → is_empty (error_text e address domain) ≡ false
unfolding error_text rejected_text
error_text-full (unexpected_response h) address domain = refl
error_text-full (dns_error err) address domain = refl
error_text-full (connection_error d) address domain = refl
error_text-full (tls_error d) address domain = refl
error_text-full (dane_error d) address domain = refl
error_text-full (mta_sts_error details) address domain = refl
error_text-full rate_limited address domain = refl
error_text-full concurrency_limited address domain = refl
error_text-full (io err) address domain = refl

pub rejected_text-full :
    (h : HostResponse ErrorDetails) (address : Bytes) → is_empty (rejected_text h address) ≡ false
unfolding rejected_text
rejected_text-full h address = refl

-- Every interval of the notices is longer than nothing.
abbrev pub ArePositive : QueueTimes → Message → Type 0
ArePositive q m =
    (domain : Bytes)
    → let intervals = if_block_eval q.notify (simple_envelope m domain []) in
      All (λ n. 1 ≤ n) (intervals.0 ∷ intervals.1)

-- A domain whose delivery is pending has not expired, and a recipient that has failed for now is at
-- such a domain.
abbrev pub IsUnexpired : Clock → Domain → Type 0
IsUnexpired clock d = is_pending d.status ≡ true → clock.instant < d.expires

abbrev is_temporary : {T E : Type 0} → Status T E → Bool
is_temporary (temporary_failure e) = true
is_temporary scheduled = false
is_temporary (completed h) = false
is_temporary (permanent_failure e) = false

abbrev pub IsAtPending : List Domain → Recipient → Type 0
IsAtPending ds r =
    (d : Domain)
    → get_elem? ds r.domain_idx ≡ some d
    → is_temporary r.status ≡ true
    → is_pending d.status ≡ true

positive_at : (xs : List ℕ) (i n : ℕ) → All (λ n. 1 ≤ n) xs → get_elem? xs i ≡ some n → 1 ≤ n
positive_at [] i n h e = absurd (cc e)
positive_at (x ∷ xs) zero n (h, hs) e = grind (arith, h, e)
positive_at (x ∷ xs) (suc i) n (h, hs) e = positive_at xs i n hs e

All-at :
    (P : Domain → Type 0) (ds : List Domain) (i : ℕ) (d : Domain)
    → All P ds
    → get_elem? ds i ≡ some d
    → P d
All-at P [] i d h e = absurd (cc e)
All-at P (x ∷ ds) zero d (h, hs) e = subst P (some-injective x d e) h
All-at P (x ∷ ds) (suc i) d (h, hs) e = All-at P ds i d hs e

waits-pending :
    (s : Status (HostResponse Bytes) (HostResponse ErrorDetails)) (t : Status (Unit {0}) Error)
    → (is_temporary s ≡ true → is_pending t ≡ true)
    → waits s t ≡ true
    → is_pending t ≡ true
waits-pending (temporary_failure e) t h w = h refl
waits-pending scheduled t h w = w
waits-pending (completed h') t h w = absurd (cc w)
waits-pending (permanent_failure h') t h w = absurd (cc w)

abbrev pub IsLoud : Option Notice → Type 0
IsLoud none = ⊥
IsLoud (some n) = (n.outcome ≡ delay) × (is_empty n.text ≡ false)

notice_if-IsLoud :
    (b : Bool) (n : Notice)
    → b ≡ true
    → n.outcome ≡ delay
    → is_empty n.text ≡ false
    → IsLoud (notice_if b n)
notice_if-IsLoud true n e o t = (o, t)
notice_if-IsLoud false n e o t = absurd (cc e)

module _ (fl : Flags) (to_rfc822 : ℕ → Bytes) (clock : Clock) where
  pub next_notice-status :
      (q : QueueTimes) (m : Message) (d : Domain)
      → (next_notice fl to_rfc822 clock q m d).status ≡ d.status
  unfolding next_notice
  next_notice-status q m d = ground arith

  next_schedule-late :
      (d : Domain) (o : Option ℕ)
      → clock.instant < d.expires
      → ((n : ℕ) → o ≡ some n → 1 ≤ n)
      → leb (next_schedule fl to_rfc822 clock d o).due clock.instant ≡ false
  next_schedule-late d none u p = ground arith
  next_schedule-late d (some n) u p = ground (arith, p n refl)

  next_notice-late :
      (q : QueueTimes) (m : Message) (d : Domain)
      → ArePositive q m
      → clock.instant < d.expires
      → is_pending d.status ≡ true
      → leb (next_notice fl to_rfc822 clock q m d).notify.due clock.instant ≡ false
  unfolding next_notice
  next_notice-late q m d positive u p =
      let intervals = if_block_eval q.notify (simple_envelope m d.domain []) in
      let o = get_elem? (intervals.0 ∷ intervals.1) (d.notify.inner + 1) in
      ground (
        arith,
        next_schedule-late d o u (λ n e.
            positive_at (intervals.0 ∷ intervals.1) (d.notify.inner + 1) n (positive d.domain) e),
        p,
      )

  -- After a delay was reported: the next notices of all pending domains are later.
  pub Allows-next :
      (q : QueueTimes) (m m' : Message) (ds : List Domain) (rs : List Recipient)
      → ArePositive q m'
      → All (IsUnexpired clock) ds
      → All (IsAtPending ds) rs
      → All (Allows fl to_rfc822 clock (next_notice fl to_rfc822 clock q m') ds) rs
  Allows-next q m m' ds [] positive u h = tt
  Allows-next q m m' ds (r ∷ rs) positive u (h, hs) = (
    λ open' d e w.
        let p = waits-pending r.status d.status (h d e) w in
        ap (λ b. b && has_flag r.flags fl.rcpt_notify_delay)
          (next_notice-late q m' d positive (All-at (IsUnexpired clock) ds r.domain_idx d u e p) p),
    Allows-next q m m' ds rs positive u hs,
  )

  -- A recipient that waits and whose notice is due is reported as delayed.
  domain_notice-IsLoud :
      (d : Domain) (r : Recipient) (t : Status (Unit {0}) Error)
      → is_pending t ≡ true
      → is_due fl to_rfc822 clock d r ≡ true
      → IsLoud (domain_notice fl to_rfc822 clock d r t).1
  unfolding domain_notice
  domain_notice-IsLoud d r (temporary_failure err) p due =
      notice_if-IsLoud _ (domain_delay fl to_rfc822 clock d r err) due refl
        (error_text-full err r.address d.domain)
  domain_notice-IsLoud d r scheduled p due =
      notice_if-IsLoud _ (domain_delay fl to_rfc822 clock d r concurrency_limited) due refl
        (error_text-full concurrency_limited r.address d.domain)
  domain_notice-IsLoud d r (completed u) p due = absurd (cc p)
  domain_notice-IsLoud d r (permanent_failure err) p due = absurd (cc p)

  rcpt_notice-IsLoud :
      (d : Domain) (r : Recipient) (s : Status (HostResponse Bytes) (HostResponse ErrorDetails))
      → waits s d.status ≡ true
      → is_due fl to_rfc822 clock d r ≡ true
      → IsLoud (rcpt_notice fl to_rfc822 clock d r s).1
  unfolding rcpt_notice
  rcpt_notice-IsLoud d r (temporary_failure h) w due =
      notice_if-IsLoud _ (rcpt_delay fl to_rfc822 clock d r h) due refl
        (rejected_text-full h r.address)
  rcpt_notice-IsLoud d r scheduled w due = domain_notice-IsLoud d r d.status w due
  rcpt_notice-IsLoud d r (completed h) w due = absurd (cc w)
  rcpt_notice-IsLoud d r (permanent_failure h) w due = absurd (cc w)

  pub notice_of-IsLoud :
      (ds : List Domain) (r : Recipient) (d : Domain)
      → is_done fl r ≡ false
      → get_elem? ds r.domain_idx ≡ some d
      → waits r.status d.status ≡ true
      → is_due fl to_rfc822 clock d r ≡ true
      → IsLoud (notice_of fl to_rfc822 clock ds r).1
  unfolding notice_at
  notice_of-IsLoud ds r d open' e w due =
      subst (λ x. IsLoud x.1)
        (sym (
          notice_of-open fl to_rfc822 clock ds r open'
          ∙ ap (λ o. notice_at fl to_rfc822 clock o r) e))
        (rcpt_notice-IsLoud d r r.status w due)
