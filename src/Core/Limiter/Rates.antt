-- ===== src/Core/Limiter/Rates.antt =====
-- What a rate limiter lets through.
use smtp_server.Base.{
  ℕ, zero, suc, ◌+◌, ◌-◌, ◌*◌, ◌≤◌, ◌<◌, ◌≡◌, refl, ap, ◌∙◌, Bool, true, false, if◌then◌else◌, leb,
  leb→le, arith, Bool-cases, inl, inr,
}
use smtp_server.Core.Limiter.{RateLimiter, nanos, new_rate, parts, refilled, rate_is_allowed}

-- How many of so many calls at one time are allowed.
unfoldable pub allowed : ℕ → ℕ → RateLimiter → ℕ
allowed zero now r = 0
allowed (suc n) now r =
    let (ok, r') = rate_is_allowed now r in (if ok then 1 else 0) + allowed n now r'

step-mul : (k p : ℕ) → suc k * p ≡ k * p + p
step-mul k p = omega arith

le-mul : (a b : ℕ) → 0 < a → b ≤ a * b
le-mul zero b h = absurd (omega (arith, h))
le-mul (suc k) b h = omega (arith, step-mul k b)

mul-positive : (a b : ℕ) → 0 < a → 0 < b → 0 < a * b
mul-positive a b h k = omega (arith, le-mul a b h, k)

no_time : (now instant m : ℕ) → instant ≡ now → (now - instant) * m ≡ 0
no_time now instant m e =
    let none : now - instant ≡ 0 = omega (arith, e) in ap (λ d. d * m) none ∙ omega arith

refilled-le : (now : ℕ) (r : RateLimiter) → r.instant ≡ now → refilled now r ≤ r.credit
refilled-le now r e = ground (arith, no_time now r.instant r.max_requests e)

-- A call that is allowed, and one that is not.
allowed_yes :
    (n now : ℕ) (r : RateLimiter)
    → leb (parts r) (refilled now r) ≡ true
    → allowed (suc n) now r
      ≡ 1 + allowed n now (record r { instant = now; credit = refilled now r - parts r })
unfolding allowed rate_is_allowed
allowed_yes n now r p =
    ap
      (λ b.
        let s : Bool × RateLimiter =
          if b
          then (true, record r { instant = now; credit = refilled now r - parts r })
          else (false, record r { credit = refilled now r }) in
        (if s.0 then 1 else 0) + allowed n now s.1)
      p

allowed_no :
    (n now : ℕ) (r : RateLimiter)
    → leb (parts r) (refilled now r) ≡ false
    → allowed (suc n) now r ≡ 0 + allowed n now (record r { credit = refilled now r })
unfolding allowed rate_is_allowed
allowed_no n now r p =
    ap
      (λ b.
        let s : Bool × RateLimiter =
          if b
          then (true, record r { instant = now; credit = refilled now r - parts r })
          else (false, record r { credit = refilled now r }) in
        (if s.0 then 1 else 0) + allowed n now s.1)
      p

-- Without time passing as many calls are allowed as the credit is worth.
worth :
    (n k now : ℕ) (r : RateLimiter)
    → 0 < parts r
    → r.instant ≡ now
    → r.credit ≤ k * parts r
    → allowed n now r ≤ k
unfolding allowed
worth zero k now r p e c = omega arith
worth (suc n) zero now r p e c = elim (Bool-cases (leb (parts r) (refilled now r))) [
  | inl y ↦ absurd (omega (arith, leb→le (parts r) (refilled now r) y, c, p, refilled-le now r e))
  | inr y ↦ omega (
    arith,
    allowed_no n now r y,
    worth n 0 now (record r { credit = refilled now r }) p e
        (omega (arith, c, refilled-le now r e)),
  )
]
worth (suc n) (suc k) now r p e c = elim (Bool-cases (leb (parts r) (refilled now r))) [
  | inl y ↦ omega (
    arith,
    allowed_yes n now r y,
    worth n k now (record r { instant = now; credit = refilled now r - parts r }) p refl
        (omega (arith, c, step-mul k (parts r), refilled-le now r e)),
  )
  | inr y ↦ omega (
    arith,
    allowed_no n now r y,
    worth n (suc k) now (record r { credit = refilled now r }) p e
        (omega (arith, c, refilled-le now r e)),
  )
]

-- Of the calls to a new limiter at the time when it is made, however many, at most its number of
-- requests are allowed, if its interval is not zero.
pub allowed-new_rate :
    (n now max_requests max_interval : ℕ)
    → 0 < max_interval
    → allowed n now (new_rate now max_requests max_interval) ≤ max_requests
unfolding new_rate
allowed-new_rate n now m i h =
    worth n m now (new_rate now m i) (omega (arith, h)) refl (omega arith)

pub allowed-first :
    (n now : ℕ) (r : RateLimiter)
    → (rate_is_allowed now r).0 ≡ true
    → allowed (suc n) now r ≡ 1 + allowed n now (rate_is_allowed now r).1
unfolding allowed
allowed-first n now r e = ap (λ b. (if b then 1 else 0) + allowed n now (rate_is_allowed now r).1) e

-- The first request of a new limiter is allowed.
pub new_rate-allowed :
    (now max_requests max_interval : ℕ)
    → 0 < max_requests
    → (rate_is_allowed now (new_rate now max_requests max_interval)).0 ≡ true
unfolding rate_is_allowed new_rate
new_rate-allowed now m i h = ground (arith, le-mul m (i * nanos) h, no_time now now m refl)

-- Each refused call adds to the credit.
more :
    (now : ℕ) (r : RateLimiter)
    → r.instant < now
    → 0 < r.max_requests
    → leb (parts r) (refilled now r) ≡ false
    → r.credit < refilled now r
more now r t m y = ground (
  arith,
  y,
  mul-positive (now - r.instant) r.max_requests (omega (arith, t)) m,
  le-mul r.max_requests (parts r) m,
)

earned :
    (n now : ℕ) (r : RateLimiter)
    → r.instant < now
    → 0 < r.max_requests
    → parts r ≤ r.credit + n
    → 0 < allowed (suc n) now r
earned zero now r t m c = elim (Bool-cases (leb (parts r) (refilled now r))) [
  | inl y ↦ omega (arith, allowed_yes 0 now r y)
  | inr y ↦ absurd (ground (arith, y, c, more now r t m y))
]
earned (suc n) now r t m c = elim (Bool-cases (leb (parts r) (refilled now r))) [
  | inl y ↦ omega (arith, allowed_yes (suc n) now r y)
  | inr y ↦ omega (
    arith,
    allowed_no (suc n) now r y,
    earned n now (record r { credit = refilled now r }) t m (omega (arith, c, more now r t m y)),
  )
]

-- However little time has passed since a request was allowed, one of so many calls at that time is
-- allowed as a request has parts, since a call that is refused adds the same time's credit again:
-- if the limit is not zero.
pub repeated_calls-allowed :
    (now : ℕ) (r : RateLimiter)
    → r.instant < now
    → 0 < r.max_requests
    → 0 < allowed (suc (parts r)) now r
repeated_calls-allowed now r t m = earned (parts r) now r t m (omega arith)
