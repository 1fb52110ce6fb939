-- ===== src/Session/Throttle/Recipient.antt =====
-- What the throttle of a recipient lets through.
use smtp_server.Base.{
  ℕ, zero, suc, ◌+◌, ◌≤◌, ◌<◌, ◌≡◌, refl, ap, ◌∙◌, [], ◌∷◌, Option, none, some, Bytes, bytes_eq,
  bytes_eq_refl, Bool, true, Bool-cases, inl, inr, if◌then◌else◌, arith,
}
use smtp_server.Core.Key.{Rate}
use smtp_server.Core.Limiter.{Limiter, RateLimiter, new_rate, rate_is_allowed}
use smtp_server.Core.Limiter.Rates.{allowed, allowed-new_rate, allowed-first, new_rate-allowed}
use smtp_server.Queue.Throttle.{Table}
use smtp_server.Session.Throttle.{new_rcpt_limiter, ask_rate, ask_entry, rcpt_key, throttle_rcpt}

-- The limiter of a key.
abbrev pub limiter_of : Bytes → Table → Option Limiter
limiter_of key [] = none
limiter_of key ((k, l) ∷ table) = if bytes_eq k key then some l else limiter_of key table

-- The answer under a key, and the limiter after it.
abbrev pub asked : ℕ → Rate → Option Limiter → Bool × Limiter
asked now rate none = (true, new_rcpt_limiter now rate)
asked now rate (some l) = ask_rate now l

ask_entry-limiter_of :
    (now : ℕ) (key : Bytes) (rate : Rate) (table : Table)
    → (let r = ask_entry now key rate table in
        let a = asked now rate (limiter_of key table) in
        (r.0 ≡ a.0) × (limiter_of key r.1 ≡ some a.1))
unfolding ask_entry
ask_entry-limiter_of now key rate [] = (refl, rw (bytes_eq_refl key) refl)
ask_entry-limiter_of now key rate ((k, x) ∷ table) = elim (Bool-cases (bytes_eq k key)) [
  | inl p ↦ rw p (refl, rw p refl)
  | inr p ↦ let rest = ask_entry-limiter_of now key rate table in rw p (rest.0, rw p rest.1)
]

module _ (blake3 : Bytes → Bytes) (now : ℕ) (rcpt : Bytes) (rate : Rate) (ctx : Bytes) where
  -- How many of so many calls at one time are allowed.
  unfoldable pub granted : ℕ → Table → ℕ
  granted zero table = 0
  granted (suc n) table =
      let r = throttle_rcpt blake3 now rcpt rate ctx table in (if r.0 then 1 else 0) + granted n r.1

  granted-known :
      (n : ℕ) (table : Table) (r : RateLimiter)
      → limiter_of (blake3 (rcpt_key rcpt rate ctx)) table
        ≡ some (record { rate = some r; concurrency = none })
      → granted n table ≡ allowed n now r
  unfolding granted throttle_rcpt allowed
  granted-known zero table r e = refl
  granted-known (suc n) table r e =
      let key = blake3 (rcpt_key rcpt rate ctx) in
      let x = ask_entry-limiter_of now key rate table in
      let a = rate_is_allowed now r in
      let first : (ask_entry now key rate table).0 ≡ a.0 = x.0 ∙ ap (λ o. (asked now rate o).0) e in
      let next : limiter_of key (ask_entry now key rate table).1
          ≡ some (record { rate = some a.1; concurrency = none }) =
        x.1 ∙ ap (λ o. some (asked now rate o).1) e in
      ap (λ b. (if b then 1 else 0) + granted n (ask_entry now key rate table).1) first
      ∙ ap (λ m. (if a.0 then 1 else 0) + m)
          (granted-known n (ask_entry now key rate table).1 a.1 next)

  granted-new :
      (n : ℕ) (table : Table)
      → limiter_of (blake3 (rcpt_key rcpt rate ctx)) table ≡ none
      → granted (suc n) table
        ≡ 1 + allowed n now (rate_is_allowed now (new_rate now rate.requests rate.period)).1
  unfolding granted throttle_rcpt
  granted-new n table e =
      let key = blake3 (rcpt_key rcpt rate ctx) in
      let x = ask_entry-limiter_of now key rate table in
      let r = (rate_is_allowed now (new_rate now rate.requests rate.period)).1 in
      let first : (ask_entry now key rate table).0 ≡ true =
        x.0 ∙ ap (λ o. (asked now rate o).0) e in
      let next : limiter_of key (ask_entry now key rate table).1
          ≡ some (record { rate = some r; concurrency = none }) =
        x.1 ∙ ap (λ o. some (asked now rate o).1) e in
      ap (λ b. (if b then 1 else 0) + granted n (ask_entry now key rate table).1) first
      ∙ ap (λ m. 1 + m) (granted-known n (ask_entry now key rate table).1 r next)

-- Of the calls for a recipient that has no limiter yet, however many at one time, at most as many
-- are allowed as the rate has requests, if neither these nor the period are zero.
pub granted-bound :
    (blake3 : Bytes → Bytes) (now : ℕ) (rcpt : Bytes) (rate : Rate) (ctx : Bytes) (n : ℕ)
    (table : Table)
    → limiter_of (blake3 (rcpt_key rcpt rate ctx)) table ≡ none
    → 0 < rate.requests
    → 0 < rate.period
    → granted blake3 now rcpt rate ctx n table ≤ rate.requests
unfolding granted
granted-bound blake3 now rcpt rate ctx zero table e m p = omega arith
granted-bound blake3 now rcpt rate ctx (suc n) table e m p =
    let r = new_rate now rate.requests rate.period in
    omega (
      arith,
      granted-new blake3 now rcpt rate ctx n table e,
      allowed-first n now r (new_rate-allowed now rate.requests rate.period m),
      allowed-new_rate (suc n) now rate.requests rate.period p,
    )
