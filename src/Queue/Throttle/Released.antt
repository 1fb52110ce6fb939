-- ===== src/Queue/Throttle/Released.antt =====
-- What a limiter counts when work goes out of flight.
use smtp_server.Base.{
  ℕ, suc, ◌+◌, ◌-◌, ◌≡◌, refl, subst, List, [], ◌∷◌, Option, none, some, ◌==◌, arith, Bool-cases,
  inl, inr,
}
use smtp_server.Base.Accounts.{AccountsFrom, AccountsFrom-cong, plus}
use smtp_server.Core.Limiter.{RateLimiter, Concurrency, Limiter, drop_in_flight}
use smtp_server.Queue.Throttle.{Table, drop_entry}
use smtp_server.Queue.Throttle.InFlight.{Holds, count, Accounts}

drop-Holds :
    (held : ℕ) (c : Concurrency) (r : Option RateLimiter)
    → Holds (held + 1) (record { rate = r; concurrency = some c })
    → Holds held (record { rate = r; concurrency = some (drop_in_flight c) })
unfolding drop_in_flight
drop-Holds held c r h = ground (arith, h)

dropped-Holds :
    (held : ℕ) (l : Limiter) (c : Option Concurrency)
    → l.concurrency ≡ c
    → Holds (held + 1) (record { rate = l.rate; concurrency = c })
    → Holds held
        (record l { concurrency = elim c [ none ↦ none | some c ↦ some (drop_in_flight c) ] })
dropped-Holds held l none e h = omega (arith, h)
dropped-Holds held l (some c) e h = drop-Holds held c l.rate h

drop_entry-AccountsFrom :
    (p place : ℕ) (table : Table) (held : ℕ → ℕ)
    → AccountsFrom Holds place table (plus (place + p) 1 held)
    → AccountsFrom Holds place (drop_entry p table) held
unfolding drop_entry
drop_entry-AccountsFrom p place [] held a = λ n. ground (arith, a n)
drop_entry-AccountsFrom p place ((k, l) ∷ table) held a = elim (Bool-cases (p == 0)) [
  | inl e ↦ rw e (
    dropped-Holds (held place) l l.concurrency refl
        (subst (λ x. Holds x l) (ground (arith, e)) a.0),
    AccountsFrom-cong Holds (suc place) table (plus (place + p) 1 held) held
        (λ n. ground (arith, e)) a.1,
  )
  | inr e ↦ rw e (
    subst (λ x. Holds x l) (ground (arith, e)) a.0,
    drop_entry-AccountsFrom (p - 1) (suc place) table held (
        AccountsFrom-cong Holds (suc place) table (plus (place + p) 1 held)
          (plus (suc place + (p - 1)) 1 held) (λ n. ground (arith, e)) a.1),
  )
]

-- When a piece of work is done its limiter still counts what is left in flight.
pub drop_entry-Accounts :
    (place : ℕ) (in_flight : List ℕ) (table : Table)
    → Accounts table (place ∷ in_flight)
    → Accounts (drop_entry place table) in_flight
drop_entry-Accounts place in_flight table a =
    drop_entry-AccountsFrom place 0 table (count in_flight) (
      AccountsFrom-cong Holds 0 table (count (place ∷ in_flight))
        (plus (0 + place) 1 (count in_flight)) (λ n. ground arith) a)
