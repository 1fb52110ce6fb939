-- ===== src/Queue/Throttle/InFlight.antt =====
-- Each limiter counts the work that is in flight, and there is never more of it than its limit.
use smtp_server.Base.{
  ℕ, suc, ◌+◌, ◌^◌, ◌≤◌, ◌<◌, ◌≡◌, ◌⊎◌, refl, sym, ◌∙◌, subst, ap, true, false, List, [], ◌∷◌, ◌++◌,
  Option, none, some, Bytes, bytes_eq, ◌==◌, if◌then◌else◌, arith, Bool-cases, inl, inr,
}
use smtp_server.Base.Accounts.{
  AccountsFrom, AccountsFrom-cong, plus, after_demand, AtLeast, AtLeast-weaken, untouched, behind,
}
use smtp_server.Core.Envelope.{Envelope}
use smtp_server.Core.Key.{Throttle, Rate, throttle_key}
use smtp_server.Core.Limiter.{
  RateLimiter, Concurrency, Limiter, new_concurrency, concurrency_is_allowed,
}
use smtp_server.Queue.Throttle.{
  Table, check_rate, check_limiter, first_limiter, check_entry, push_some, applies, is_allowed,
}

-- The counter of a limiter of concurrent work, if there is one, is what is in flight, and that is
-- at most the limit.
abbrev pub Holds : ℕ → Limiter → Type 0
Holds held l = elim l.concurrency [
  | none ↦ held ≡ 0
  | some c ↦ (c.max_concurrent < 2 ^ 64) × (c.concurrent ≡ held) × (held ≤ c.max_concurrent)
]

-- The work in flight at a limiter.
abbrev pub count : List ℕ → ℕ → ℕ
count [] place = 0
count (p ∷ ps) place = (if p == place then 1 else 0) + count ps place

abbrev pub Accounts : Table → List ℕ → Type 0
Accounts table in_flight = AccountsFrom Holds 0 table (count in_flight)

-- What one more piece of work, or none, makes of the number at a place.
abbrev one_more : Option ℕ → ℕ → ℕ
one_more none held = held
one_more (some place) held = held + 1

check_rate-Holds :
    (now held : ℕ) (o : Option ℕ) (r : Option RateLimiter) (c : Option Concurrency)
    → Holds held (record { rate = r; concurrency = c })
    → (let x = check_rate now o r c in Holds held x.limiter × (x.in_flight ≡ o))
check_rate-Holds now held o none c h = (h, refl)
check_rate-Holds now held o (some r) c h = (h, refl)

allowed-Holds :
    (held : ℕ) (c : Concurrency)
    → (concurrency_is_allowed c).0 ≡ true
    → (c.max_concurrent < 2 ^ 64) × (c.concurrent ≡ held) × (held ≤ c.max_concurrent)
    → (let c' = (concurrency_is_allowed c).1 in
        (c'.max_concurrent < 2 ^ 64) × (c'.concurrent ≡ held + 1) × (held + 1 ≤ c'.max_concurrent))
unfolding concurrency_is_allowed
allowed-Holds held c p h = ground (arith, p, h)

refused-Holds :
    (held : ℕ) (c : Concurrency)
    → (concurrency_is_allowed c).0 ≡ false
    → (c.max_concurrent < 2 ^ 64) × (c.concurrent ≡ held) × (held ≤ c.max_concurrent)
    → (let c' = (concurrency_is_allowed c).1 in
        (c'.max_concurrent < 2 ^ 64) × (c'.concurrent ≡ held) × (held ≤ c'.max_concurrent))
unfolding concurrency_is_allowed
refused-Holds held c p h = ground (arith, p, h)

check_limiter-Holds :
    (now place held : ℕ) (r : Option RateLimiter) (c : Option Concurrency)
    → Holds held (record { rate = r; concurrency = c })
    → (let x = check_limiter now place r c in Holds (one_more x.in_flight held) x.limiter)
unfolding check_limiter
check_limiter-Holds now place held r none h =
    let x = check_rate-Holds now held none r none h in
    subst (λ o. Holds (one_more o held) (check_rate now none r none).limiter) (sym x.1) x.0
check_limiter-Holds now place held r (some c) h = elim (Bool-cases (concurrency_is_allowed c).0) [
  | inl p ↦
      let c' = (concurrency_is_allowed c).1 in
      let x = check_rate-Holds now (held + 1) (some place) r (some c') (allowed-Holds held c p h) in
      rw p (
        subst (λ o. Holds (one_more o held) (check_rate now (some place) r (some c')).limiter)
          (sym x.1) x.0)
  | inr p ↦ rw p h
]

-- Only the limiter that was asked can have something more in flight.
abbrev OnlyAt : ℕ → Option ℕ → Type 0
OnlyAt place o = (o ≡ none) ⊎ (o ≡ some place)

only_some : (place q : ℕ) → OnlyAt place (some q) → q ≡ place
only_some place q (inl e) = cc
only_some place q (inr e) = cc

check_limiter-OnlyAt :
    (now place : ℕ) (r : Option RateLimiter) (c : Option Concurrency)
    → OnlyAt place (check_limiter now place r c).in_flight
unfolding check_limiter
check_limiter-OnlyAt now place none none = inl refl
check_limiter-OnlyAt now place (some r) none = inl refl
check_limiter-OnlyAt now place none (some c) = elim (Bool-cases (concurrency_is_allowed c).0) [
  | inl p ↦ rw p (inr refl)
  | inr p ↦ rw p (inl refl)
]
check_limiter-OnlyAt now place (some r) (some c) = elim (Bool-cases (concurrency_is_allowed c).0) [
  | inl p ↦ rw p (inr refl)
  | inr p ↦ rw p (inl refl)
]

abbrev pub LimitFits : Option ℕ → Type 0
LimitFits none = Unit
LimitFits (some n) = n < 2 ^ 64

abbrev pub ThrottleFits : Throttle → Type 0
ThrottleFits t = LimitFits t.concurrency

first_limiter-Holds :
    (now place : ℕ) (r : Option Rate) (c : Option ℕ)
    → LimitFits c
    → (let x = first_limiter now place r c in
        Holds (one_more x.in_flight 0) x.limiter × OnlyAt place x.in_flight)
unfolding first_limiter
first_limiter-Holds now place r none f = (refl, inl refl)
first_limiter-Holds now place r (some n) f =
    elim (Bool-cases (concurrency_is_allowed (new_concurrency n)).0) [
      | inl p ↦ rw p (allowed-Holds 0 (new_concurrency n) p (f, refl, omega arith), inr refl)
      | inr p ↦ rw p (refused-Holds 0 (new_concurrency n) p (f, refl, omega arith), inl refl)
    ]

at_place :
    (place : ℕ) (held : ℕ → ℕ) (o : Option ℕ) (l : Limiter)
    → OnlyAt place o
    → Holds (one_more o (held place)) l
    → Holds (after_demand 1 held o place) l
at_place place held none l p h = h
at_place place held (some q) l p h = subst (λ n. Holds n l) (ground (arith, only_some place q p)) h

behind_only :
    (place : ℕ) (table : Table) (held : ℕ → ℕ) (o : Option ℕ)
    → OnlyAt place o
    → AccountsFrom Holds (suc place) table held
    → AccountsFrom Holds (suc place) table (after_demand 1 held o)
behind_only place table held none p a = a
behind_only place table held (some q) p a =
    subst (λ n. AccountsFrom Holds (suc place) table (plus n 1 held)) (sym (only_some place q p))
      (behind Holds 1 place table held a)

only-AtLeast : (place : ℕ) (o : Option ℕ) → OnlyAt place o → AtLeast place o
only-AtLeast place none p = tt
only-AtLeast place (some q) p = omega (arith, only_some place q p)

check_entry-AtLeast :
    (now : ℕ) (key : Bytes) (t : Throttle) (place : ℕ) (table : Table)
    → ThrottleFits t
    → AtLeast place (check_entry now key t place table).0
unfolding check_entry
check_entry-AtLeast now key t place [] f =
    only-AtLeast place _ (first_limiter-Holds now place t.rate t.concurrency f).1
check_entry-AtLeast now key t place ((k, l) ∷ table) f = elim (Bool-cases (bytes_eq k key)) [
  | inl p ↦ rw p (only-AtLeast place _ (check_limiter-OnlyAt now place l.rate l.concurrency))
  | inr p ↦ rw p (
      AtLeast-weaken place (check_entry now key t (suc place) table).0
        (check_entry-AtLeast now key t (suc place) table f))
]

pub check_entry-AccountsFrom :
    (now : ℕ) (key : Bytes) (t : Throttle) (place : ℕ) (table : Table) (held : ℕ → ℕ)
    → ThrottleFits t
    → AccountsFrom Holds place table held
    → (let r = check_entry now key t place table in
        AccountsFrom Holds place r.2 (after_demand 1 held r.0))
unfolding check_entry
check_entry-AccountsFrom now key t place [] held f a =
    let x = first_limiter-Holds now place t.rate t.concurrency f in
    let o = first_limiter now place t.rate t.concurrency in
    let none_held : 0 ≡ held place = sym (a 0) ∙ ap held (omega arith) in
    (
      at_place place held o.in_flight o.limiter x.1
          (subst (λ n. Holds (one_more o.in_flight n) o.limiter) none_held x.0),
      behind_only place [] held o.in_flight x.1 (λ n. ap held (omega arith) ∙ a (suc n)),
    )
check_entry-AccountsFrom now key t place ((k, l) ∷ table) held f a =
    elim (Bool-cases (bytes_eq k key)) [
      | inl p ↦
          let o = check_limiter now place l.rate l.concurrency in
          let only = check_limiter-OnlyAt now place l.rate l.concurrency in
          rw p (
            at_place place held o.in_flight o.limiter only
                (check_limiter-Holds now place (held place) l.rate l.concurrency a.0),
            behind_only place table held o.in_flight only a.1,
          )
      | inr p ↦
          let o = (check_entry now key t (suc place) table).0 in
          rw p (
            subst (λ n. Holds n l)
                (untouched 1 place held o (check_entry-AtLeast now key t (suc place) table f)) a.0,
            check_entry-AccountsFrom now key t (suc place) table held f a.1,
          )
    ]

count-snoc : (ps : List ℕ) (p place : ℕ) → count (ps ++ p ∷ []) place ≡ plus p 1 (count ps) place
count-snoc [] p place = ground arith
count-snoc (q ∷ ps) p place = ground (arith, count-snoc ps p place)

pub pushed :
    (table : Table) (in_flight : List ℕ) (o : Option ℕ)
    → AccountsFrom Holds 0 table (after_demand 1 (count in_flight) o)
    → Accounts table (push_some in_flight o)
pushed table in_flight none a = a
pushed table in_flight (some p) a =
    AccountsFrom-cong Holds 0 table (plus p 1 (count in_flight)) (count (in_flight ++ p ∷ []))
      (λ n. sym (count-snoc in_flight p (0 + n))) a

-- A throttle that is asked allows or refuses, and each limiter of concurrent work still counts what
-- is in flight at it, which is at most its limit: if that holds before, and the limits are words.
pub is_allowed-Accounts :
    (blake3 : Bytes → Bytes) (now : ℕ) (t : Throttle) (e : Envelope) (in_flight : List ℕ)
    (table : Table)
    → ThrottleFits t
    → Accounts table in_flight
    → (let r = is_allowed blake3 now t e in_flight table in Accounts r.2 r.1)
unfolding is_allowed
is_allowed-Accounts blake3 now t e in_flight table f a = elim (Bool-cases (applies t e)) [
  | inl p ↦
      let key = blake3 (throttle_key t e) in
      rw p (
        pushed (check_entry now key t 0 table).2 in_flight (check_entry now key t 0 table).0
          (check_entry-AccountsFrom now key t 0 table (count in_flight) f a))
  | inr p ↦ rw p a
]
