-- ===== src/Queue/Quota/Accounting.antt =====
-- Each limiter holds as much as its references say.
use smtp_server.Base.{
  ℕ, suc, ◌+◌, ◌-◌, ◌^◌, ◌<◌, ◌≡◌, ◌⊎◌, inl, inr, sym, ◌∙◌, subst, ap, Bool, true, false, List, [],
  ◌∷◌, Bytes, bytes_eq, ◌==◌, if◌then◌else◌, arith, Bool-cases,
}
use smtp_server.Queue.Message.{UsedQuota}
use smtp_server.Base.Accounts.{
  AccountsFrom, AccountsFrom-cong, plus, after_demand, AtLeast, AtLeast-weaken, untouched, behind,
}
use smtp_server.Queue.Quota.{
  QuotaLimiter, Table, is_allowed, release, reserve_entry, release_entry, granted,
}

-- The sizes of the references to a limiter.
abbrev pub total : List UsedQuota → ℕ → ℕ
total [] place = 0
total (q ∷ refs) place = (if q.limiter == place then q.size else 0) + total refs place

-- A limit on the size is below 2 ^ 63; if there is one, the limiter's size is the given one and
-- within the limit.
abbrev pub Holds : ℕ → QuotaLimiter → Type 0
Holds held l = (l.max_size < 2 ^ 63) × ((l.max_size ≡ 0) ⊎ ((l.size ≡ held) × (held < l.max_size)))

abbrev pub Accounts : Table → List UsedQuota → Type 0
Accounts table refs = AccountsFrom Holds 0 table (total refs)

is_allowed-Holds :
    (held size : ℕ) (l : QuotaLimiter)
    → size < 2 ^ 63
    → Holds held l
    → Holds (if (is_allowed size l).0 then held + size else held) (is_allowed size l).1
unfolding is_allowed
is_allowed-Holds held size l s h = ground (arith, s, h)

release-Holds :
    (held size : ℕ) (l : QuotaLimiter)
    → size < 2 ^ 63
    → Holds (held + size) l
    → Holds held (release size l)
unfolding release
release-Holds held size l s h = ground (arith, s, h)

granted-AtLeast : (place : ℕ) (ok : Bool) → AtLeast place (granted place ok)
granted-AtLeast place true = omega arith
granted-AtLeast place false = tt

reserve_entry-AtLeast :
    (key : Bytes) (new : QuotaLimiter) (size place : ℕ) (table : Table)
    → AtLeast place (reserve_entry key new size place table).0
unfolding reserve_entry
reserve_entry-AtLeast key new size place [] = granted-AtLeast place (is_allowed size new).0
reserve_entry-AtLeast key new size place ((k, l) ∷ table) = elim (Bool-cases (bytes_eq k key)) [
  | inl p ↦ rw p (granted-AtLeast place (is_allowed size l).0)
  | inr p ↦ rw p (
      AtLeast-weaken place (reserve_entry key new size (suc place) table).0
        (reserve_entry-AtLeast key new size (suc place) table))
]

at_place :
    (size place : ℕ) (held : ℕ → ℕ) (l : QuotaLimiter) (ok : Bool)
    → Holds (if ok then held place + size else held place) l
    → Holds (after_demand size held (granted place ok) place) l
at_place size place held l true h = subst (λ x. Holds x l) (ground arith) h
at_place size place held l false h = h

behind_granted :
    (size place : ℕ) (table : Table) (held : ℕ → ℕ) (ok : Bool)
    → AccountsFrom Holds (suc place) table held
    → AccountsFrom Holds (suc place) table (after_demand size held (granted place ok))
behind_granted size place table held true a = behind Holds size place table held a
behind_granted size place table held false a = a

added :
    (key : Bytes) (size place : ℕ) (held : ℕ → ℕ) (l : QuotaLimiter) (ok : Bool)
    → ((n : ℕ) → held (place + n) ≡ 0)
    → Holds (if ok then held place + size else held place) l
    → AccountsFrom Holds place
        (if ok then (key, l) ∷ [] else [])
        (after_demand size held (granted place ok))
added key size place held l true a h = (
  at_place size place held l true h,
  behind Holds size place [] held (λ n. ap held (omega arith) ∙ a (suc n)),
)
added key size place held l false a h = a

pub reserve_entry-AccountsFrom :
    (key : Bytes) (new : QuotaLimiter) (size place : ℕ) (table : Table) (held : ℕ → ℕ)
    → size < 2 ^ 63
    → Holds 0 new
    → AccountsFrom Holds place table held
    → (let r = reserve_entry key new size place table in
        AccountsFrom Holds place r.1 (after_demand size held r.0))
unfolding reserve_entry
reserve_entry-AccountsFrom key new size place [] held s h a =
    let none_held : 0 ≡ held place = sym (a 0) ∙ ap held (omega arith) in
    added key size place held (is_allowed size new).1 (is_allowed size new).0 a
      (is_allowed-Holds (held place) size new s (subst (λ x. Holds x new) none_held h))
reserve_entry-AccountsFrom key new size place ((k, l) ∷ table) held s h a =
    elim (Bool-cases (bytes_eq k key)) [
      | inl p ↦
          let ok = (is_allowed size l).0 in
          rw p (
            at_place size place held (is_allowed size l).1 ok
                (is_allowed-Holds (held place) size l s a.0),
            behind_granted size place table held ok a.1,
          )
      | inr p ↦
          let o = (reserve_entry key new size (suc place) table).0 in
          rw p (
            subst (λ x. Holds x l)
                (untouched size place held o (reserve_entry-AtLeast key new size (suc place) table))
                a.0,
            reserve_entry-AccountsFrom key new size (suc place) table held s h a.1,
          )
    ]

pub release_entry-AccountsFrom :
    (q size place : ℕ) (table : Table) (held : ℕ → ℕ)
    → size < 2 ^ 63
    → AccountsFrom Holds place table (plus (place + q) size held)
    → AccountsFrom Holds place (release_entry q size table) held
unfolding release_entry
release_entry-AccountsFrom q size place [] held s a = λ n. ground (arith, a n)
release_entry-AccountsFrom q size place ((k, l) ∷ table) held s a = elim (Bool-cases (q == 0)) [
  | inl p ↦ rw p (
    release-Holds (held place) size l s (subst (λ x. Holds x l) (ground (arith, p)) a.0),
    AccountsFrom-cong Holds (suc place) table (plus (place + q) size held) held
        (λ n. ground (arith, p)) a.1,
  )
  | inr p ↦ rw p (
    subst (λ x. Holds x l) (ground (arith, p)) a.0,
    release_entry-AccountsFrom (q - 1) size (suc place) table held s (
        AccountsFrom-cong Holds (suc place) table (plus (place + q) size held)
          (plus (suc place + (q - 1)) size held) (λ n. ground (arith, p)) a.1),
  )
]
