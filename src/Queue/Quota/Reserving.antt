-- ===== src/Queue/Quota/Reserving.antt =====
-- The accounts stay right when a message asks for its quotas, and when it gives references back.
use smtp_server.Base.{
  ℕ, suc, ◌+◌, ◌<◌, ◌^◌, ◌≡◌, inl, inr, Bool, not, List, [], ◌∷◌, ◌++◌, Option, none, some, Bytes,
  All, keep, arith, Bool-cases, Option-cases,
}
use smtp_server.Core.Key.{QueueQuota, quota_key}
use smtp_server.Queue.Message.{UsedQuota, Message, Domain, Recipient}
use smtp_server.Queue.Envelopes.{message_envelope}
use smtp_server.Queue.Quota.{
  QueueQuotas, Table, reserve_entry, release_entry, release_all, new_limiter, or_zero, Demand,
  demands, domain_demands, rcpt_demands, for_quotas, is_subject, reserve_each, has_quota,
  release_quota, finished_domains, finished_rcpts, is_among,
}
use smtp_server.Base.Accounts.{AccountsFrom-cong, plus}
use smtp_server.Queue.Quota.Accounting.{
  Accounts, Holds, total, reserve_entry-AccountsFrom, release_entry-AccountsFrom,
}

total-append : (xs ys : List UsedQuota) (p : ℕ) → total (xs ++ ys) p ≡ total xs p + total ys p
total-append [] ys p = omega arith
total-append (x ∷ xs) ys p = omega (arith, total-append xs ys p)

abbrev pub RefsFit : List UsedQuota → Type 0
RefsFit refs = All (λ q. q.size < 2 ^ 63) refs

abbrev pub QuotaFits : QueueQuota → Type 0
QuotaFits quota = or_zero quota.size < 2 ^ 63

abbrev pub DemandFits : Demand → Type 0
DemandFits d = QuotaFits d.quota

new_limiter-Holds : (quota : QueueQuota) → QuotaFits quota → Holds 0 (new_limiter quota)
new_limiter-Holds quota f = ground (arith, f)

same_total :
    (table : Table) (xs ys : List UsedQuota)
    → ((p : ℕ) → total xs p ≡ total ys p)
    → Accounts table xs
    → Accounts table ys
same_total table xs ys e a =
    AccountsFrom-cong Holds 0 table (total xs) (total ys) (λ n. e (0 + n)) a

pub release_all-Accounts :
    (refs others : List UsedQuota) (table : Table)
    → RefsFit refs
    → Accounts table (refs ++ others)
    → Accounts (release_all refs table) others
unfolding release_all
release_all-Accounts [] others table f a = a
release_all-Accounts (q ∷ refs) others table f a =
    release_all-Accounts refs others (release_entry q.limiter q.size table) f.1 (
      release_entry-AccountsFrom q.limiter q.size 0 table (total (refs ++ others)) f.0 (
        AccountsFrom-cong Holds 0 table (total (q ∷ (refs ++ others)))
          (plus (0 + q.limiter) q.size (total (refs ++ others))) (λ n. ground arith) a))

snoc-RefsFit :
    (q : UsedQuota) (refs : List UsedQuota)
    → q.size < 2 ^ 63
    → RefsFit refs
    → RefsFit (refs ++ q ∷ [])
snoc-RefsFit q [] s f = (s, tt)
snoc-RefsFit q (r ∷ refs) s f = (f.0, snoc-RefsFit q refs s f.1)

-- The references after the demands, before the others.
abbrev held_after : Option (List UsedQuota) → List UsedQuota → List UsedQuota
held_after none others = others
held_after (some refs) others = refs ++ others

pub record QuotasFit (quotas : QueueQuotas) : Type 0 where
  pub sender : All QuotaFits quotas.sender
  pub rcpt : All QuotaFits quotas.rcpt
  pub rcpt_domain : All QuotaFits quotas.rcpt_domain

append-All :
    (xs ys : List Demand) → All DemandFits xs → All DemandFits ys → All DemandFits (xs ++ ys)
append-All [] ys f g = g
append-All (x ∷ xs) ys f g = (f.0, append-All xs ys f.1 g)

for_quotas-All :
    (f : QueueQuota → List Demand) (qs : List QueueQuota)
    → ((q : QueueQuota) → QuotaFits q → All DemandFits (f q))
    → All QuotaFits qs
    → All DemandFits (for_quotas f qs)
for_quotas-All f [] h fs = tt
for_quotas-All f (q ∷ qs) h fs =
    append-All (f q) (for_quotas f qs) (h q fs.0) (for_quotas-All f qs h fs.1)

domain_demands-All :
    (m : Message) (q : QueueQuota) (pos : ℕ) (ds : List Domain)
    → QuotaFits q
    → All DemandFits (domain_demands m q pos ds)
unfolding domain_demands
domain_demands-All m q pos [] f = tt
domain_demands-All m q pos (d ∷ ds) f = (f, domain_demands-All m q (suc pos) ds f)

rcpt_demands-All :
    (m : Message) (q : QueueQuota) (pos : ℕ) (rs : List Recipient)
    → QuotaFits q
    → All DemandFits (rcpt_demands m q pos rs)
unfolding rcpt_demands
rcpt_demands-All m q pos [] f = tt
rcpt_demands-All m q pos (r ∷ rs) f = (f, rcpt_demands-All m q (suc pos) rs f)

demands-All :
    (quotas : QueueQuotas) (m : Message) → QuotasFit quotas → All DemandFits (demands quotas m)
unfolding demands
demands-All quotas m f =
    let of_sender : QueueQuota → List Demand =
      λ q. record { quota = q; envelope = message_envelope m; id = 0 } ∷ [] in
    let of_domains = λ (q : QueueQuota). domain_demands m q 0 m.domains in
    let of_rcpts = λ (q : QueueQuota). rcpt_demands m q 0 m.recipients in
    append-All (for_quotas of_sender quotas.sender) _
      (for_quotas-All of_sender quotas.sender (λ q h. (h, tt)) f.sender)
      (append-All (for_quotas of_domains quotas.rcpt_domain) (for_quotas of_rcpts quotas.rcpt)
        (for_quotas-All of_domains quotas.rcpt_domain (λ q h. domain_demands-All m q 0 m.domains h)
          f.rcpt_domain)
        (for_quotas-All of_rcpts quotas.rcpt (λ q h. rcpt_demands-All m q 0 m.recipients h) f.rcpt))

swapped :
    (xs ys zs : List UsedQuota) (p : ℕ) → total (xs ++ (ys ++ zs)) p ≡ total (ys ++ (xs ++ zs)) p
swapped xs ys zs p = omega (
  arith,
  total-append xs (ys ++ zs) p,
  total-append ys zs p,
  total-append ys (xs ++ zs) p,
  total-append xs zs p,
)

module _ (blake3 : Bytes → Bytes) where
  reserve_each-Accounts :
      (size : ℕ) (ds : List Demand) (refs others : List UsedQuota) (table : Table)
      → size < 2 ^ 63
      → All DemandFits ds
      → RefsFit refs
      → Accounts table (refs ++ others)
      → (let r = reserve_each blake3 size ds refs table in Accounts r.1 (held_after r.0 others))
  unfolding reserve_each
  reserve_each-Accounts size [] refs others table s fs f a = a
  reserve_each-Accounts size (d ∷ ds) refs others table s fs f a =
      elim (Bool-cases (is_subject d.quota d.envelope)) [
        | inr p ↦ rw (p, reserve_each) (reserve_each-Accounts size ds refs others table s fs.1 f a)
        | inl p ↦
            let key = blake3 (quota_key d.quota d.envelope) in
            let r = reserve_entry key (new_limiter d.quota) size 0 table in
            let a' =
              reserve_entry-AccountsFrom key (new_limiter d.quota) size 0 table
                (total (refs ++ others)) s (new_limiter-Holds d.quota fs.0) a in
            elim (Option-cases r.0) [
              | inl e ↦
                  rw (p, e, reserve_each) (release_all-Accounts refs others r.1 f (rw e at a'))
              | inr (place, e) ↦
                  let q : UsedQuota = record { id = d.id; size = size; limiter = place } in
                  rw (p, e, reserve_each)
                    (reserve_each-Accounts size ds (refs ++ q ∷ []) others r.1 s fs.1
                      (snoc-RefsFit q refs s f)
                      (AccountsFrom-cong Holds 0 r.1 (plus place size (total (refs ++ others)))
                        (total ((refs ++ q ∷ []) ++ others))
                        (λ n. ground (
                          arith,
                          total-append refs others (0 + n),
                          total-append (refs ++ q ∷ []) others (0 + n),
                          total-append refs (q ∷ []) (0 + n),
                        ))
                        (rw e at a')))
            ]
      ]

  -- Whether the quotas let a message in or not, each limiter in the table still holds the sum of
  -- the sizes of the references to it, those of this message and all others, and a sum of sizes
  -- that has a limit is below it: if the sizes and the limits on sizes are below 2 ^ 63.
  pub has_quota-Accounts :
      (quotas : QueueQuotas) (m : Message) (table : Table) (others : List UsedQuota)
      → m.size < 2 ^ 63
      → QuotasFit quotas
      → RefsFit m.queue_refs
      → Accounts table (m.queue_refs ++ others)
      → (let r = has_quota blake3 quotas m table in Accounts r.2 (r.1.queue_refs ++ others))
  unfolding has_quota
  has_quota-Accounts quotas m table others s fits f a =
      let old = m.queue_refs in
      let r = reserve_each blake3 m.size (demands quotas m) [] table in
      let a' =
        reserve_each-Accounts m.size (demands quotas m) [] (old ++ others) table s
          (demands-All quotas m fits) tt a in
      elim (Option-cases r.0) [
        | inl e ↦ rw (e, has_quota) (rw e at a')
        | inr (refs, e) ↦
            rw (e, has_quota)
              (release_all-Accounts old (refs ++ others) r.1 f (
                same_total r.1 (refs ++ (old ++ others)) (old ++ (refs ++ others))
                  (swapped refs old others) (rw e at a')))
      ]

keep-RefsFit : (p : UsedQuota → Bool) (refs : List UsedQuota) → RefsFit refs → RefsFit (keep p refs)
keep-RefsFit p [] f = tt
keep-RefsFit p (q ∷ refs) f = elim (Bool-cases (p q)) [
  | inl e ↦ rw e (f.0, keep-RefsFit p refs f.1)
  | inr e ↦ rw e (keep-RefsFit p refs f.1)
]

parted :
    (p : UsedQuota → Bool) (refs : List UsedQuota) (x : ℕ)
    → total refs x ≡ total (keep p refs) x + total (keep (λ q. not (p q)) refs) x
parted p [] x = omega arith
parted p (q ∷ refs) x = elim (Bool-cases (p q)) [
  | inl e ↦ rw e (omega (arith, parted p refs x))
  | inr e ↦ rw e (omega (arith, parted p refs x))
]

-- When a message gives back what it holds for finished domains and recipients, each limiter in the
-- table still holds the sum of the sizes of the references that are left to it, if the sizes are
-- below 2 ^ 63.
pub release_quota-Accounts :
    (m : Message) (table : Table) (others : List UsedQuota)
    → RefsFit m.queue_refs
    → Accounts table (m.queue_refs ++ others)
    → (let r = release_quota m table in Accounts r.1 (r.0.queue_refs ++ others))
unfolding release_quota
release_quota-Accounts m table others f a =
    let ids = finished_domains 0 m.domains ++ finished_rcpts 0 m.recipients in
    let gone = keep (is_among ids) m.queue_refs in
    let kept = keep (λ q. not (is_among ids q)) m.queue_refs in
    release_all-Accounts gone (kept ++ others) table (keep-RefsFit (is_among ids) m.queue_refs f) (
      same_total table (m.queue_refs ++ others) (gone ++ (kept ++ others))
        (λ p. omega (
          arith,
          total-append m.queue_refs others p,
          total-append gone (kept ++ others) p,
          total-append kept others p,
          parted (is_among ids) m.queue_refs p,
        ))
        a)
