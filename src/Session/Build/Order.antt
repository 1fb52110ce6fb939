-- ===== src/Session/Build/Order.antt =====
-- src/core/mod.rs and src/inbound/data.rs: the order of the recipients of a message that is built.
use mathlib.Core.List.{Perm}
use mathlib.Core.List.Perm
use smtp_server.Base.{
  ◌≡◌, refl, Bool, true, false, List, [], ◌∷◌, Bytes, bytes_eq, if◌then◌else◌, arith, Bool-cases,
  inl, inr,
}
use smtp_server.Session.State.{SessionAddress}
use smtp_server.Session.Build.{bytes_lt, address_lt, insert_sorted, sort_addresses}

-- No address stands right behind one that it is before, by domain and then by address.
abbrev pub IsSorted : List SessionAddress → Type 0
IsSorted [] = Unit
IsSorted (a ∷ []) = Unit
IsSorted (a ∷ b ∷ rest) = (address_lt b a ≡ false) × IsSorted (b ∷ rest)

bytes_lt_asym : (xs ys : Bytes) → bytes_lt xs ys ≡ true → bytes_lt ys xs ≡ false
bytes_lt_asym xs [] h = absurd (cc h)
bytes_lt_asym [] (y ∷ ys) h = refl
bytes_lt_asym (x ∷ xs) (y ∷ ys) h = ground (arith, bytes_lt_asym xs ys, h)

bytes_eq_comm : (xs ys : Bytes) → bytes_eq xs ys ≡ bytes_eq ys xs
unfolding bytes_eq
bytes_eq_comm [] [] = refl
bytes_eq_comm [] (y ∷ ys) = refl
bytes_eq_comm (x ∷ xs) [] = refl
bytes_eq_comm (x ∷ xs) (y ∷ ys) = ground (arith, bytes_eq_comm xs ys)

bytes_lt_irrefl : (xs ys : Bytes) → bytes_eq xs ys ≡ true → bytes_lt xs ys ≡ false
unfolding bytes_eq
bytes_lt_irrefl [] [] h = refl
bytes_lt_irrefl [] (y ∷ ys) h = absurd (cc h)
bytes_lt_irrefl (x ∷ xs) [] h = refl
bytes_lt_irrefl (x ∷ xs) (y ∷ ys) h = ground (arith, bytes_lt_irrefl xs ys, h)

address_lt_asym : (a b : SessionAddress) → address_lt a b ≡ true → address_lt b a ≡ false
address_lt_asym a b h = ground (
  arith,
  bytes_lt_asym a.domain b.domain,
  bytes_lt_asym a.address_lcase b.address_lcase,
  bytes_eq_comm a.domain b.domain,
  bytes_lt_irrefl a.domain b.domain,
  bytes_lt_irrefl b.domain a.domain,
  h,
)

-- What is inserted stands behind an address only if it is not before it.
insert_behind :
    (a c : SessionAddress) (cs : List SessionAddress)
    → address_lt a c ≡ false
    → IsSorted (c ∷ cs)
    → IsSorted (c ∷ insert_sorted a cs)
unfolding insert_sorted
insert_behind a c [] h s = (h, tt)
insert_behind a c (b ∷ bs) h s = elim (Bool-cases (address_lt b a)) [
  | inl p ↦ rw p (s.0, insert_behind a b bs (address_lt_asym b a p) s.1)
  | inr p ↦ rw p (h, (p, s.1))
]

insert_sorted-IsSorted :
    (a : SessionAddress) (bs : List SessionAddress) → IsSorted bs → IsSorted (insert_sorted a bs)
unfolding insert_sorted
insert_sorted-IsSorted a [] s = tt
insert_sorted-IsSorted a (b ∷ bs) s = elim (Bool-cases (address_lt b a)) [
  | inl p ↦ rw p (insert_behind a b bs (address_lt_asym b a p) s)
  | inr p ↦ rw p (p, s)
]

pub sort_addresses-IsSorted : (rcpts : List SessionAddress) → IsSorted (sort_addresses rcpts)
unfolding sort_addresses
sort_addresses-IsSorted [] = tt
sort_addresses-IsSorted (a ∷ rest) =
    insert_sorted-IsSorted a (sort_addresses rest) (sort_addresses-IsSorted rest)

-- Sorting only reorders.
insert_if :
    (b : Bool) (a c : SessionAddress) (cs rest : List SessionAddress)
    → Perm rest (a ∷ cs)
    → Perm (if b then c ∷ rest else a ∷ c ∷ cs) (a ∷ c ∷ cs)
insert_if true a c cs rest h = Perm.trans (Perm.cons c h) (Perm.swap a c cs)
insert_if false a c cs rest h = Perm.refl _

insert_sorted-Perm :
    (a : SessionAddress) (bs : List SessionAddress) → Perm (insert_sorted a bs) (a ∷ bs)
unfolding insert_sorted
insert_sorted-Perm a [] = Perm.refl _
insert_sorted-Perm a (b ∷ bs) =
    insert_if (address_lt b a) a b bs (insert_sorted a bs) (insert_sorted-Perm a bs)

pub sort_addresses-Perm : (rcpts : List SessionAddress) → Perm (sort_addresses rcpts) rcpts
unfolding sort_addresses
sort_addresses-Perm [] = Perm.refl _
sort_addresses-Perm (a ∷ rest) =
    Perm.trans (insert_sorted-Perm a (sort_addresses rest)) (Perm.cons a (sort_addresses-Perm rest))
