-- ===== src/Core/Conditions/Prefix.antt =====
-- A mask with leading ones compares the leading bits of addresses.
use smtp_server.Base.{
  ℕ, zero, suc, ◌+◌, ◌-◌, ◌*◌, ◌/◌, ◌%◌, ◌^◌, ◌<◌, ◌≡◌, refl, sym, ◌∙◌, ap, subst, false, ◌&&◌,
  ◌==◌, if◌then◌else◌, arith,
}
use smtp_server.Core.Envelope.{v4}
use smtp_server.Core.Conditions.Mask.{mask_v4, matches, bit_and}

-- So many ones; a number with so many zeros behind it; and without its last bits.
abbrev pub ones : ℕ → ℕ
ones zero = 0
ones (suc n) = 2 * ones n + 1

abbrev pub shifted : ℕ → ℕ → ℕ
shifted zero a = a
shifted (suc z) a = 2 * shifted z a

abbrev pub leading : ℕ → ℕ → ℕ
leading zero a = a
leading (suc z) a = leading z (a / 2)

abbrev both : ℕ → ℕ → ℕ
both zero n = n
both (suc z) n = suc (both z n)

both-sum : (z n : ℕ) → both z n ≡ z + n
both-sum zero n = omega arith
both-sum (suc z) n = omega (arith, both-sum z n)

leading-both : (z n a : ℕ) → leading (both z n) a ≡ leading n (leading z a)
leading-both zero n a = refl
leading-both (suc z) n a = leading-both z n (a / 2)

bit_and-ones : (n a : ℕ) → leading n a ≡ 0 → bit_and n a (ones n) ≡ a
unfolding bit_and
bit_and-ones zero a h = sym h
bit_and-ones (suc n) a h =
    let e : (2 * ones n + 1) / 2 ≡ ones n = omega arith in
    ap (λ m. (if a % 2 == 1 && ((2 * ones n + 1) % 2 == 1) then 1 else 0) + 2 * bit_and n (a / 2) m)
      e
    ∙ ground (arith, bit_and-ones n (a / 2) h)

bit_and-mask :
    (z n a : ℕ)
    → leading n (leading z a) ≡ 0
    → bit_and (both z n) a (shifted z (ones n)) ≡ shifted z (leading z a)
unfolding bit_and
bit_and-mask zero n a h = bit_and-ones n a h
bit_and-mask (suc z) n a h =
    let m = shifted z (ones n) in
    let e : 2 * m / 2 ≡ m = omega arith in
    ap (λ k. (if a % 2 == 1 && (2 * m % 2 == 1) then 1 else 0) + 2 * bit_and (both z n) (a / 2) k) e
    ∙ ground (arith, bit_and-mask z n (a / 2) h)

shifted-inj : (z a b : ℕ) → (shifted z a == shifted z b) ≡ (a == b)
shifted-inj zero a b = refl
shifted-inj (suc z) a b = ground (arith, shifted-inj z a b)

leading-small : (k a : ℕ) → a < shifted k 1 → leading k a ≡ 0
leading-small zero a h = omega (arith, h)
leading-small (suc k) a h = leading-small k (a / 2) (omega (arith, h))

same_bits :
    (z n a : ℕ)
    → z + n ≡ 32
    → a < 2 ^ 32
    → bit_and 32 a (shifted z (ones n)) ≡ shifted z (leading z a)
same_bits z n a e h =
    let w : both z n ≡ 32 = both-sum z n ∙ e in
    subst (λ k. bit_and k a (shifted z (ones n)) ≡ shifted z (leading z a)) w
      (bit_and-mask z n a
        (sym (leading-both z n a) ∙ ap (λ k. leading k a) w ∙ leading-small 32 a h))

==_comm : (a b : ℕ) → (a == b) ≡ (b == a)
==_comm a b = ground arith

-- An IPv4 network of a prefix length contains an IPv4 address if the two have the same bits but for
-- the last ones: if they are words, and the mask is so many ones and then zeros, 32 bits in all.
pub matches-leading :
    (zeros n addr ip : ℕ)
    → zeros + n ≡ 32
    → addr < 2 ^ 32
    → ip < 2 ^ 32
    → matches (mask_v4 addr (shifted zeros (ones n))) (v4 ip)
      ≡ (leading zeros addr == leading zeros ip)
unfolding matches
matches-leading zero n addr ip e h k =
    let full : n ≡ 32 = omega (arith, e) in
    subst (λ m. matches (mask_v4 addr (ones m)) (v4 ip) ≡ (addr == ip)) (sym full) refl
matches-leading (suc z) n addr ip e h k =
    let m = shifted z (ones n) in
    let even : (2 * m == 2 ^ 32 - 1) ≡ false = ground arith in
    ap (λ b. if b then addr == ip else (bit_and 32 ip (2 * m) == bit_and 32 addr (2 * m))) even
    ∙ ap (λ a. a == bit_and 32 addr (2 * m)) (same_bits (suc z) n ip e k)
    ∙ ap (λ a. shifted (suc z) (leading (suc z) ip) == a) (same_bits (suc z) n addr e h)
    ∙ shifted-inj (suc z) (leading (suc z) ip) (leading (suc z) addr)
    ∙ ==_comm (leading (suc z) ip) (leading (suc z) addr)
