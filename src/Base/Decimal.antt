-- ===== src/Base/Decimal.antt =====
-- `{}` of an unsigned number: its decimal digits, most significant first.
use native.Mathlib.Nat.{mod-eq_of_lt}
use smtp_server.Base.{
  ℕ, zero, suc, ◌+◌, ◌*◌, ◌/◌, ◌%◌, ◌<◌, ◌≡◌, ◌∙◌, ap, true, false, [], ◌∷◌, ◌++◌, append_assoc,
  arith, Bytes, ltb, Bool-cases, inl, inr,
}

-- With more fuel than the number there is a step for each digit.
digits : ℕ → ℕ → Bytes
digits zero n = []
digits (suc fuel) n = elim (ltb n 10) [
  | true ↦ (b'0' + n) ∷ []
  | false ↦ digits fuel (n / 10) ++ ((b'0' + n % 10) ∷ [])
]

unfoldable pub decimal : ℕ → Bytes
unfolding digits
decimal n = digits (suc n) n

digits_small : (fuel n : ℕ) → ltb n 10 ≡ true → digits (suc fuel) n ≡ (b'0' + n) ∷ []
unfolding digits
digits_small fuel n h = rw (h, digits)

digits_large :
    (fuel n : ℕ)
    → ltb n 10 ≡ false
    → digits (suc fuel) n ≡ digits fuel (n / 10) ++ ((b'0' + n % 10) ∷ [])
unfolding digits
digits_large fuel n h = rw (h, digits)

last_digit : (n modulus : ℕ) → n < modulus → (n / 10 * 10 + n % 10) % modulus ≡ n
last_digit n modulus m = let e : n / 10 * 10 + n % 10 ≡ n = omega arith in rw e (mod-eq_of_lt m)

-- A loop that reads digits into an accumulator, `num * 10 + digit` in a word below `modulus`, reads
-- a printed number back into the accumulator.
module _ {ℓ} {R : Type ℓ} (modulus : ℕ) (loop : ℕ → Bytes → R)
    (on_digit : (num digit : ℕ) (rest : Bytes)
      → digit < 10
      → loop num ((b'0' + digit) ∷ rest) ≡ loop ((num * 10 + digit) % modulus) rest) where
  loop-digits :
      (fuel n : ℕ) (rest : Bytes)
      → n < fuel
      → n < modulus
      → loop 0 (digits fuel n ++ rest) ≡ loop n rest
  loop-digits zero n rest h m = absurd (omega arith)
  loop-digits (suc fuel) n rest h m = elim (Bool-cases (ltb n 10)) [
    | inl small ↦ rw (digits_small fuel n small) (
        on_digit 0 n rest (ground arith)
        ∙ ap (λ (k : ℕ). loop k rest) (let e : (0 * 10 + n) % modulus ≡ n = grind arith in e))
    | inr large ↦ rw (digits_large fuel n large) (
        rw (append_assoc (digits fuel (n / 10)) ((b'0' + n % 10) ∷ []) rest) (
          loop-digits fuel (n / 10) ((b'0' + n % 10) ∷ rest) (ground arith) (omega arith)
          ∙ on_digit (n / 10) (n % 10) rest (omega arith)
          ∙ ap (λ (k : ℕ). loop k rest)
              (let e : (n / 10 * 10 + n % 10) % modulus ≡ n = last_digit n modulus m in e)))
  ]

  pub loop-decimal : (n : ℕ) (rest : Bytes) → n < modulus → loop 0 (decimal n ++ rest) ≡ loop n rest
  unfolding decimal
  loop-decimal n rest m = loop-digits (suc n) n rest (omega arith) m
