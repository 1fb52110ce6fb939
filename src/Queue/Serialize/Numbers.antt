-- ===== src/Queue/Serialize/Numbers.antt =====
-- `usize` and `i16`, in decimal with a space behind. The arithmetic wraps around, as it does in a
-- release build; an `i16` is its two's complement pattern.
use smtp_server.Base.{
  ℕ, ◌+◌, ◌-◌, ◌*◌, ◌%◌, ◌^◌, ◌<◌, ◌≡◌, ◌∙◌, ap, Bool, true, false, ◌&&◌, [], ◌∷◌, ◌++◌,
  append_assoc, Option, none, some, arith, Bytes, Parser, ltb, leb, ◌==◌, if◌then◌else◌, Bool-cases,
  inl, inr,
}
use smtp_server.Base.Decimal.{decimal, loop-decimal}
use smtp_server.Queue.Serialize.Class.{QueueSerializer}

abbrev pub is_digit : ℕ → Bool
is_digit ch = leb b'0' ch && leb ch b'9'

unfoldable pub usize_loop : ℕ → Bytes → Option (ℕ × Bytes)
usize_loop num [] = none
usize_loop num (ch ∷ bytes) =
    if is_digit ch
    then usize_loop ((num * 10 + (ch - b'0')) % 2 ^ 64) bytes
    else if ch == b' '
    then some (num, bytes)
    else none

pub usize_serialize : ℕ → Bytes
usize_serialize n = decimal n ++ (b' ' ∷ [])

pub usize_deserialize : Parser ℕ
unfolding usize_loop
usize_deserialize bytes = usize_loop 0 bytes

instance abbrev pub usize_serializer : QueueSerializer ℕ
usize_serializer = record { serialize = usize_serialize; deserialize = usize_deserialize }

-- The flag is whether `mul` is -1.
unfoldable pub i16_loop : Bool → ℕ → Bytes → Option (ℕ × Bytes)
i16_loop negative num [] = none
i16_loop negative num (ch ∷ bytes) =
    if is_digit ch
    then i16_loop negative ((num * 10 + (ch - b'0')) % 2 ^ 16) bytes
    else if ch == b' '
    then some ((if negative then (2 ^ 16 - num) % 2 ^ 16 else num), bytes)
    else if ch == b'-'
    then i16_loop true num bytes
    else none

-- `{self} ` of an `i16`
unfoldable pub i16_serialize : ℕ → Bytes
i16_serialize w =
    if ltb w (2 ^ 15)
    then decimal w ++ (b' ' ∷ [])
    else b'-' ∷ (decimal (2 ^ 16 - w) ++ (b' ' ∷ []))

unfoldable pub i16_deserialize : Parser ℕ
unfolding i16_loop
i16_deserialize bytes = i16_loop false 0 bytes

usize_loop-digit :
    (num digit : ℕ) (rest : Bytes)
    → digit < 10
    → usize_loop num ((b'0' + digit) ∷ rest) ≡ usize_loop ((num * 10 + digit) % 2 ^ 64) rest
unfolding usize_loop
usize_loop-digit num digit rest h =
    let e : b'0' + digit - b'0' ≡ digit = omega arith in
    let d : is_digit (b'0' + digit) ≡ true = ground arith in rw (d, e)

i16_loop-digit :
    (negative : Bool) (num digit : ℕ) (rest : Bytes)
    → digit < 10
    → i16_loop negative num ((b'0' + digit) ∷ rest)
      ≡ i16_loop negative ((num * 10 + digit) % 2 ^ 16) rest
unfolding i16_loop
i16_loop-digit negative num digit rest h =
    let e : b'0' + digit - b'0' ≡ digit = omega arith in
    let d : is_digit (b'0' + digit) ≡ true = ground arith in rw (d, e)

pub usize-reads_back :
    (n : ℕ)
    → n < 2 ^ 64
    → (rest : Bytes) → usize_deserialize (usize_serialize n ++ rest) ≡ some (n, rest)
unfolding usize_deserialize usize_serialize
usize-reads_back n h rest =
    rw (append_assoc (decimal n) (b' ' ∷ []) rest)
      (loop-decimal (2 ^ 64) usize_loop usize_loop-digit n (b' ' ∷ rest) h)

pub i16-reads_back :
    (w : ℕ)
    → w < 2 ^ 16
    → (rest : Bytes) → i16_deserialize (i16_serialize w ++ rest) ≡ some (w, rest)
unfolding i16_deserialize i16_serialize
i16-reads_back w h rest = elim (Bool-cases (ltb w (2 ^ 15))) [
  | inl pos ↦
      rw (pos, append_assoc (decimal w) (b' ' ∷ []) rest)
        (loop-decimal (2 ^ 16) (i16_loop false) (i16_loop-digit false) w (b' ' ∷ rest) h)
  | inr neg ↦
      rw (neg, append_assoc (decimal (2 ^ 16 - w)) (b' ' ∷ []) rest)
        (loop-decimal (2 ^ 16) (i16_loop true) (i16_loop-digit true) (2 ^ 16 - w) (b' ' ∷ rest)
            (ground arith)
          ∙ ap (λ (k : ℕ). some (k, rest))
              (let e : (2 ^ 16 - (2 ^ 16 - w)) % 2 ^ 16 ≡ w = omega arith in e))
]
