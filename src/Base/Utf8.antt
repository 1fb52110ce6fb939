-- ===== src/Base/Utf8.antt =====
-- `String::from_utf8(..).ok()`: the byte strings that are text, by the table of well-formed UTF-8
-- sequences, and the text operations of the standard library that the program uses on them.
use smtp_server.Base.{
  ◌≡◌, ℕ, Bool, true, false, ◌&&◌, ◌||◌, [], ◌∷◌, Option, none, some, Bytes, leb, ◌==◌,
  if◌then◌else◌,
}

abbrev within : ℕ → ℕ → ℕ → Bool
within lo hi c = leb lo c && leb c hi

abbrev tail_byte : ℕ → Bool
tail_byte = within 0x80 0xbf

-- Whether the first two bytes of a three-byte sequence fit.
lead_three : ℕ → ℕ → Bool
lead_three a b =
    (a == 0xe0 && within 0xa0 0xbf b)
    || (within 0xe1 0xec a && tail_byte b)
    || (a == 0xed && within 0x80 0x9f b)
    || (within 0xee 0xef a && tail_byte b)

-- Whether the first two bytes of a four-byte sequence fit.
lead_four : ℕ → ℕ → Bool
lead_four a b =
    (a == 0xf0 && within 0x90 0xbf b)
    || (within 0xf1 0xf3 a && tail_byte b)
    || (a == 0xf4 && within 0x80 0x8f b)

unfoldable pub is_utf8 : Bytes → Bool
unfolding lead_three lead_four
is_utf8 [] = true
is_utf8 (a ∷ []) = leb a 0x7f
is_utf8 (a ∷ b ∷ []) = (leb a 0x7f && is_utf8 (b ∷ [])) || (within 0xc2 0xdf a && tail_byte b)
is_utf8 (a ∷ b ∷ c ∷ []) =
    (leb a 0x7f && is_utf8 (b ∷ c ∷ []))
    || (within 0xc2 0xdf a && tail_byte b && is_utf8 (c ∷ []))
    || (lead_three a b && tail_byte c)
is_utf8 (a ∷ b ∷ c ∷ d ∷ rest) =
    let one = is_utf8 (b ∷ c ∷ d ∷ rest) in
    let two = is_utf8 (c ∷ d ∷ rest) in
    let three = is_utf8 (d ∷ rest) in
    let four = is_utf8 rest in
    if leb a 0x7f
    then one
    else if within 0xc2 0xdf a && tail_byte b
    then two
    else if lead_three a b && tail_byte c
    then three
    else if lead_four a b && tail_byte c && tail_byte d
    then four
    else false

-- `String::from_utf8(bytes).ok()`
unfoldable pub from_utf8 : Bytes → Option Bytes
from_utf8 bytes = if is_utf8 bytes then some bytes else none

pub from_utf8-text : (s : Bytes) → is_utf8 s ≡ true → from_utf8 s ≡ some s
unfolding from_utf8
from_utf8-text s h = rw h
