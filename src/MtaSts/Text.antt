-- ===== src/MtaSts/Text.antt =====
-- What src/outbound/mta_sts/parse.rs uses of the standard library's strings, over UTF-8 bytes.
use smtp_server.Base.{
  ℕ, zero, suc, ◌+◌, ◌-◌, ◌*◌, ◌^◌, Bool, true, false, ◌&&◌, List, [], ◌∷◌, Option, none, some,
  Bytes, length, starts_with, ltb, leb, ◌==◌, if◌then◌else◌,
}

-- `str::split_once`
unfoldable pub split_once : ℕ → Bytes → Option (Bytes × Bytes)
split_once c [] = none
split_once c (b ∷ bytes) =
    let rest = split_once c bytes in
    if b == c
    then some ([], bytes)
    else elim rest [ none ↦ none | some (before, after) ↦ some (b ∷ before, after) ]

-- The white space of Unicode.
abbrev pub spaces : List Bytes
spaces =
    (9 ∷ [])
    ∷ (10 ∷ [])
    ∷ (11 ∷ [])
    ∷ (12 ∷ [])
    ∷ (13 ∷ [])
    ∷ (32 ∷ [])
    ∷ (194 ∷ 133 ∷ [])
    ∷ (194 ∷ 160 ∷ [])
    ∷ (225 ∷ 154 ∷ 128 ∷ [])
    ∷ (226 ∷ 128 ∷ 128 ∷ [])
    ∷ (226 ∷ 128 ∷ 129 ∷ [])
    ∷ (226 ∷ 128 ∷ 130 ∷ [])
    ∷ (226 ∷ 128 ∷ 131 ∷ [])
    ∷ (226 ∷ 128 ∷ 132 ∷ [])
    ∷ (226 ∷ 128 ∷ 133 ∷ [])
    ∷ (226 ∷ 128 ∷ 134 ∷ [])
    ∷ (226 ∷ 128 ∷ 135 ∷ [])
    ∷ (226 ∷ 128 ∷ 136 ∷ [])
    ∷ (226 ∷ 128 ∷ 137 ∷ [])
    ∷ (226 ∷ 128 ∷ 138 ∷ [])
    ∷ (226 ∷ 128 ∷ 168 ∷ [])
    ∷ (226 ∷ 128 ∷ 169 ∷ [])
    ∷ (226 ∷ 128 ∷ 175 ∷ [])
    ∷ (226 ∷ 129 ∷ 159 ∷ [])
    ∷ (227 ∷ 128 ∷ 128 ∷ [])
    ∷ []

abbrev pub reverse_onto : Bytes → Bytes → Bytes
reverse_onto done [] = done
reverse_onto done (b ∷ bytes) = reverse_onto (b ∷ done) bytes

-- The length of the white space that a text starts with, by the given table, read either way.
abbrev pub space_length : (Bytes → Bytes) → List Bytes → Bytes → ℕ
space_length way [] bytes = 0
space_length way (s ∷ table) bytes =
    if starts_with bytes (way s) then length s else space_length way table bytes

unfoldable pub skip_spaces : (Bytes → Bytes) → ℕ → Bytes → Bytes
unfolding starts_with
skip_spaces way k [] = []
skip_spaces way (suc k) (b ∷ bytes) = skip_spaces way k bytes
skip_spaces way zero (b ∷ bytes) = elim (space_length way spaces (b ∷ bytes)) [
  | zero ↦ b ∷ bytes
  | suc k ↦ skip_spaces way k bytes
]

-- `str::trim`
unfoldable pub trim : Bytes → Bytes
unfolding skip_spaces
trim bytes =
    let from_start = skip_spaces (λ s. s) 0 bytes in
    reverse_onto [] (skip_spaces (reverse_onto []) 0 (reverse_onto [] from_start))

abbrev add_digits : ℕ → Bytes → Option ℕ
add_digits n [] = some n
add_digits n (b ∷ bytes) =
    let m = n * 10 + (b - b'0') in
    let rest = add_digits m bytes in
    if leb b'0' b && leb b b'9' && ltb m (2 ^ 64) then rest else none

-- `str::parse` of a `u64`: a plus sign may stand before the digits.
unfoldable pub parse_u64 : Bytes → Option ℕ
parse_u64 [] = none
parse_u64 (b ∷ []) = add_digits 0 (b ∷ [])
parse_u64 (b ∷ c ∷ bytes) =
    if b == b'+' then add_digits 0 (c ∷ bytes) else add_digits 0 (b ∷ c ∷ bytes)

abbrev lower_byte : ℕ → ℕ
lower_byte b = if leb b'A' b && leb b b'Z' then b + 32 else b

unfoldable pub eq_ignore_ascii_case : Bytes → Bytes → Bool
eq_ignore_ascii_case [] [] = true
eq_ignore_ascii_case [] (c ∷ cs) = false
eq_ignore_ascii_case (b ∷ bs) [] = false
eq_ignore_ascii_case (b ∷ bs) (c ∷ cs) = lower_byte b == lower_byte c && eq_ignore_ascii_case bs cs
