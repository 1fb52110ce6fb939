-- ===== src/MtaSts/Policy.antt =====
-- src/outbound/mta_sts: `Policy`, `Policy::parse` and `Policy::verify`. The lower-casing of Unicode
-- text is an argument.
pub mod Printed
pub mod Total
use smtp_server.Base.{
  ℕ, zero, suc, ◌+◌, Bool, true, false, ◌&&◌, ◌||◌, not, List, [], ◌∷◌, ◌++◌, Option, none, some,
  ◌⊎◌, inl, inr, Bytes, bytes_eq, length, any, ◌==◌, if◌then◌else◌,
}
use smtp_server.MtaSts.Text.{split_once, trim, parse_u64, eq_ignore_ascii_case}

pub data Mode : Type 0 where
  enforce testing no_mode : Mode

pub data MxPattern : Type 0 where
  equals : Bytes → MxPattern
  starts_with : Bytes → MxPattern

pub record Policy : Type 0 where
  pub id : Bytes
  pub mode : Mode
  pub mx : List MxPattern
  pub max_age : ℕ

-- The messages of the errors.
pub data ParseError : Type 0 where
  unsupported_mode : Bytes → ParseError
  unsupported_version : Bytes → ParseError
  no_mx : ParseError

-- `key: value`, the variables of the loop
pub record Draft : Type 0 where
  pub draft_mode : Mode
  pub draft_max_age : ℕ
  pub draft_mx : List MxPattern

abbrev pub mx_key : Bytes
mx_key = b'm' ∷ b'x' ∷ []

abbrev pub max_age_key : Bytes
max_age_key = b'm' ∷ b'a' ∷ b'x' ∷ b'_' ∷ b'a' ∷ b'g' ∷ b'e' ∷ []

abbrev pub mode_key : Bytes
mode_key = b'm' ∷ b'o' ∷ b'd' ∷ b'e' ∷ []

abbrev pub version_key : Bytes
version_key = b'v' ∷ b'e' ∷ b'r' ∷ b's' ∷ b'i' ∷ b'o' ∷ b'n' ∷ []

abbrev pub mode_text : Mode → Bytes
mode_text enforce = b'e' ∷ b'n' ∷ b'f' ∷ b'o' ∷ b'r' ∷ b'c' ∷ b'e' ∷ []
mode_text testing = b't' ∷ b'e' ∷ b's' ∷ b't' ∷ b'i' ∷ b'n' ∷ b'g' ∷ []
mode_text no_mode = b'n' ∷ b'o' ∷ b'n' ∷ b'e' ∷ []

abbrev pub version_text : Bytes
version_text = b'S' ∷ b'T' ∷ b'S' ∷ b'v' ∷ b'1' ∷ []

-- `value.strip_prefix("*.")`
abbrev pub strip_star : Bytes → Option Bytes
strip_star [] = none
strip_star (a ∷ []) = none
strip_star (a ∷ b ∷ bytes) = if a == b'*' && (b == b'.') then some bytes else none

module _ (to_lowercase : Bytes → Bytes) where
  -- The patterns of a value: one, or none.
  unfoldable pub read_mx : Bytes → List MxPattern
  read_mx value = elim (strip_star value) [
    | some [] ↦ []
    | some (b ∷ suffix) ↦ starts_with (to_lowercase (b ∷ suffix)) ∷ []
    | none ↦ elim value [ [] ↦ [] | b ∷ bytes ↦ equals (to_lowercase (b ∷ bytes)) ∷ [] ]
  ]

unfoldable pub read_max_age : ℕ → Bytes → ℕ
unfolding parse_u64
read_max_age before value = elim (parse_u64 value) [ some n ↦ n | none ↦ before ]

unfoldable pub read_mode : Bytes → Option Mode
unfolding bytes_eq
read_mode value =
    if bytes_eq value (mode_text enforce)
    then some enforce
    else if bytes_eq value (mode_text testing)
    then some testing
    else if bytes_eq value (mode_text no_mode)
    then some no_mode
    else none

unfoldable pub with_mode : Bytes → Draft → ParseError ⊎ Draft
unfolding read_mode
with_mode value d = elim (read_mode value) [
  | some mode ↦ inr (record d { draft_mode = mode })
  | none ↦ inl (unsupported_mode value)
]

-- The value, and what is left.
unfoldable pub read_value : Bytes → Bytes × Bytes
unfolding split_once trim
read_value next = elim (split_once b'\n' next) [
  | some (value, rest) ↦ (trim value, rest)
  | none ↦ (trim next, [])
]

abbrev pub finish : Bytes → ParseError ⊎ Draft → ParseError ⊎ Policy
finish id (inl e) = inl e
finish id (inr d) = elim d.draft_mx [
  | [] ↦ inl no_mx
  | p ∷ ps ↦ inr (record { id = id; mode = d.draft_mode; mx = p ∷ ps; max_age = d.draft_max_age })
]

module _ (to_lowercase : Bytes → Bytes) where
  -- `match key.trim()`
  unfoldable pub set_key : Bytes → Bytes → Draft → ParseError ⊎ Draft
  unfolding with_mode read_max_age read_mx bytes_eq eq_ignore_ascii_case
  set_key key value d =
      if bytes_eq key mx_key
      then inr (record d { draft_mx = d.draft_mx ++ read_mx to_lowercase value })
      else if bytes_eq key max_age_key
      then inr (record d { draft_max_age = read_max_age d.draft_max_age value })
      else if bytes_eq key mode_key
      then with_mode value d
      else if bytes_eq key version_key && not (eq_ignore_ascii_case value version_text)
      then inl (unsupported_version value)
      else inr d

  -- The loop, on fuel: nothing when it runs out.
  unfoldable pub parse_loop : ℕ → Bytes → Draft → Option (ParseError ⊎ Draft)
  unfolding split_once set_key read_value trim
  parse_loop zero text d = none
  parse_loop (suc fuel) [] d = some (inr d)
  parse_loop (suc fuel) (b ∷ bytes) d = elim (split_once b':' (b ∷ bytes)) [
    | none ↦ some (inr d)
    | some (key, next) ↦
        let v = read_value next in
        elim (set_key (trim key) v.0 d) [ inl e ↦ some (inl e) | inr d' ↦ parse_loop fuel v.1 d' ]
  ]

  -- `Policy::parse`, with fuel for each byte and one more.
  unfoldable pub parse : Bytes → Bytes → Option (ParseError ⊎ Policy)
  unfolding parse_loop
  parse text id =
      let start : Draft = record { draft_mode = no_mode; draft_max_age = 86_400; draft_mx = [] } in
      elim (parse_loop (suc (length text)) text start) [ none ↦ none | some r ↦ some (finish id r) ]

-- The text behind the first dot.
unfoldable pub suffix_is : Bytes → Bytes → Bool
unfolding split_once
suffix_is domain host = elim (split_once b'.' host) [
  | none ↦ false
  | some (before, suffix) ↦ bytes_eq suffix domain
]

unfoldable pub pattern_matches : Bytes → MxPattern → Bool
unfolding suffix_is
pattern_matches host (equals h) = bytes_eq h host
pattern_matches host (starts_with domain) = suffix_is domain host

-- `Policy::verify`
unfoldable pub verify : Policy → Bytes → Bool
unfolding pattern_matches
verify p host = elim p.mode [
  | no_mode ↦ true
  | enforce ↦ any (pattern_matches host) p.mx
  | testing ↦ any (pattern_matches host) p.mx
]
