-- ===== src/MtaSts/Policy/Printed.antt =====
-- A policy that is written out is read back.
use smtp_server.Base.{
  ℕ, zero, suc, ◌≤◌, ◌<◌, ◌≡◌, refl, sym, ap, ◌∙◌, true, false, List, [], ◌∷◌, ◌++◌, Option, none,
  some, ◌⊎◌, inl, inr, Bytes, length, arith, Bool-cases, ◌==◌, any, append_assoc, All, append-nil,
}
use smtp_server.MtaSts.Text.{split_once, trim}
use smtp_server.MtaSts.Policy.{
  Mode, enforce, testing, no_mode, MxPattern, equals, starts_with, Policy, Draft, ParseError,
  mode_text, mode_key, strip_star, read_mx, read_value, parse_loop, finish, parse,
}

abbrev pub pattern_text : MxPattern → Bytes
pattern_text (equals h) = h
pattern_text (starts_with domain) = b'*' ∷ b'.' ∷ domain

abbrev pub mx_line : MxPattern → Bytes
mx_line p = b'm' ∷ b'x' ∷ b':' ∷ pattern_text p

abbrev pub mx_lines : List MxPattern → Bytes
mx_lines [] = []
mx_lines (p ∷ ps) = mx_line p ++ (b'\n' ∷ mx_lines ps)

split_once-here :
    (c : ℕ) (xs rest : Bytes)
    → any (λ x. x == c) xs ≡ false
    → split_once c (xs ++ c ∷ rest) ≡ some (xs, rest)
unfolding split_once
split_once-here c [] rest h = let e : (c == c) ≡ true = ground arith in rw e refl
split_once-here c (x ∷ xs) rest h = elim (Bool-cases (x == c)) [
  | inl e ↦ absurd (ground (arith, e, h))
  | inr e ↦ rw e (rw (split_once-here c xs rest (ground (arith, e, h))) refl)
]

-- A host or a domain that is written in lower case, on one line and without white space around it;
-- a host does not look like a pattern.
abbrev pub PatternFits : (Bytes → Bytes) → MxPattern → Type 0
PatternFits to_lowercase (equals h) =
    (0 < length h)
    × (strip_star h ≡ none)
    × (to_lowercase h ≡ h)
    × (any (λ x. x == b'\n') h ≡ false)
    × (trim h ≡ h)
PatternFits to_lowercase (starts_with domain) =
    (0 < length domain)
    × (to_lowercase domain ≡ domain)
    × (any (λ x. x == b'\n') (b'*' ∷ b'.' ∷ domain) ≡ false)
    × (trim (b'*' ∷ b'.' ∷ domain) ≡ b'*' ∷ b'.' ∷ domain)

read_mx-pattern_text :
    (to_lowercase : Bytes → Bytes) (p : MxPattern)
    → PatternFits to_lowercase p
    → read_mx to_lowercase (pattern_text p) ≡ p ∷ []
unfolding read_mx
read_mx-pattern_text low (equals []) f = absurd (omega (arith, f.0))
read_mx-pattern_text low (equals (b ∷ h)) f = rw f.1 (ap (λ x. equals x ∷ []) f.2)
read_mx-pattern_text low (starts_with []) f = absurd (omega (arith, f.0))
read_mx-pattern_text low (starts_with (b ∷ d)) f = ap (λ x. starts_with x ∷ []) f.1

one_line :
    (to_lowercase : Bytes → Bytes) (p : MxPattern)
    → PatternFits to_lowercase p
    → (any (λ x. x == b'\n') (pattern_text p) ≡ false) × (trim (pattern_text p) ≡ pattern_text p)
one_line low (equals h) f = (f.3, f.4)
one_line low (starts_with d) f = (f.2, f.3)

read_value-line :
    (to_lowercase : Bytes → Bytes) (p : MxPattern) (rest : Bytes)
    → PatternFits to_lowercase p
    → read_value (pattern_text p ++ (b'\n' ∷ rest)) ≡ (pattern_text p, rest)
unfolding read_value
read_value-line low p rest f =
    let l = one_line low p f in
    rw (read_value, split_once-here b'\n' (pattern_text p) rest l.0) (ap (λ v. (v, rest)) l.1)

-- A line adds its pattern.
parse_loop-mx_line :
    (to_lowercase : Bytes → Bytes) (fuel : ℕ) (p : MxPattern) (rest : Bytes) (d : Draft)
    → PatternFits to_lowercase p
    → parse_loop to_lowercase (suc fuel) (mx_line p ++ (b'\n' ∷ rest)) d
      ≡ parse_loop to_lowercase fuel rest (record d { draft_mx = d.draft_mx ++ p ∷ [] })
unfolding parse_loop
parse_loop-mx_line low fuel p rest d f =
    let v = read_value-line low p rest f in
    ap (λ w. parse_loop low fuel w.1 (record d { draft_mx = d.draft_mx ++ read_mx low w.0 })) v
    ∙ ap (λ ps. parse_loop low fuel rest (record d { draft_mx = d.draft_mx ++ ps }))
        (read_mx-pattern_text low p f)

parse_loop-mx_lines :
    (to_lowercase : Bytes → Bytes) (fuel : ℕ) (ps : List MxPattern) (d : Draft)
    → length ps < fuel
    → All (PatternFits to_lowercase) ps
    → parse_loop to_lowercase fuel (mx_lines ps) d
      ≡ some (inr (record d { draft_mx = d.draft_mx ++ ps }))
unfolding parse_loop
parse_loop-mx_lines low zero ps d h f = absurd (omega (arith, h))
parse_loop-mx_lines low (suc fuel) [] d h f =
    ap (λ ps. some (inr (record d { draft_mx = ps }))) (sym (append-nil d.draft_mx))
parse_loop-mx_lines low (suc fuel) (p ∷ ps) d h f =
    parse_loop-mx_line low fuel p (mx_lines ps) d f.0
    ∙ parse_loop-mx_lines low fuel ps (record d { draft_mx = d.draft_mx ++ p ∷ [] })
        (omega (arith, h)) f.1
    ∙ ap (λ qs. some (inr (record d { draft_mx = qs }))) (append_assoc d.draft_mx (p ∷ []) ps)

behind-length : (xs ys : Bytes) → length ys ≤ length (xs ++ ys)
behind-length [] ys = omega arith
behind-length (x ∷ xs) ys = omega (arith, behind-length xs ys)

mx_lines-length : (ps : List MxPattern) → length ps ≤ length (mx_lines ps)
mx_lines-length [] = omega arith
mx_lines-length (p ∷ ps) =
    omega (arith, mx_lines-length ps, behind-length (pattern_text p) (b'\n' ∷ mx_lines ps))

-- A policy with a mode and patterns is written a line for each.
abbrev pub policy_text : Mode → List MxPattern → Bytes
policy_text mode ps = mode_key ++ (b':' ∷ (mode_text mode ++ (b'\n' ∷ mx_lines ps)))

parsed_lines :
    (to_lowercase : Bytes → Bytes) (id : Bytes) (mode : Mode) (fuel : ℕ) (p : MxPattern)
    (ps : List MxPattern)
    → length (mx_lines (p ∷ ps)) < fuel
    → All (PatternFits to_lowercase) (p ∷ ps)
    → (let d : Draft = record { draft_mode = mode; draft_max_age = 86_400; draft_mx = [] } in
        let r : Option (ParseError ⊎ Policy) =
          elim (parse_loop to_lowercase fuel (mx_lines (p ∷ ps)) d) [
            | none ↦ none
            | some x ↦ some (finish id x)
          ] in
        r ≡ some (inr (record { id = id; mode = mode; mx = p ∷ ps; max_age = 86_400 })))
parsed_lines low id mode fuel p ps h f =
    ap (λ r. elim r [ none ↦ none | some x ↦ some (finish id x) ])
      (parse_loop-mx_lines low fuel (p ∷ ps)
        (record { draft_mode = mode; draft_max_age = 86_400; draft_mx = [] })
        (omega (arith, h, mx_lines-length (p ∷ ps))) f)

-- A policy that is written out, its mode and a line for each pattern, is read back, with the
-- default for its age: if it has a pattern, and each host and domain is in lower case, on one line
-- and without white space around it, and no host looks like a pattern.
pub parse-policy_text :
    (to_lowercase : Bytes → Bytes) (id : Bytes) (mode : Mode) (p : MxPattern) (ps : List MxPattern)
    → All (PatternFits to_lowercase) (p ∷ ps)
    → parse to_lowercase (policy_text mode (p ∷ ps)) id
      ≡ some (inr (record { id = id; mode = mode; mx = p ∷ ps; max_age = 86_400 }))
unfolding parse
parse-policy_text low id enforce p ps f =
    parsed_lines low id enforce (length (policy_text enforce (p ∷ ps))) p ps (omega arith) f
parse-policy_text low id testing p ps f =
    parsed_lines low id testing (length (policy_text testing (p ∷ ps))) p ps (omega arith) f
parse-policy_text low id no_mode p ps f =
    parsed_lines low id no_mode (length (policy_text no_mode (p ∷ ps))) p ps (omega arith) f
