-- ===== src/MtaSts/Policy/Total.antt =====
-- The parser of policies answers whatever the text.
use smtp_server.Base.{
  ℕ, zero, suc, ◌≤◌, ◌<◌, ◌≡◌, refl, [], ◌∷◌, Option, none, some, ◌⊎◌, inl, inr, Bytes, length,
  arith, Bool-cases, ◌==◌,
}
use smtp_server.MtaSts.Text.{split_once, trim}
use smtp_server.MtaSts.Policy.{
  Draft, ParseError, no_mx, Policy, no_mode, set_key, read_value, parse_loop, finish, parse,
}

-- What is behind the place of a split is shorter.
Shorter : Option (Bytes × Bytes) → Bytes → Type 0
Shorter none bytes = Unit
Shorter (some (before, after)) bytes = length after < length bytes

Shorter-weaken :
    (b : ℕ) (o : Option (Bytes × Bytes)) (bytes : Bytes)
    → Shorter o bytes
    → (let r : Option (Bytes × Bytes) = elim o [
      | none ↦ none
      | some (before, after) ↦ some (b ∷ before, after)
    ] in
        Shorter r (b ∷ bytes))
unfolding Shorter
Shorter-weaken b none bytes h = tt
Shorter-weaken b (some (before, after)) bytes h = omega (arith, h)

split_once-Shorter : (c : ℕ) (bytes : Bytes) → Shorter (split_once c bytes) bytes
unfolding split_once Shorter
split_once-Shorter c [] = tt
split_once-Shorter c (b ∷ bytes) = elim (Bool-cases (b == c)) [
  | inl e ↦ rw e (omega arith)
  | inr e ↦ rw e (Shorter-weaken b (split_once c bytes) bytes (split_once-Shorter c bytes))
]

after_value :
    (o : Option (Bytes × Bytes)) (next : Bytes)
    → Shorter o next
    → (let v : Bytes × Bytes = elim o [
      | some (value, rest) ↦ (trim value, rest)
      | none ↦ (trim next, [])
    ] in
        length v.1 ≤ length next)
unfolding Shorter
after_value none next h = omega arith
after_value (some (value, rest)) next h = omega (arith, h)

read_value-le : (next : Bytes) → length (read_value next).1 ≤ length next
unfolding read_value
read_value-le next = after_value (split_once b'\n' next) next (split_once-Shorter b'\n' next)

Answers : Option (ParseError ⊎ Draft) → Type 0
Answers none = ⊥
Answers (some r) = Unit

module _ (to_lowercase : Bytes → Bytes) where
  parse_loop-Answers :
      (fuel : ℕ) (text : Bytes) (d : Draft)
      → length text < fuel
      → Answers (parse_loop to_lowercase fuel text d)
  unfolding parse_loop Answers Shorter
  parse_loop-Answers zero text d h = absurd (omega (arith, h))
  parse_loop-Answers (suc fuel) [] d h = tt
  parse_loop-Answers (suc fuel) (b ∷ bytes) d h =
      elim (split_once b':' (b ∷ bytes))
          as (λ o.
            Shorter o (b ∷ bytes)
            → (let r : Option (ParseError ⊎ Draft) = elim o [
              | none ↦ some (inr d)
              | some (key, next) ↦
                  let v = read_value next in
                  elim (set_key to_lowercase (trim key) v.0 d) [
                    | inl e ↦ some (inl e)
                    | inr d' ↦ parse_loop to_lowercase fuel v.1 d'
                  ]
            ] in
                Answers r)) [
                  | none ↦ λ s. tt
                  | some (key, next) ↦ λ s.
                      let v = read_value next in
                      elim (set_key to_lowercase (trim key) v.0 d)
                        as (λ x.
                          let r : Option (ParseError ⊎ Draft) = elim x [
                            | inl e ↦ some (inl e)
                            | inr d' ↦ parse_loop to_lowercase fuel v.1 d'
                          ] in
                          Answers r) [
                            | inl e ↦ tt
                            | inr d' ↦
                                parse_loop-Answers fuel v.1 d'
                                  (omega (arith, h, s, read_value-le next))
                          ]
                ]
        (split_once-Shorter b':' (b ∷ bytes))

-- An answer is an error, or a policy under its identifier that has a pattern.
abbrev pub IsAnswer : Bytes → Option (ParseError ⊎ Policy) → Type 0
IsAnswer id none = ⊥
IsAnswer id (some (inl e)) = Unit
IsAnswer id (some (inr p)) = (p.id ≡ id) × (0 < length p.mx)

finish-IsAnswer : (id : Bytes) (r : ParseError ⊎ Draft) → IsAnswer id (some (finish id r))
finish-IsAnswer id (inl e) = tt
finish-IsAnswer id (inr d) =
    elim d.draft_mx
      as (λ ps.
        let r : ParseError ⊎ Policy = elim ps [
          | [] ↦ inl no_mx
          | p ∷ qs ↦
              inr (record { id = id; mode = d.draft_mode; mx = p ∷ qs; max_age = d.draft_max_age })
        ] in
        IsAnswer id (some r)) [ [] ↦ tt | p ∷ qs ↦ (refl, omega arith) ]

finished :
    (id : Bytes) (o : Option (ParseError ⊎ Draft))
    → Answers o
    → IsAnswer id (elim o [ none ↦ none | some r ↦ some (finish id r) ])
unfolding Answers
finished id none a = elim a [ ]
finished id (some r) a = finish-IsAnswer id r

-- The parser of policies answers whatever the text, with an error or with a policy that has the
-- identifier that is given and at least one pattern.
pub parse-IsAnswer :
    (to_lowercase : Bytes → Bytes) (text id : Bytes) → IsAnswer id (parse to_lowercase text id)
unfolding parse
parse-IsAnswer low text id = finished id _ (
    parse_loop-Answers low (suc (length text)) text
      (record { draft_mode = no_mode; draft_max_age = 86_400; draft_mx = [] }) (omega arith))
