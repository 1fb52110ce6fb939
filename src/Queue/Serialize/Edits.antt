-- ===== src/Queue/Serialize/Edits.antt =====
-- Status records as edits of a list: each replaces the entry at its index. Records for the
-- selected entries of a list, in order, overlay that list on the one that is edited.
use smtp_server.Base.{
  ℕ, zero, suc, ◌+◌, ◌<◌, ◌≤◌, ◌≡◌, refl, ◌∙◌, ap, Bool, List, [], ◌∷◌, some, arith, length,
  get_elem?, set, All, if◌then◌else◌, Bool-cases, inl, inr,
}

module _ {X : Type 0} where
  abbrev pub modify : List X → ℕ → (X → X) → List X
  modify [] i f = []
  modify (x ∷ xs) zero f = f x ∷ xs
  modify (x ∷ xs) (suc i) f = x ∷ modify xs i f

  pub length-modify : (xs : List X) (i : ℕ) (f : X → X) → length (modify xs i f) ≡ length xs
  length-modify [] i f = refl
  length-modify (x ∷ xs) zero f = refl
  length-modify (x ∷ xs) (suc i) f = ap suc (length-modify xs i f)

  pub get_elem?_in_range :
      (xs : List X) (i : ℕ) → i < length xs → (x : X) × (get_elem? xs i ≡ some x)
  get_elem?_in_range [] i h = elim h [ ]
  get_elem?_in_range (x ∷ xs) zero h = (x, refl)
  get_elem?_in_range (x ∷ xs) (suc i) h = get_elem?_in_range xs i (omega arith)

  pub set-modify :
      (xs : List X) (i : ℕ) (f : X → X) (x : X)
      → get_elem? xs i ≡ some x
      → set xs i (f x) ≡ modify xs i f
  set-modify [] i f x h = refl
  set-modify (y ∷ xs) zero f x h = cc
  set-modify (y ∷ xs) (suc i) f x h = ap (◌∷◌ y) (set-modify xs i f x h)

module _ {D X : Type 0} (patch : D → X → X) where
  abbrev pub apply_edits : List X → List (ℕ × D) → List X
  apply_edits xs [] = xs
  apply_edits xs ((i, d) ∷ es) = apply_edits (modify xs i (patch d)) es

  pub length-apply_edits :
      (xs : List X) (es : List (ℕ × D)) → length (apply_edits xs es) ≡ length xs
  length-apply_edits xs [] = refl
  length-apply_edits xs ((i, d) ∷ es) =
      length-apply_edits (modify xs i (patch d)) es ∙ length-modify xs i (patch d)

  apply_edits-nil : (es : List (ℕ × D)) → apply_edits [] es ≡ []
  apply_edits-nil [] = refl
  apply_edits-nil ((i, d) ∷ es) = apply_edits-nil es

module _ {D : Type 0} (selected : D → Bool) (written : D → D) where
  -- The selected entries with their indices, from `i` on.
  abbrev pub edits : ℕ → List D → List (ℕ × D)
  edits i [] = []
  edits i (d ∷ ds) =
      let rest = edits (suc i) ds in if selected d then (i, written d) ∷ rest else rest

  pub edits-lt : (i n : ℕ) (ds : List D) → i + length ds ≤ n → All (λ e. e.0 < n) (edits i ds)
  edits-lt i n [] h = tt
  edits-lt i n (d ∷ ds) h = elim (Bool-cases (selected d)) [
    | inl e ↦ rw e ((omega arith, edits-lt (suc i) n ds (omega arith)))
    | inr e ↦ rw e (edits-lt (suc i) n ds (omega arith))
  ]

  pub edits-All :
      {P : D → Type 0} (i : ℕ) (ds : List D)
      → ((d : D) → P d → P (written d))
      → All P ds
      → All (λ e. P e.1) (edits i ds)
  edits-All i [] keeps h = tt
  edits-All i (d ∷ ds) keeps h = elim (Bool-cases (selected d)) [
    | inl e ↦ rw e ((keeps d h.0, edits-All (suc i) ds keeps h.1))
    | inr e ↦ rw e (edits-All (suc i) ds keeps h.1)
  ]

  pub length-edits-le : (i : ℕ) (ds : List D) → length (edits i ds) ≤ length ds
  length-edits-le i [] = omega arith
  length-edits-le i (d ∷ ds) = elim (Bool-cases (selected d)) [
    | inl e ↦ rw e (omega (arith, length-edits-le (suc i) ds))
    | inr e ↦ rw e (omega (arith, length-edits-le (suc i) ds))
  ]

module _ {D X : Type 0} (selected : D → Bool) (written : D → D) (patch : D → X → X) where
  -- The selected entries of the first list over the second.
  abbrev pub overlay : List D → List X → List X
  overlay [] xs = xs
  overlay (d ∷ ds) [] = []
  overlay (d ∷ ds) (x ∷ xs) = (if selected d then patch (written d) x else x) ∷ overlay ds xs

  shifted :
      (i : ℕ) (ds : List D) (x : X) (xs : List X)
      → apply_edits patch (x ∷ xs) (edits selected written (suc i) ds)
        ≡ x ∷ apply_edits patch xs (edits selected written i ds)
  shifted i [] x xs = refl
  shifted i (d ∷ ds) x xs = elim (Bool-cases (selected d)) [
    | inl e ↦ rw e (shifted (suc i) ds x (modify xs i (patch (written d))))
    | inr e ↦ rw e (shifted (suc i) ds x xs)
  ]

  pub apply_edits-overlay :
      (ds : List D) (xs : List X)
      → apply_edits patch xs (edits selected written 0 ds) ≡ overlay ds xs
  apply_edits-overlay [] xs = refl
  apply_edits-overlay (d ∷ ds) [] = apply_edits-nil patch (edits selected written 0 (d ∷ ds))
  apply_edits-overlay (d ∷ ds) (x ∷ xs) = elim (Bool-cases (selected d)) [
    | inl e ↦ rw e (
        shifted 0 ds (patch (written d) x) xs
        ∙ ap (◌∷◌ (patch (written d) x)) (apply_edits-overlay ds xs))
    | inr e ↦ rw e (shifted 0 ds x xs ∙ ap (◌∷◌ x) (apply_edits-overlay ds xs))
  ]
