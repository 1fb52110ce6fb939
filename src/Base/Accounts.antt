-- ===== src/Base/Accounts.antt =====
-- Tables of shared things, each under its key and known by its place, against what is held of each.
use smtp_server.Base.Tests.{◌==◌, if◌then◌else◌}
use smtp_server.Base.Lists.{Bytes}
use Prim.Native.Nat.{ℕ, suc, ◌+◌, ◌≤◌}
use mathlib.Core.Path.{◌≡◌, refl, sym, ap, ◌∙◌, subst}
use mathlib.Core.List.{List, [], ◌∷◌}
use mathlib.Core.Option.{Option, none, some}
use native.Mathlib.Omega.{arith}

-- One more reference.
abbrev pub plus : ℕ → ℕ → (ℕ → ℕ) → ℕ → ℕ
plus q size held place = held place + (if q == place then size else 0)

-- What is held after a demand.
abbrev pub after_demand : ℕ → (ℕ → ℕ) → Option ℕ → ℕ → ℕ
after_demand size held none place = held place
after_demand size held (some q) place = plus q size held place

abbrev pub AtLeast : ℕ → Option ℕ → Type 0
AtLeast place none = Unit
AtLeast place (some q) = place ≤ q

pub AtLeast-weaken : (place : ℕ) (o : Option ℕ) → AtLeast (suc place) o → AtLeast place o
AtLeast-weaken place none h = tt
AtLeast-weaken place (some q) h = omega (arith, h)

pub untouched :
    (size place : ℕ) (held : ℕ → ℕ) (o : Option ℕ)
    → AtLeast (suc place) o
    → held place ≡ after_demand size held o place
untouched size place held none h = refl
untouched size place held (some q) h = ground (arith, h)

module _ {L : Type 0} (Holds : ℕ → L → Type 0) where
  -- A table from a place on, against what is held at each place.
  abbrev pub AccountsFrom : ℕ → List (Bytes × L) → (ℕ → ℕ) → Type 0
  AccountsFrom place [] held = (n : ℕ) → held (place + n) ≡ 0
  AccountsFrom place ((k, l) ∷ table) held =
      Holds (held place) l × AccountsFrom (suc place) table held

  pub AccountsFrom-cong :
      (place : ℕ) (table : List (Bytes × L)) (f g : ℕ → ℕ)
      → ((n : ℕ) → f (place + n) ≡ g (place + n))
      → AccountsFrom place table f
      → AccountsFrom place table g
  AccountsFrom-cong place [] f g e a = λ n. sym (e n) ∙ a n
  AccountsFrom-cong place ((k, l) ∷ table) f g e a =
      let here : f place ≡ g place = ap f (omega arith) ∙ e 0 ∙ ap g (omega arith) in
      (
        subst (λ h. Holds h l) here a.0,
        AccountsFrom-cong (suc place) table f g
            (λ n. ap f (omega arith) ∙ e (suc n) ∙ ap g (omega arith)) a.1,
      )

  -- A grant at a place changes nothing behind it.
  pub behind :
      (size place : ℕ) (table : List (Bytes × L)) (held : ℕ → ℕ)
      → AccountsFrom (suc place) table held
      → AccountsFrom (suc place) table (plus place size held)
  behind size place table held a =
      AccountsFrom-cong (suc place) table held (plus place size held) (λ n. ground arith) a
