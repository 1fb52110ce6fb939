-- ===== src/Base/Results.antt =====
-- Parsers over a byte iterator: `none` is the early return of `?`, and the second component is
-- what the iterator has left.
use mathlib.Core.Path.{◌≡◌}
use Prim.Native.Nat.{ℕ}
use mathlib.Core.List.{[], ◌∷◌}
use mathlib.Core.Option.{Option, none, some}
use smtp_server.Base.Lists.{Bytes}

abbrev pub Parser {ℓ} : Type ℓ → Type ℓ
Parser A = Bytes → Option (A × Bytes)

infixl 5 ◌>>=◌
abbrev pub ◌>>=◌ {ℓ κ} : {A : Type ℓ} {B : Type κ} → Parser A → (A → Parser B) → Parser B
◌>>=◌ p f bytes = elim (p bytes) [ none ↦ none | some (a, rest) ↦ f a rest ]

abbrev pub pure {ℓ} : {A : Type ℓ} → A → Parser A
pure a bytes = some (a, bytes)

abbrev pub fail {ℓ} : {A : Type ℓ} → Parser A
fail bytes = none

-- One byte: `bytes.next()`.
abbrev pub next : Parser ℕ
next [] = none
next (byte ∷ bytes) = some (byte, bytes)

-- A step that succeeds hands its value and what is left to the next step.
pub bind_ok {ℓ κ} :
    {A : Type ℓ} {B : Type κ} (p : Parser A) (f : A → Parser B) {bytes rest : Bytes} {a : A}
    {out : Option (B × Bytes)}
    → p bytes ≡ some (a, rest)
    → f a rest ≡ out
    → (p >>= f) bytes ≡ out
bind_ok p f e k = rw (e, ◌>>=◌) k
