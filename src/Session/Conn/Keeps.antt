-- ===== src/Session/Conn/Keeps.antt =====
-- What a handler makes of the session, put together from what its parts make of it.
use smtp_server.Base.{
  zero, suc, ◌≡◌, refl, subst, sym, Bool, true, false, [], ◌∷◌, ◌++◌, Option, none, some, Bytes,
}
use smtp_server.Session.State.{Session, SessionData}
use smtp_server.Session.Conn.{
  Conn, M, ◌>>=◌, ◌>>◌, pure, disconnect, panic, ask, change, change_data, on_option,
  when◌then◌else◌, write,
}

-- Whatever a handler answers, from a session of the first kind it leaves one of the second kind.
pub data Steps {A : Type 0} (P : Session → Type 0) (m : M A) (R : Session → Type 0) : Type 0 where
  steps : ((c : Conn) → P c.session → R (m c).1.session) → Steps P m R

abbrev pub stepped :
    {A : Type 0} {P R : Session → Type 0} {m : M A}
    → Steps P m R
    → (c : Conn) → P c.session
    → R (m c).1.session
stepped (steps h) = h

abbrev pub Keeps : {A : Type 0} → (Session → Type 0) → M A → Type 0
Keeps P m = Steps P m P

-- A session as it was when the handler asked.
abbrev pub At : Session → Session → Type 0
At s t = t ≡ s

module _ {P R : Session → Type 0} where
  pub Steps-bind :
      {A B : Type 0} {S : Session → Type 0} {m : M A} {f : A → M B}
      → Steps P m S
      → ((s : Session) → S s → R s)
      → ((a : A) → Steps S (f a) R)
      → Steps P (m >>= f) R
  unfolding ◌>>=◌
  Steps-bind {B = B} {m = m} {f = f} h weak g = steps λ c p.
      elim (m c).0
        as (λ o.
          let x : Option B × Conn = elim o [ none ↦ (none, (m c).1) | some a ↦ f a (m c).1 ] in
          R x.1.session) [
            | none ↦ weak (m c).1.session (stepped h c p)
            | some a ↦ stepped (g a) (m c).1 (stepped h c p)
          ]

  pub Steps-then :
      {B : Type 0} {S : Session → Type 0} {m : M (Unit {0})} {n : M B}
      → Steps P m S
      → ((s : Session) → S s → R s)
      → Steps S n R
      → Steps P (m >> n) R
  unfolding ◌>>◌
  Steps-then h weak g = Steps-bind h weak (λ _. g)

  pub Steps-ask :
      {A B : Type 0} (f : Session → A) (g : A → M B)
      → ((s : Session) → P s → Steps (At s) (g (f s)) R)
      → Steps P (ask f >>= g) R
  unfolding ask ◌>>=◌
  Steps-ask f g h = steps λ c p. stepped (h c.session p) c refl

  pub Steps-change :
      (f : Session → Session) → ((s : Session) → P s → R (f s)) → Steps P (change f) R
  unfolding change
  Steps-change f h = steps λ c p. h c.session p

  pub Steps-change_data :
      (f : SessionData → SessionData)
      → ((s : Session) → P s → R (record s { session_data = f s.session_data }))
      → Steps P (change_data f) R
  unfolding change_data
  Steps-change_data f h = steps λ c p. h c.session p

  pub Steps-if :
      {A : Type 0} (b : Bool) {m n : M A}
      → (b ≡ true → Steps P m R)
      → (b ≡ false → Steps P n R)
      → Steps P (when b then m else n) R
  unfolding when◌then◌else◌
  Steps-if true h g = h refl
  Steps-if false h g = g refl

  pub Steps-option :
      {A B : Type 0} (o : Option A) {m : M B} {f : A → M B}
      → (o ≡ none → Steps P m R)
      → ((a : A) → o ≡ some a → Steps P (f a) R)
      → Steps P (on_option o m f) R
  unfolding on_option
  Steps-option none h g = h refl
  Steps-option (some a) h g = g a refl

  pub Steps-weaken :
      {A : Type 0} {Q : Session → Type 0} {m : M A}
      → ((s : Session) → Q s → P s)
      → Steps P m R
      → Steps Q m R
  Steps-weaken weak h = steps λ c q. stepped h c (weak c.session q)

module _ {P : Session → Type 0} where
  pub Keeps-bind :
      {A B : Type 0} {m : M A} {f : A → M B}
      → Keeps P m
      → ((a : A) → Keeps P (f a))
      → Keeps P (m >>= f)
  Keeps-bind h g = Steps-bind h (λ s p. p) g

  pub Keeps-then :
      {B : Type 0} {m : M (Unit {0})} {n : M B} → Keeps P m → Keeps P n → Keeps P (m >> n)
  Keeps-then h g = Steps-then h (λ s p. p) g

  pub Keeps-pure : {A : Type 0} (a : A) → Keeps P (pure a)
  unfolding pure
  Keeps-pure a = steps λ c p. p

  pub Keeps-disconnect : {A : Type 0} → Keeps P (disconnect {A = A})
  unfolding disconnect
  Keeps-disconnect = steps λ c p. p

  pub Keeps-panic : {A : Type 0} → Keeps P (panic {A = A})
  unfolding panic
  Keeps-panic = steps λ c p. p

  pub Keeps-write : (bytes : Bytes) → Keeps P (write bytes)
  unfolding write
  Keeps-write bytes = steps λ c p.
      elim c.writes_left
        as (λ n.
          let x : Option (Unit {0}) × Conn = elim n [
            | zero ↦ (none, c)
            | suc n ↦ (some tt, record c { written = c.written ++ bytes ∷ []; writes_left = n })
          ] in
          P x.1.session) [ zero ↦ p | suc n ↦ p ]

  -- The session is still as it was asked for.
  pub at :
      {A : Type 0} {s : Session} {R : Session → Type 0} {m : M A}
      → P s
      → Steps P m R
      → Steps (At s) m R
  at p h = Steps-weaken (λ t e. subst P (sym e) p) h
