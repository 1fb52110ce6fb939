-- ===== src/Session/Changes.antt =====
-- How the commands may change a session, a step for each kind of change, and what holds of every
-- session that is reached by such steps.
pub mod Asides
pub mod Senders
pub mod Recipients
pub mod Greetings
pub mod Logins
pub mod Messages
pub mod Inputs
use smtp_server.Base.{
  ℕ, ◌≡◌, ◌∙◌, ◌<◌, refl, sym, ap, subst, ◌==◌, ◌⊎◌, inl, inr, arith, ◌&&◌, ◌||◌, any,
  bytes_eq_refl, Bool, true, false, not, List, [], ◌∷◌, ◌++◌, Option, none, some, Bytes, bytes_eq,
  length, is_some, is_empty,
}
use smtp_server.Session.Params.{SessionParameters, Credentials}
use smtp_server.Session.Auth.{username_of, known}
use smtp_server.Session.State.{Session, SessionData, SessionAddress, reset_data}
use smtp_server.Session.Rcpt.{AddressCheck, taken, verify_address, has_address, pop}

-- A client that has to authenticate has.
abbrev pub Admitted : Session → Type 0
Admitted s = s.params.auth_require ≡ true → is_empty s.session_data.authenticated_as ≡ false

-- A change of neither the sender, nor the recipients, nor the name that is authenticated, nor the
-- bytes that may still come.
abbrev pub IsAside : (SessionData → SessionData) → Type 0
IsAside f =
    (d : SessionData)
    → ((f d).mail_from ≡ d.mail_from)
      × ((f d).rcpt_to ≡ d.rcpt_to)
      × ((f d).authenticated_as ≡ d.authenticated_as)
      × ((f d).bytes_left ≡ d.bytes_left)

pub data Change : Session → Session → Type 0 where
  aside :
      (s : Session) (f : SessionData → SessionData)
      → IsAside f
      → Change s (record s { session_data = f s.session_data })
  flight : (s : Session) (ps : List ℕ) → Change s (record s { in_flight = ps })
  parameters :
      (s : Session) (p : SessionParameters)
      → p.auth_require ≡ s.params.auth_require
      → p.auth_lookup ≡ s.params.auth_lookup
      → Change s (record s { params = p })
  sender :
      (s : Session) (a : SessionAddress)
      → Admitted s
      → s.session_data.mail_from ≡ none
      → Change s (record s { session_data = record s.session_data { mail_from = some a } })
  no_sender :
      (s : Session)
      → Change s (record s { session_data = record s.session_data { mail_from = none } })
  recipient :
      (s : Session) (a : SessionAddress)
      → is_some s.session_data.mail_from ≡ true
      → length s.session_data.rcpt_to < s.params.rcpt_max
      → verify_address s a ≡ taken
      → has_address a s.session_data.rcpt_to ≡ false
      → Change s (record s {
        session_data = record s.session_data { rcpt_to = s.session_data.rcpt_to ++ a ∷ [] };
      })
  recipient_back :
      (s : Session)
      → Change s (record s {
        session_data = record s.session_data { rcpt_to = pop s.session_data.rcpt_to };
      })
  no_recipients :
      (s : Session) → Change s (record s { session_data = record s.session_data { rcpt_to = [] } })
  authenticated :
      (s : Session) (c : Credentials)
      → known s.params.auth_lookup c ≡ some true
      → is_empty (username_of c) ≡ false
      → Change s
          (record s { session_data = record s.session_data { authenticated_as = username_of c } })

pub data Reach (s : Session) : Session → Type 0 where
  here : Reach s s
  next : {t u : Session} → Reach s t → Change t u → Reach s u

-- If the client has to authenticate, there is a sender only when it has.
abbrev pub SenderIsAdmitted : Session → Type 0
SenderIsAdmitted s = is_some s.session_data.mail_from ≡ true → Admitted s

Change-SenderIsAdmitted : {s t : Session} → Change s t → SenderIsAdmitted s → SenderIsAdmitted t
Change-SenderIsAdmitted (aside s f i) h =
    λ m r. ap is_empty ((i s.session_data).2) ∙ h (ap is_some (sym ((i s.session_data).0)) ∙ m) r
Change-SenderIsAdmitted (flight s ps) h = h
Change-SenderIsAdmitted (parameters s p e l) h = λ m r. h m (sym e ∙ r)
Change-SenderIsAdmitted (sender s a q e) h = λ m. q
Change-SenderIsAdmitted (no_sender s) h = λ m. cc
Change-SenderIsAdmitted (recipient s a m l v b) h = h
Change-SenderIsAdmitted (recipient_back s) h = h
Change-SenderIsAdmitted (no_recipients s) h = h
Change-SenderIsAdmitted (authenticated s c l e) h = λ m r. e

pub Reach-SenderIsAdmitted : {s t : Session} → SenderIsAdmitted s → Reach s t → SenderIsAdmitted t
Reach-SenderIsAdmitted h here = h
Reach-SenderIsAdmitted h (next r c) = Change-SenderIsAdmitted c (Reach-SenderIsAdmitted h r)

-- No address is among the recipients twice.
abbrev pub AreDistinct : List SessionAddress → Type 0
AreDistinct [] = Unit
AreDistinct (a ∷ rest) = (has_address a rest ≡ false) × AreDistinct rest

bytes_eq_comm : (xs ys : Bytes) → bytes_eq xs ys ≡ bytes_eq ys xs
unfolding bytes_eq
bytes_eq_comm [] [] = refl
bytes_eq_comm [] (y ∷ ys) = refl
bytes_eq_comm (x ∷ xs) [] = refl
bytes_eq_comm (x ∷ xs) (y ∷ ys) = ground (arith, bytes_eq_comm xs ys)

has_address-append :
    (b a : SessionAddress) (as' : List SessionAddress)
    → has_address b as' ≡ false
    → bytes_eq a.address_lcase b.address_lcase ≡ false
    → has_address b (as' ++ a ∷ []) ≡ false
has_address-append b a [] h e = ground (arith, e)
has_address-append b a (c ∷ cs) h e = ground (arith, has_address-append b a cs, e)

AreDistinct-append :
    (a : SessionAddress) (cs : List SessionAddress)
    → has_address a cs ≡ false
    → AreDistinct cs
    → AreDistinct (cs ++ a ∷ [])
AreDistinct-append a [] h d = (refl, tt)
AreDistinct-append a (c ∷ cs) h d = (
  has_address-append c a cs d.0 (ground (arith, bytes_eq_comm a.address_lcase c.address_lcase, h)),
  AreDistinct-append a cs (ground (arith, h)) d.1,
)

has_address-pop :
    (b : SessionAddress) (cs : List SessionAddress)
    → has_address b cs ≡ false
    → has_address b (pop cs) ≡ false
has_address-pop b [] h = refl
has_address-pop b (c ∷ []) h = refl
has_address-pop b (c ∷ e ∷ cs) h = ground (arith, has_address-pop b (e ∷ cs))

AreDistinct-pop : (cs : List SessionAddress) → AreDistinct cs → AreDistinct (pop cs)
AreDistinct-pop [] d = tt
AreDistinct-pop (c ∷ []) d = tt
AreDistinct-pop (c ∷ e ∷ cs) d = (has_address-pop c (e ∷ cs) d.0, AreDistinct-pop (e ∷ cs) d.1)

abbrev pub HasDistinct : Session → Type 0
HasDistinct s = AreDistinct s.session_data.rcpt_to

Change-HasDistinct : {s t : Session} → Change s t → HasDistinct s → HasDistinct t
Change-HasDistinct (aside s f i) h = subst AreDistinct (sym ((i s.session_data).1)) h
Change-HasDistinct (flight s ps) h = h
Change-HasDistinct (parameters s p e l) h = h
Change-HasDistinct (sender s a q e) h = h
Change-HasDistinct (no_sender s) h = h
Change-HasDistinct (recipient s a m l v b) h = AreDistinct-append a s.session_data.rcpt_to b h
Change-HasDistinct (recipient_back s) h = AreDistinct-pop s.session_data.rcpt_to h
Change-HasDistinct (no_recipients s) h = tt
Change-HasDistinct (authenticated s c l e) h = h

pub Reach-HasDistinct : {s t : Session} → HasDistinct s → Reach s t → HasDistinct t
Reach-HasDistinct h here = h
Reach-HasDistinct h (next r c) = Change-HasDistinct c (Reach-HasDistinct h r)

abbrev pub IsKnownName : Bytes → Option (Credentials → Option Bool) → Type 0
IsKnownName name lookup =
    (name ≡ []) ⊎ ((c : Credentials) × (name ≡ username_of c) × (known lookup c ≡ some true))

-- The name is that of credentials that the lookup accepts, if there is a name.
abbrev pub NameIsKnown : Session → Type 0
NameIsKnown s = IsKnownName s.session_data.authenticated_as s.params.auth_lookup

Change-NameIsKnown : {s t : Session} → Change s t → NameIsKnown s → NameIsKnown t
Change-NameIsKnown (aside s f i) h =
    subst (λ name. IsKnownName name s.params.auth_lookup) (sym ((i s.session_data).2)) h
Change-NameIsKnown (flight s ps) h = h
Change-NameIsKnown (parameters s p e l) h =
    subst (λ lookup. IsKnownName s.session_data.authenticated_as lookup) (sym l) h
Change-NameIsKnown (sender s a q e) h = h
Change-NameIsKnown (no_sender s) h = h
Change-NameIsKnown (recipient s a m l v b) h = h
Change-NameIsKnown (recipient_back s) h = h
Change-NameIsKnown (no_recipients s) h = h
Change-NameIsKnown (authenticated s c l e) h = inr (c, refl, l)

pub Reach-NameIsKnown : {s t : Session} → NameIsKnown s → Reach s t → NameIsKnown t
Reach-NameIsKnown h here = h
Reach-NameIsKnown h (next r c) = Change-NameIsKnown c (Reach-NameIsKnown h r)

Change-bytes_left :
    {s t : Session} → Change s t → t.session_data.bytes_left ≡ s.session_data.bytes_left
Change-bytes_left (aside s f i) = (i s.session_data).3
Change-bytes_left (flight s ps) = refl
Change-bytes_left (parameters s p e l) = refl
Change-bytes_left (sender s a q e) = refl
Change-bytes_left (no_sender s) = refl
Change-bytes_left (recipient s a m l v b) = refl
Change-bytes_left (recipient_back s) = refl
Change-bytes_left (no_recipients s) = refl
Change-bytes_left (authenticated s c l e) = refl

pub Reach-bytes_left :
    {s t : Session} → Reach s t → t.session_data.bytes_left ≡ s.session_data.bytes_left
Reach-bytes_left here = refl
Reach-bytes_left (next r c) = Change-bytes_left c ∙ Reach-bytes_left r
