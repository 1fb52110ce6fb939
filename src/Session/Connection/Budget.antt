-- ===== src/Session/Connection/Budget.antt =====
-- The bytes that a connection takes, against the limit that its session has.
use Prim.Native.String.{String}
use smtp_server.Base.{
  ℕ, ◌+◌, ◌-◌, ◌≤◌, ◌≡◌, refl, sym, ap, ◌∙◌, subst, Bool, true, false, List, [], ◌∷◌, Option, none,
  some, Bytes, arith,
}
use smtp_server.Session.State.{Session}
use smtp_server.Session.Config.{SessionConfig}
use smtp_server.Session.Conn.{
  World, Conn, M, when◌then◌else◌, on_option, ◌>>=◌, ◌>>◌, pure, disconnect, ask, change,
  change_data, write,
}
use smtp_server.Session.Conn.Keeps.{stepped, Keeps, Keeps-write}
use smtp_server.Base.Flags.{Flags}
use smtp_server.Session.Ehlo.{Mechanisms, EhloResponse}
use smtp_server.Session.Build.{QueueTimes}
use smtp_server.Session.Received.{Authority, DataConfig}
use smtp_server.Session.Ingest.{State, in_request, Next, go, handshake, Input}
use smtp_server.Session.Changes.{Reach, here, Reach-bytes_left}
use smtp_server.Session.Connection.{
  Event, arrived, failed, idle, shutdown, on_next, Tls, ingest_all, farewell, handle_event,
  into_tls, secure, handle_conn,
}
use smtp_server.Session.Connection.Runs.{Keeps-ingest_all}

abbrev left : Conn → ℕ
left c = c.session.session_data.bytes_left

abbrev size_of : Event → ℕ
size_of (arrived w n inputs) = n
size_of failed = 0
size_of idle = 0
size_of shutdown = 0

-- The bytes of all reads.
abbrev pub total : List Event → ℕ
total [] = 0
total (e ∷ events) = size_of e + total events

-- What answers at all has taken so many bytes.
data Takes {A : Type 0} (P : Session → Type 0) (n : ℕ) (m : M A) : Type 0 where
  takes :
      ((c : Conn) → P c.session → (a : A) → (m c).0 ≡ some a → n + left (m c).1 ≡ left c)
      → Takes P n m

taken :
    {A : Type 0} {P : Session → Type 0} {n : ℕ} {m : M A}
    → Takes P n m
    → (c : Conn) → P c.session
    → (a : A) → (m c).0 ≡ some a
    → n + left (m c).1 ≡ left c
taken (takes h) = h

abbrev Any : Session → Type 0
Any s = Unit

none≢some : {A : Type 0} {B : Type 0} (a : A) → none ≡ some a → B
none≢some a e = absurd (cc e)

Takes-bind :
    {A B : Type 0} {P : Session → Type 0} {n k : ℕ} {m : M A} {f : A → M B}
    → Takes P n m
    → ((a : A) → Takes Any k (f a))
    → Takes P (n + k) (m >>= f)
unfolding ◌>>=◌
Takes-bind {A} {B} {P} {n} {k} {m} {f} h g = takes λ c p b.
    elim (m c).0
        as (λ o.
          let y : Option B × Conn = elim o [ none ↦ (none, (m c).1) | some a ↦ f a (m c).1 ] in
          (m c).0 ≡ o → y.0 ≡ some b → n + k + left y.1 ≡ left c) [
            | none ↦ λ e e'. none≢some b e'
            | some a ↦ λ e e'. omega (arith, taken h c p a e, taken (g a) (m c).1 tt b e')
          ]
      refl

Takes-weaken : {A : Type 0} {P : Session → Type 0} {n : ℕ} {m : M A} → Takes Any n m → Takes P n m
Takes-weaken h = takes λ c p a e. taken h c tt a e

Takes-equal :
    {A : Type 0} {P : Session → Type 0} {n k : ℕ} {m : M A} → n ≡ k → Takes P n m → Takes P k m
Takes-equal {P = P} {m = m} e h = subst (λ n. Takes P n m) e h

Takes-reach : {A : Type 0} (m : M A) → ((s : Session) → Keeps (Reach s) m) → Takes Any 0 m
Takes-reach m h = takes λ c p a e. omega (arith, Reach-bytes_left (stepped (h c.session) c here))

Takes-disconnect : {A : Type 0} (n : ℕ) → Takes Any n (disconnect {A = A})
unfolding disconnect
Takes-disconnect n = takes λ c p a e. none≢some a e

Takes-none :
    {A : Type 0} {P : Session → Type 0} (n : ℕ) (m : M A)
    → ((c : Conn) → (m c).0 ≡ none)
    → Takes P n m
Takes-none n m h = takes λ c p a e. none≢some a (sym (h c) ∙ e)

Takes-ask :
    {A B : Type 0} {n : ℕ} (f : Session → A) (g : A → M B)
    → ((s : Session) → Takes (λ t. t ≡ s) n (g (f s)))
    → Takes Any n (ask f >>= g)
unfolding ask ◌>>=◌
Takes-ask f g h = takes λ c p a e. taken (h c.session) c refl a e

Takes-if :
    {A : Type 0} {P : Session → Type 0} {n : ℕ} (b : Bool) {m m' : M A}
    → (b ≡ true → Takes P n m)
    → (b ≡ false → Takes P n m')
    → Takes P n (when b then m else m')
unfolding when◌then◌else◌
Takes-if true h g = h refl
Takes-if false h g = g refl

Takes-on_next :
    {A : Type 0} {n : ℕ} (r : Next) {f : State → M A} {m : M A}
    → ((state : State) → Takes Any n (f state))
    → Takes Any n m
    → Takes Any n (on_next r f m)
unfolding on_next
Takes-on_next (go state) h g = h state
Takes-on_next handshake h g = g

-- The reading of `n` bytes, when there are so many left.
Takes-spend :
    (s : Session) (n : ℕ)
    → n ≤ s.session_data.bytes_left
    → Takes (λ t. t ≡ s) n (change_data (λ d. record d { bytes_left = d.bytes_left - n }))
unfolding change_data change
Takes-spend s n l = takes λ c p a e. omega (arith, ap (λ t. t.session_data.bytes_left) p, l)

Takes-write : (bytes : Bytes) → Takes Any 0 (write bytes)
Takes-write bytes = Takes-reach _ (λ s. Keeps-write bytes)

Takes-pure : {A : Type 0} (a : A) → Takes Any 0 (pure a)
unfolding pure
Takes-pure a = takes λ c p b e. omega arith

Takes-shield : Takes Any 0 (change (λ s. record s { is_tls = true }))
unfolding change
Takes-shield = takes λ c p b e. omega arith

Takes-option :
    {A B : Type 0} {n : ℕ} (o : Option A) {m : M B} {f : A → M B}
    → Takes Any n m
    → ((a : A) → Takes Any n (f a))
    → Takes Any n (on_option o m f)
unfolding on_option
Takes-option none h g = h
Takes-option (some a) h g = g a

-- All is taken before what follows.
Takes-then :
    {B : Type 0} {P : Session → Type 0} {n : ℕ} {m : M (Unit {0})} {m' : M B}
    → Takes P n m
    → Takes Any 0 m'
    → Takes P n (m >> m')
unfolding ◌>>◌
Takes-then {n = n} h g = Takes-equal (omega arith) (Takes-bind h (λ u. g))

-- All is taken by what follows.
Takes-after :
    {B : Type 0} (n : ℕ) {m : M (Unit {0})} {m' : M B}
    → Takes Any 0 m
    → Takes Any n m'
    → Takes Any n (m >> m')
unfolding ◌>>◌
Takes-after n h g = Takes-equal (omega arith) (Takes-bind h (λ u. g))

module _ (fl : Flags) (mech : Mechanisms) (write_ehlo : EhloResponse → Bytes) (q : QueueTimes)
    (x : Authority) (k : SessionConfig) (dc : DataConfig) (tls : Tls) where
  Takes-ingest_all :
      (w : World) (state : State) (inputs : List Input)
      → Takes Any 0 (ingest_all fl mech write_ehlo q x k dc tls w state inputs)
  Takes-ingest_all w state inputs =
      Takes-reach _ (λ s0. Keeps-ingest_all fl mech write_ehlo q x k dc tls s0 w state inputs)

  Takes-farewell :
      {P : Session → Type 0} (n : ℕ) (code text : String)
      → Takes P n (farewell fl mech write_ehlo q x k dc tls code text)
  unfolding farewell
  Takes-farewell n code text =
      Takes-weaken
        (Takes-ask _ _ (λ s. Takes-weaken (Takes-after n (Takes-write _) (Takes-disconnect n))))

  Takes-handle_event :
      (state : State) (e : Event)
      → Takes Any (size_of e) (handle_event fl mech write_ehlo q x k dc tls state e)
  unfolding handle_event
  Takes-handle_event state (arrived w n inputs) = Takes-ask _ _ (λ s.
      Takes-if _ (λ e. Takes-weaken (Takes-disconnect n))
        (λ e.
          Takes-if _
            (λ e.
              Takes-then (Takes-spend s n (ground (arith, e))) (Takes-ingest_all w state inputs))
            (λ e.
              Takes-if _ (λ e. Takes-farewell n "451 4.7.28 " " Session exceeded transfer quota.")
                (λ e. Takes-farewell n "453 4.3.2 " " Session open for too long."))))
  Takes-handle_event state failed = Takes-disconnect 0
  Takes-handle_event state idle = Takes-farewell 0 "221 2.0.0 " " Disconnecting inactive client."
  Takes-handle_event state shutdown = Takes-after 0 (Takes-write _) (Takes-disconnect 0)

  Takes-into_tls :
      (succeeds : Bool) → Takes Any 0 (into_tls fl mech write_ehlo q x k dc tls succeeds)
  unfolding into_tls
  Takes-into_tls succeeds = Takes-if succeeds (λ e. Takes-shield) (λ e. Takes-disconnect 0)

  Takes-secure : Takes Any 0 (secure fl mech write_ehlo q x k dc tls)
  unfolding secure
  Takes-secure = Takes-ask _ _ (λ s. Takes-weaken (
      Takes-if _ (λ e. Takes-disconnect 0)
        (λ e. Takes-option _ (Takes-disconnect 0) (λ succeeds. Takes-into_tls succeeds))))

  Takes-handle_conn :
      (state : State) (events : List Event)
      → Takes Any (total events) (handle_conn fl mech write_ehlo q x k dc tls state events)
  unfolding handle_conn
  Takes-handle_conn state [] = Takes-pure state
  Takes-handle_conn state (e ∷ events) = Takes-bind (Takes-handle_event state e) (λ r.
      Takes-on_next r (λ state'. Takes-handle_conn state' events)
        (Takes-after _ Takes-secure (Takes-handle_conn in_request events)))

  -- If a connection is still open after the events, the bytes of its reads and those that may still
  -- come are together as many as might come before.
  pub handle_conn-total :
      (state : State) (events : List Event) (c : Conn) (state' : State)
      → (handle_conn fl mech write_ehlo q x k dc tls state events c).0 ≡ some state'
      → total events
          + (handle_conn fl mech write_ehlo q x k dc tls state events
              c).1.session.session_data.bytes_left
        ≡ c.session.session_data.bytes_left
  handle_conn-total state events c state' e = taken (Takes-handle_conn state events) c tt state' e
