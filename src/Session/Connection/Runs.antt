-- ===== src/Session/Connection/Runs.antt =====
-- What holds of a session all through its connection, whatever events it meets.
use Prim.Native.String.{String}
use smtp_server.Base.{ℕ, ◌-◌, ◌≡◌, sym, subst, Bool, true, false, List, [], ◌∷◌, none, Bytes, inl}
use smtp_server.Session.State.{Session}
use smtp_server.Session.Config.{SessionConfig, eval_session_params}
use smtp_server.Session.Conn.{World, Conn, M, throttle_allows}
use smtp_server.Session.Conn.Keeps.{
  Steps, steps, stepped, Keeps, Steps-bind, Steps-then, Steps-ask, Steps-change, Steps-change_data,
  Steps-if, Steps-option, Steps-weaken, Keeps-bind, Keeps-then, Keeps-pure, Keeps-disconnect,
  Keeps-panic, Keeps-write, at,
}
use smtp_server.Session.Throttle.{session_is_allowed}
use smtp_server.Session.Dnsbl.{verify_ip_dnsbl}
use smtp_server.Base.Flags.{Flags}
use smtp_server.Session.Ehlo.{Mechanisms, EhloResponse}
use smtp_server.Session.Build.{QueueTimes}
use smtp_server.Session.Received.{Authority, DataConfig}
use smtp_server.Session.Ingest.{State, in_request, Next, go, handshake, Input}
use smtp_server.Session.Changes.{
  Reach, here, SenderIsAdmitted, Reach-SenderIsAdmitted, AreDistinct, HasDistinct,
  Reach-HasDistinct, NameIsKnown, Reach-NameIsKnown,
}
use smtp_server.Session.Changes.Inputs.{Keeps-ingest}
use smtp_server.Session.Connection.{
  Event, arrived, failed, idle, shutdown, on_next, Tls, ingest_all, farewell, handle_event,
  into_tls, secure, handle_conn, init_conn, serve,
}

abbrev spend : ℕ → Session → Session
spend n s = record s {
  session_data = record s.session_data { bytes_left = s.session_data.bytes_left - n };
}

abbrev secured : Session → Session
secured s = record s { is_tls = true }

-- What the steps of commands, the count of bytes and a handshake all leave true.
record Lasting (P : Session → Type 0) : Type 0 where
  reached : {s t : Session} → P s → Reach s t → P t
  spent : (n : ℕ) (s : Session) → P s → P (spend n s)
  shielded : (s : Session) → P s → P (secured s)

-- A session to which no command has come.
abbrev pub IsNew : Session → Type 0
IsNew s =
    (s.session_data.mail_from ≡ none)
    × (s.session_data.rcpt_to ≡ [])
    × (s.session_data.authenticated_as ≡ [])

by_reach :
    {A : Type 0} {P : Session → Type 0}
    → Lasting P
    → (m : M A) → ((s0 : Session) → Keeps (Reach s0) m)
    → Keeps P m
by_reach lasting m h = steps λ c p. lasting.reached p (stepped (h c.session) c here)

Keeps-on_next :
    {A : Type 0} {P : Session → Type 0} (r : Next) {f : State → M A} {m : M A}
    → ((state : State) → Keeps P (f state))
    → Keeps P m
    → Keeps P (on_next r f m)
unfolding on_next
Keeps-on_next (go state) h g = h state
Keeps-on_next handshake h g = g

module _ (fl : Flags) (mech : Mechanisms) (write_ehlo : EhloResponse → Bytes) (q : QueueTimes)
    (x : Authority) (k : SessionConfig) (dc : DataConfig) (tls : Tls) where
  pub Keeps-ingest_all :
      (s0 : Session) (w : World) (state : State) (inputs : List Input)
      → Keeps (Reach s0) (ingest_all fl mech write_ehlo q x k dc tls w state inputs)
  unfolding ingest_all
  Keeps-ingest_all s0 w state [] = Keeps-pure _
  Keeps-ingest_all s0 w state (i ∷ rest) =
      Keeps-bind (Keeps-ingest s0 fl mech write_ehlo q x k dc w state i)
        (λ r. Keeps-on_next r (λ state'. Keeps-ingest_all s0 w state' rest) (Keeps-pure _))

  module _ {P : Session → Type 0} (lasting : Lasting P) where
    Keeps-farewell :
        (code text : String) → Keeps P (farewell fl mech write_ehlo q x k dc tls code text)
    unfolding farewell
    Keeps-farewell code text =
        Steps-ask _ _ (λ s p. at p (Keeps-then (Keeps-write _) Keeps-disconnect))

    Keeps-handle_event :
        (state : State) (e : Event) → Keeps P (handle_event fl mech write_ehlo q x k dc tls state e)
    unfolding handle_event
    Keeps-handle_event state (arrived w bytes_read inputs) = Steps-ask _ _ (λ s p. at p (
        Steps-if _ (λ e. Keeps-disconnect)
          (λ e.
            Steps-if _
              (λ e.
                Keeps-then (Steps-change_data _ (λ s p. lasting.spent bytes_read s p))
                  (by_reach lasting _ (λ s0. Keeps-ingest_all s0 w state inputs)))
              (λ e.
                Steps-if _ (λ e. Keeps-farewell "451 4.7.28 " " Session exceeded transfer quota.")
                  (λ e. Keeps-farewell "453 4.3.2 " " Session open for too long.")))))
    Keeps-handle_event state failed = Keeps-disconnect
    Keeps-handle_event state idle = Keeps-farewell "221 2.0.0 " " Disconnecting inactive client."
    Keeps-handle_event state shutdown = Keeps-then (Keeps-write _) Keeps-disconnect

    Keeps-into_tls : (succeeds : Bool) → Keeps P (into_tls fl mech write_ehlo q x k dc tls succeeds)
    unfolding into_tls
    Keeps-into_tls succeeds =
        Steps-if succeeds (λ e. Steps-change _ (λ s p. lasting.shielded s p))
          (λ e. Keeps-disconnect)

    Keeps-secure : Keeps P (secure fl mech write_ehlo q x k dc tls)
    unfolding secure
    Keeps-secure = Steps-ask _ _ (λ s p. at p (
        Steps-if _ (λ e. Keeps-disconnect)
          (λ e. Steps-option _ (λ e. Keeps-disconnect) (λ succeeds e. Keeps-into_tls succeeds))))

    Keeps-handle_conn :
        (state : State) (events : List Event)
        → Keeps P (handle_conn fl mech write_ehlo q x k dc tls state events)
    unfolding handle_conn
    Keeps-handle_conn state [] = Keeps-pure state
    Keeps-handle_conn state (e ∷ events) = Keeps-bind (Keeps-handle_event state e) (λ r.
        Keeps-on_next r (λ state'. Keeps-handle_conn state' events)
          (Keeps-then Keeps-secure (Keeps-handle_conn in_request events)))

  Keeps-verify_ip_dnsbl : (w : World) → Keeps IsNew (verify_ip_dnsbl w)
  unfolding verify_ip_dnsbl
  Keeps-verify_ip_dnsbl w = Steps-ask _ _ (λ s p. at p (
      Steps-option _ (λ e. Keeps-pure true)
        (λ dnsbl e. Keeps-then (Steps-change_data {R = IsNew} _ (λ s p. p)) (Keeps-pure false))))

  Keeps-init_conn :
      (w : World) (greeting : Bytes)
      → Keeps IsNew (init_conn fl mech write_ehlo q x k dc tls w greeting)
  unfolding init_conn eval_session_params
  Keeps-init_conn w greeting = Keeps-then (Steps-change {R = IsNew} _ (λ s p. p)) (
      Keeps-bind (Keeps-verify_ip_dnsbl w) (λ allowed. Steps-ask _ _ (λ s p. at p (
        Steps-option _ (λ e. Keeps-write _)
          (λ script e.
            Steps-option _ (λ e. Keeps-write _)
              (λ message e. Keeps-then (Keeps-write _) Keeps-disconnect))))))

  Keeps-allows : (w : World) → Keeps IsNew (throttle_allows w k)
  unfolding throttle_allows session_is_allowed
  Keeps-allows w = steps λ c p. p

  New-into_tls : (succeeds : Bool) → Keeps IsNew (into_tls fl mech write_ehlo q x k dc tls succeeds)
  unfolding into_tls
  New-into_tls succeeds =
      Steps-if succeeds (λ e. Steps-change {R = IsNew} _ (λ s p. p)) (λ e. Keeps-disconnect)

  -- What holds of a new session and lasts holds of the session that a connection leaves.
  Steps-serve :
      {P : Session → Type 0}
      → Lasting P
      → ((s : Session) → IsNew s → P s)
      → (w : World) (greeting : Bytes) (events : List Event)
      → Steps IsNew (serve fl mech write_ehlo q x k dc tls w greeting events) P
  unfolding serve
  Steps-serve lasting new w greeting events = Steps-bind (Keeps-allows w) new (λ allowed.
      Steps-if allowed
        (λ e.
          Steps-then
            (Steps-if tls.tls_implicit
              (λ e. Steps-option _ (λ e. Keeps-panic) (λ succeeds e. New-into_tls succeeds))
              (λ e. Keeps-pure tt))
            new
            (Steps-then (Keeps-init_conn w greeting) new
              (Steps-weaken new (Keeps-handle_conn lasting in_request events))))
        (λ e. Steps-weaken new Keeps-disconnect))

Lasting-SenderIsAdmitted : Lasting SenderIsAdmitted
Lasting-SenderIsAdmitted = record {
  reached = Reach-SenderIsAdmitted;
  spent = λ n s h. h;
  shielded = λ s h. h;
}

Lasting-HasDistinct : Lasting HasDistinct
Lasting-HasDistinct = record {
  reached = Reach-HasDistinct;
  spent = λ n s h. h;
  shielded = λ s h. h;
}

Lasting-NameIsKnown : Lasting NameIsKnown
Lasting-NameIsKnown = record {
  reached = Reach-NameIsKnown;
  spent = λ n s h. h;
  shielded = λ s h. h;
}

module _ (fl : Flags) (mech : Mechanisms) (write_ehlo : EhloResponse → Bytes) (q : QueueTimes)
    (x : Authority) (k : SessionConfig) (dc : DataConfig) (tls : Tls) (w : World) (greeting : Bytes)
    (events : List Event) (c : Conn) where
  -- Whatever the events of a connection that starts with a new session are, at their end the session
  -- of a client that has to authenticate has a sender only if a name is authenticated.
  pub serve-SenderIsAdmitted :
      IsNew c.session
      → SenderIsAdmitted (serve fl mech write_ehlo q x k dc tls w greeting events c).1.session
  serve-SenderIsAdmitted n =
      stepped
        (Steps-serve fl mech write_ehlo q x k dc tls Lasting-SenderIsAdmitted (λ s n m. cc) w
          greeting events)
        c n

  -- Whatever the events of a connection that starts with a new session are, at their end no address
  -- stands among the recipients twice, in lower case.
  pub serve-HasDistinct :
      IsNew c.session
      → HasDistinct (serve fl mech write_ehlo q x k dc tls w greeting events c).1.session
  serve-HasDistinct n =
      stepped
        (Steps-serve fl mech write_ehlo q x k dc tls Lasting-HasDistinct
          (λ s n. subst AreDistinct (sym n.1) tt) w greeting events)
        c n

  -- Whatever the events of a connection that starts with a new session are, at their end the name
  -- that is authenticated is empty or that of credentials which the lookup of the session accepts.
  pub serve-NameIsKnown :
      IsNew c.session
      → NameIsKnown (serve fl mech write_ehlo q x k dc tls w greeting events c).1.session
  serve-NameIsKnown n =
      stepped
        (Steps-serve fl mech write_ehlo q x k dc tls Lasting-NameIsKnown (λ s n. inl n.2) w greeting
          events)
        c n
