-- ===== src/Session/Connection.antt =====
-- src/inbound/spawn.rs: a connection, from the time it is accepted, and the loop of
-- src/inbound/session.rs over what a read brings.
--
-- What a connection meets is a list of events. With a read come the answers of packages and of the
-- network, the number of its bytes and the inputs that the receivers make of them. The limit of
-- concurrent connections, which the listener asks before, is that of `Queue.Throttle`.
pub mod Runs
pub mod Budget
use Prim.Native.String.{String}
use smtp_server.Base.{
  ℕ, ◌-◌, Bool, true, false, ◌&&◌, List, [], ◌∷◌, ◌++◌, Option, none, some, Bytes, ltb, leb, ◌==◌,
}
use smtp_server.Base.Texts.{codes, line}
use smtp_server.Session.State.{Session, SessionData}
use smtp_server.Session.Config.{SessionConfig, eval, eval_session_params}
use smtp_server.Session.Conn.{
  World, Conn, M, when◌then◌else◌, on_option, ◌>>=◌, ◌>>◌, pure, disconnect, panic, ask, change,
  change_data, write, throttle_allows,
}
use smtp_server.Session.Dnsbl.{verify_ip_dnsbl}
use smtp_server.Base.Flags.{Flags}
use smtp_server.Session.Ehlo.{Mechanisms, EhloResponse}
use smtp_server.Session.Build.{QueueTimes}
use smtp_server.Session.Received.{Authority, DataConfig}
use smtp_server.Session.Ingest.{State, in_request, Next, go, handshake, Input, ingest}

pub data Event : Type 0 where
  arrived : World → ℕ → List Input → Event
  failed idle shutdown : Event

unfoldable pub on_next : {A : Type 0} → Next → (State → M A) → M A → M A
on_next (go state) f m = f state
on_next handshake f m = m

-- How a listener does TLS: whether from the start, and, if it has an acceptor, whether its handshake
-- succeeds.
pub record Tls : Type 0 where
  pub tls_implicit : Bool
  pub acceptor : Option Bool

module _ (fl : Flags) (mech : Mechanisms) (write_ehlo : EhloResponse → Bytes) (q : QueueTimes)
    (x : Authority) (k : SessionConfig) (dc : DataConfig) (tls : Tls) where
  -- `ingest` of what one read brings. After a request for a handshake the rest is dropped.
  unfoldable pub ingest_all : World → State → List Input → M Next
  unfolding ingest on_next
  ingest_all w state [] = pure (go state)
  ingest_all w state (i ∷ rest) = do
    r ← ingest fl mech write_ehlo q x k dc w state i
    on_next r (λ state'. ingest_all w state' rest) (pure handshake)

  unfoldable pub farewell : String → String → M Next
  unfolding write
  farewell code text = do
    s ← ask (λ s. s)
    write (codes code ++ (s.instance_data.hostname ++ line text))
    disconnect

  -- One turn of `handle_conn_`.
  unfoldable pub handle_event : State → Event → M Next
  unfolding ingest_all farewell write
  handle_event state (arrived w bytes_read inputs) = do
    s ← ask (λ s. s)
    when bytes_read == 0
        then disconnect
        else when ltb w.instant_now s.session_data.valid_until
            && leb bytes_read s.session_data.bytes_left
        then (do
          change_data (λ d. record d { bytes_left = d.bytes_left - bytes_read })
          ingest_all w state inputs)
        else when ltb s.session_data.bytes_left bytes_read
        then farewell "451 4.7.28 " " Session exceeded transfer quota."
        else farewell "453 4.3.2 " " Session open for too long."
  handle_event state failed = disconnect
  handle_event state idle = farewell "221 2.0.0 " " Disconnecting inactive client."
  handle_event state shutdown = do write (line "421 4.3.0 Server shutting down."); disconnect

  -- `into_tls`
  unfoldable pub into_tls : Bool → M (Unit {0})
  into_tls succeeds = when succeeds then change (λ s. record s { is_tls = true }) else disconnect

  -- What `handle_conn` does after a request for a handshake: over TLS it ends.
  unfoldable pub secure : M (Unit {0})
  unfolding into_tls
  secure = do
    s ← ask (λ s. s)
    when s.is_tls
        then disconnect
        else on_option tls.acceptor disconnect (λ succeeds. into_tls succeeds)

  -- `handle_conn`, before and after the handshake. It answers the state if the events leave the
  -- connection open.
  unfoldable pub handle_conn : State → List Event → M State
  unfolding handle_event on_next secure
  handle_conn state [] = pure state
  handle_conn state (e ∷ events) = do
    r ← handle_event state e
    on_next r (λ state'. handle_conn state' events) (do secure; handle_conn in_request events)

  -- `init_conn`
  unfoldable pub init_conn : World → Bytes → M (Unit {0})
  unfolding eval_session_params verify_ip_dnsbl write
  init_conn w greeting = do
    change (eval_session_params k)
    _ ← verify_ip_dnsbl w
    s ← ask (λ s. s)
    on_option (eval k.connect_script s) (write greeting) (λ script.
        on_option (w.run_script script s) (write greeting)
          (λ message. do write message; disconnect))

  -- What the listener spawns for a session. With TLS from the start there is an acceptor
  -- (`unwrap`).
  unfoldable pub serve : World → Bytes → List Event → M State
  unfolding throttle_allows into_tls init_conn handle_conn
  serve w greeting events = do
    allowed ← throttle_allows w k
    when allowed
        then (do
          (when tls.tls_implicit
              then on_option tls.acceptor panic (λ succeeds. into_tls succeeds)
              else pure tt)
          init_conn w greeting
          handle_conn in_request events)
        else disconnect
