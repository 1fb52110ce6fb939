-- ===== src/Tests/Inbound.antt =====
-- Connections that clients make, from the greeting to a message.
use smtp_server.Base.{◌+◌, ◌≡◌, refl, true, List, [], ◌∷◌, ◌++◌, Option, none, some, Bytes, length}
use smtp_server.Base.Texts.{codes, line}
use smtp_server.Core.Conditions.Eval.{if_then_eval}
use smtp_server.Session.State.{SessionAddress}
use smtp_server.Session.Conn.{
  Conn, panic, ◌>>=◌, ◌>>◌, pure, change, change_data, ask, on_option, when◌then◌else◌,
}
use smtp_server.Session.Throttle.{session_is_allowed}
use smtp_server.Session.Rcpt.{handle_rcpt_to, new_rcpt}
use smtp_server.Session.Rcpt.Relay.{IsRelayedRight, handle_rcpt_to-IsRelayedRight}
use smtp_server.Session.Build.Order.{IsSorted}
use smtp_server.Session.Build.Domains.{Agrees, build_message-Agrees}
use smtp_server.Session.Build.{sort_addresses, build_message}
use mathlib.Core.List.{Perm}
use smtp_server.Session.Ingest.{
  State, in_request, rcpt, mail, ehlo, send_data, start_tls, requested, received,
}
use smtp_server.Session.Connection.{Event, arrived, handle_conn, serve}
use smtp_server.Session.Connection.Runs.{
  serve-SenderIsAdmitted, serve-HasDistinct, serve-NameIsKnown,
}
use smtp_server.Session.Connection.Budget.{total, handle_conn-total}
use smtp_server.Session.Changes.{SenderIsAdmitted, HasDistinct, NameIsKnown}
use smtp_server.Tests.Server.{
  config, home, protocol, mechanisms, greeting_text, times, mail_authority, data_config, tls,
  accepted, mail_of, rcpt_of,
}

abbrev transaction : List Event
transaction =
    arrived home 40 (requested (ehlo (codes "there.org")) ∷ requested start_tls ∷ [])
    ∷ arrived home 60 (
        requested (mail (mail_of 60))
        ∷ requested (rcpt (rcpt_of (codes "jo@here.org")))
        ∷ requested (rcpt (rcpt_of (codes "jo@here.org")))
        ∷ requested (rcpt (rcpt_of (codes "al@far.org")))
        ∷ [])
    ∷ []

abbrev serve_events : List Event → Option State × Conn
serve_events events =
    serve protocol mechanisms greeting_text times mail_authority config data_config tls home
      (line "220 hi") events accepted

open_after : (serve_events transaction).0 ≡ some in_request
unfolding serve ◌>>=◌ ◌>>◌ when◌then◌else◌ session_is_allowed pure change ask on_option if_then_eval
    change_data home
open_after = refl

-- The second RCPT is of the same address, and the third of an address elsewhere.
one_recipient : length (serve_events transaction).1.session.session_data.rcpt_to ≡ 1
unfolding serve ◌>>=◌ ◌>>◌ when◌then◌else◌ session_is_allowed pure change ask on_option if_then_eval
    change_data home
one_recipient = refl

-- A second greeting that fails takes the sender back and leaves the recipients, so that a message is
-- let in for which there is no sender.
abbrev second_greeting : List Event
second_greeting =
    transaction
    ++ arrived home 30 (requested (ehlo (codes "bad.org")) ∷ requested send_data ∷ [])
      ∷ arrived home 20 (received 20 (codes "hello") true ∷ [])
      ∷ []

second_greeting_panics : (serve_events second_greeting).1.panicked ≡ true
unfolding serve ◌>>=◌ ◌>>◌ when◌then◌else◌ session_is_allowed pure change ask on_option if_then_eval
    change_data home panic
second_greeting_panics = refl

-- A MAIL command that is refused leaves its time of delivery for the next one.
abbrev refused_mail : List Event
refused_mail =
    arrived home 30 (requested (ehlo (codes "there.org")) ∷ [])
    ∷ arrived home 30 (
        requested (mail (record (mail_of 60) { size = 1_000 }))
        ∷ requested (mail (record (mail_of 0) { flags = 0 }))
        ∷ [])
    ∷ []

refused_mail_leaves_time : (serve_events refused_mail).1.session.session_data.delivery_by ≡ 60
unfolding serve ◌>>=◌ ◌>>◌ when◌then◌else◌ session_is_allowed pure change ask on_option if_then_eval
    change_data home
refused_mail_leaves_time = refl

serve-SenderIsAdmitted_example : SenderIsAdmitted (serve_events transaction).1.session
serve-SenderIsAdmitted_example =
    serve-SenderIsAdmitted protocol mechanisms greeting_text times mail_authority config data_config
      tls home (line "220 hi") transaction accepted (refl, refl, refl)

serve-HasDistinct_example : HasDistinct (serve_events transaction).1.session
serve-HasDistinct_example =
    serve-HasDistinct protocol mechanisms greeting_text times mail_authority config data_config tls
      home (line "220 hi") transaction accepted (refl, refl, refl)

serve-NameIsKnown_example : NameIsKnown (serve_events transaction).1.session
serve-NameIsKnown_example =
    serve-NameIsKnown protocol mechanisms greeting_text times mail_authority config data_config tls
      home (line "220 hi") transaction accepted (refl, refl, refl)

abbrev limited : Conn
limited = record accepted {
  session = record accepted.session {
    session_data = record accepted.session.session_data { bytes_left = 500; valid_until = 1_000 };
  };
}

handle_conn-total_example :
    total transaction
      + (handle_conn protocol mechanisms greeting_text times mail_authority config data_config tls
          in_request transaction limited).1.session.session_data.bytes_left
    ≡ 500
unfolding handle_conn ◌>>=◌ ◌>>◌ when◌then◌else◌ session_is_allowed pure change ask on_option
    if_then_eval change_data home
handle_conn-total_example =
    handle_conn-total protocol mechanisms greeting_text times mail_authority config data_config tls
      in_request transaction limited in_request refl

abbrev asked : Conn
asked =
    (serve_events (
      arrived home 40 (requested (ehlo (codes "there.org")) ∷ requested (mail (mail_of 60)) ∷ [])
      ∷ [])).1

handle_rcpt_to-IsRelayedRight_example :
    IsRelayedRight asked.session
      (new_rcpt protocol home config (rcpt_of (codes "jo@here.org")))
      (handle_rcpt_to protocol home config (rcpt_of (codes "jo@here.org")) asked).1.session
handle_rcpt_to-IsRelayedRight_example =
    handle_rcpt_to-IsRelayedRight protocol home config (rcpt_of (codes "jo@here.org")) asked

abbrev address_of : Bytes → Bytes → SessionAddress
address_of address domain = record {
  address = address;
  address_lcase = address;
  domain = domain;
  flags = 0;
  dsn_info = none;
}

abbrev addressees : List SessionAddress
addressees =
    address_of (codes "jo@here.org") (codes "here.org")
    ∷ address_of (codes "al@far.org") (codes "far.org")
    ∷ address_of (codes "bo@here.org") (codes "here.org")
    ∷ []

build_message-Agrees_example :
    (let m =
        build_message protocol times 10 asked.session.session_data 7 1_700_000_000
          (address_of (codes "ann@there.org") (codes "there.org"))
          addressees in
      Agrees m.domains (sort_addresses addressees) m.recipients
      × Perm (sort_addresses addressees) addressees
      × IsSorted (sort_addresses addressees))
build_message-Agrees_example =
    build_message-Agrees protocol times 10 asked.session.session_data 7 1_700_000_000
      (address_of (codes "ann@there.org") (codes "there.org")) addressees
