-- ===== src/Queue/Dsn.antt =====
-- src/queue/dsn.rs: which recipients a status notification reports, and what it says of them.
--
-- The writer of dates and that of mails are packages': the first is an argument, and the second is
-- given what a `Report` holds. A text is what the source appends to one.
pub mod Notices
pub mod Build
pub mod Headers
pub mod Once
pub mod Delays
pub mod Settled
pub mod Marks
use Prim.Native.String.{String}
use smtp_server.Base.{
  ℕ, ◌+◌, ◌/◌, ◌%◌, ◌&&◌, not, List, [], ◌∷◌, ◌++◌, Option, none, some, Bytes, keep, ltb, ◌==◌,
  if◌then◌else◌, is_empty,
}
use smtp_server.Base.Decimal.{decimal}
use smtp_server.Base.Texts.{codes, line}
use smtp_server.Queue.Message.{
  Status, scheduled, completed, temporary_failure, permanent_failure, Response, HostResponse,
  ErrorDetails, Error, dns_error, unexpected_response, connection_error, tls_error, dane_error,
  mta_sts_error, rate_limited, concurrency_limited, io, Domain, Recipient, Message, Clock,
  instant_to_timestamp,
}

abbrev crlf : Bytes
crlf = 13 ∷ 10 ∷ []

-- Three numbers with dots between them.
abbrev dotted : ℕ → ℕ → ℕ → Bytes
dotted a b c = decimal a ++ (codes "." ++ (decimal b ++ (codes "." ++ decimal c)))

-- `write_response`
unfoldable pub write_response : Response → Bytes
write_response r = keep (λ ch. not (ch == 10) && not (ch == 13)) r.message

abbrev code_and_text : Response → Bytes
unfolding write_response
code_and_text r =
    codes " with code "
    ++ (decimal r.code
        ++ (codes " ("
            ++ (dotted r.esc0 r.esc1 r.esc2
                ++ (codes ") '" ++ (write_response r ++ (codes "')" ++ crlf))))))

-- `Response::write_dsn_status`
unfoldable pub response_status : Response → Bytes
response_status r =
    if ltb 0 r.esc0
    then dotted r.esc0 r.esc1 r.esc2
    else dotted (r.code / 100) (r.code / 10 % 10) (r.code % 10)

-- `Response::write_dsn_diagnostic`
unfoldable pub response_diagnostic : Response → Bytes
unfolding write_response
response_diagnostic r =
    codes "Diagnostic-Code: smtp;" ++ (decimal r.code ++ (codes " " ++ (write_response r ++ crlf)))

-- `write_dsn_text` of a host's answer that took the recipient
unfoldable pub delivered_text : HostResponse Bytes → Bytes → Bytes
unfolding write_response
delivered_text h address =
    codes "<"
    ++ (address
        ++ (codes "> (delivered to '" ++ (h.hostname ++ (codes "'" ++ code_and_text h.response))))

-- `write_dsn_text` of a host's answer that refused it
unfoldable pub rejected_text : HostResponse ErrorDetails → Bytes → Bytes
unfolding write_response
rejected_text h address =
    codes "<"
    ++ (address
        ++ (codes "> (host '"
            ++ (h.hostname.entity
                ++ (codes "' rejected "
                    ++ ((if is_empty h.hostname.details
                          then codes "transaction"
                          else codes "command '" ++ (h.hostname.details ++ codes "'"))
                        ++ code_and_text h.response)))))

abbrev in_angles : Bytes → Bytes → Bytes
in_angles address text = codes "<" ++ (address ++ (codes "> (" ++ (text ++ (codes ")" ++ crlf))))

-- `Error::write_dsn_text`
unfoldable pub error_text : Error → Bytes → Bytes → Bytes
unfolding rejected_text
error_text (unexpected_response h) address domain = rejected_text h address
error_text (dns_error err) address domain =
    in_angles address (codes "failed to lookup '" ++ (domain ++ (codes "': " ++ err)))
error_text (connection_error d) address domain =
    in_angles address (codes "connection to '" ++ (d.entity ++ (codes "' failed: " ++ d.details)))
error_text (tls_error d) address domain =
    in_angles address (codes "TLS error from '" ++ (d.entity ++ (codes "': " ++ d.details)))
error_text (dane_error d) address domain =
    in_angles address
      (codes "DANE failed to authenticate '" ++ (d.entity ++ (codes "': " ++ d.details)))
error_text (mta_sts_error details) address domain =
    in_angles address
      (codes "MTA-STS failed to authenticate '" ++ (domain ++ (codes "': " ++ details)))
error_text rate_limited address domain = in_angles address (codes "rate limited")
error_text concurrency_limited address domain =
    in_angles address (codes "too many concurrent connections to remote server")
error_text (io err) address domain = in_angles address (codes "queue error: " ++ err)

-- `write_dsn_action`
unfoldable pub action : {T E : Type 0} → Status T E → Bytes
action (completed v) = codes "Action: delivered" ++ crlf
action (permanent_failure e) = codes "Action: failed" ++ crlf
action (temporary_failure e) = codes "Action: delayed" ++ crlf
action scheduled = codes "Action: delayed" ++ crlf

abbrev pub of_rejection : HostResponse ErrorDetails → Bytes
unfolding response_status response_diagnostic
of_rejection h =
    codes "Status: "
    ++ (response_status h.response
        ++ (crlf
            ++ (response_diagnostic h.response
                ++ (codes "Remote-MTA: dns;" ++ (h.hostname.entity ++ crlf)))))

abbrev rcpt_lines : Status (HostResponse Bytes) (HostResponse ErrorDetails) → Bytes
unfolding response_status response_diagnostic
rcpt_lines (completed h) =
    codes "Status: "
    ++ (response_status h.response ++ (crlf ++ (codes "Remote-MTA: dns;" ++ (h.hostname ++ crlf))))
rcpt_lines (permanent_failure h) = of_rejection h
rcpt_lines (temporary_failure h) = of_rejection h
rcpt_lines scheduled = codes "Status: " ++ (crlf ++ (codes "Remote-MTA: dns;" ++ crlf))

-- `write_dsn` of the status of a recipient
unfoldable pub rcpt_status : Status (HostResponse Bytes) (HostResponse ErrorDetails) → Bytes
unfolding action rcpt_lines
rcpt_status status = action status ++ rcpt_lines status

-- What the status of a domain says of its error, the code being that without a host's answer.
abbrev pub of_error : Bytes → Error → Bytes
unfolding response_status response_diagnostic
of_error code (unexpected_response h) = of_rejection h
of_error code (connection_error d) =
    codes "Status: " ++ (code ++ (crlf ++ (codes "Remote-MTA: dns;" ++ (d.entity ++ crlf))))
of_error code (tls_error d) =
    codes "Status: " ++ (code ++ (crlf ++ (codes "Remote-MTA: dns;" ++ (d.entity ++ crlf))))
of_error code (dane_error d) =
    codes "Status: " ++ (code ++ (crlf ++ (codes "Remote-MTA: dns;" ++ (d.entity ++ crlf))))
of_error code (dns_error err) = codes "Status: " ++ (code ++ crlf)
of_error code (mta_sts_error details) = codes "Status: " ++ (code ++ crlf)
of_error code rate_limited = codes "Status: " ++ (code ++ crlf)
of_error code concurrency_limited = codes "Status: " ++ (code ++ crlf)
of_error code (io err) = codes "Status: " ++ (code ++ crlf)

abbrev domain_lines : Status (Unit {0}) Error → Bytes
domain_lines (permanent_failure e) = of_error (codes "5.0.0") e
domain_lines (temporary_failure e) = of_error (codes "4.0.0") e
domain_lines (completed u) = []
domain_lines scheduled = []

-- `write_dsn` of the status of a domain
unfoldable pub domain_status : Status (Unit {0}) Error → Bytes
unfolding action
domain_status status = action status ++ domain_lines status

-- `Recipient::write_dsn`
unfoldable pub final_recipient : Recipient → Bytes
final_recipient r =
    (elim r.orcpt [
      | none ↦ []
      | some orcpt ↦ codes "Original-Recipient: rfc822;" ++ (orcpt ++ crlf)
    ])
    ++ (codes "Final-Recipient: rfc822;" ++ (r.address ++ crlf))

-- `write_dsn_will_retry_until`
unfoldable pub will_retry_until : (ℕ → Bytes) → Clock → Domain → Bytes
unfolding instant_to_timestamp
will_retry_until to_rfc822 clock d =
    if ltb clock.instant d.expires
    then codes "Will-Retry-Until: " ++ (to_rfc822 (instant_to_timestamp clock d.expires) ++ crlf)
    else []

-- `write_dsn_headers`
unfoldable pub dsn_headers : (ℕ → Bytes) → Bytes → Message → Bytes
dsn_headers to_rfc822 reporting_mta m =
    codes "Reporting-MTA: dns;"
    ++ (reporting_mta
        ++ (crlf
            ++ (codes "Arrival-Date: "
                ++ (to_rfc822 m.created
                    ++ (crlf
                        ++ ((elim m.env_id [
                          | none ↦ []
                          | some env_id ↦ codes "Original-Envelope-Id: " ++ (env_id ++ crlf)
                        ])
                            ++ crlf))))))
