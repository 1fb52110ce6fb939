-- ===== src/Outbound/Errors.antt =====
-- src/outbound/mod.rs: the status that an error of the client leaves a domain with.
--
-- The errors are a package's, and so are their texts and the severity of a reply.
use smtp_server.Base.{Bool, true, false, ◌++◌, Option, none, some, Bytes, if◌then◌else◌}
use smtp_server.Base.Texts.{codes}
use smtp_server.Queue.Message.{
  Status, temporary_failure, permanent_failure, Response, Error, unexpected_response,
  connection_error, tls_error,
}

-- `mail_send::Error`
pub data ClientError : Type 0 where
  io tls base64 auth : Bytes → ClientError
  authentication_failed unexpected_reply : Response → ClientError
  unparseable_reply missing_credentials missing_mail_from missing_rcpt_to timeout : ClientError
  unsupported_auth_mechanism invalid_tls_name missing_start_tls : ClientError

-- `smtp_proto::Severity`
pub data Severity : Type 0 where
  positive_completion positive_intermediate : Severity
  transient_negative_completion permanent_negative_completion invalid : Severity

abbrev pub is_permanent_negative : Severity → Bool
is_permanent_negative permanent_negative_completion = true
is_permanent_negative positive_completion = false
is_permanent_negative positive_intermediate = false
is_permanent_negative transient_negative_completion = false
is_permanent_negative invalid = false

abbrev pub DomainStatus : Type 0
DomainStatus = Status (Unit {0}) Error

module _ (severity : Response → Severity) (display : ClientError → Bytes)
    (trim : Bytes → Bytes) where
  abbrev pub by_severity : Bytes → Bytes → Response → DomainStatus
  by_severity hostname details reply =
      let e =
        unexpected_response (record {
          hostname = record { entity = hostname; details = details };
          response = reply;
        }) in
      if is_permanent_negative (severity reply) then permanent_failure e else temporary_failure e

  abbrev pub for_now : Bytes → ClientError → DomainStatus
  for_now hostname err =
      temporary_failure (connection_error (record { entity = hostname; details = display err }))

  abbrev pub for_good : Bytes → ClientError → DomainStatus
  for_good hostname err =
      permanent_failure (connection_error (record { entity = hostname; details = display err }))

  -- `from_smtp_error`
  unfoldable pub from_smtp_error : Bytes → Bytes → ClientError → DomainStatus
  from_smtp_error hostname command (io e) = for_now hostname (io e)
  from_smtp_error hostname command (tls e) = for_now hostname (tls e)
  from_smtp_error hostname command (base64 e) = for_now hostname (base64 e)
  from_smtp_error hostname command unparseable_reply = for_now hostname unparseable_reply
  from_smtp_error hostname command (authentication_failed r) =
      for_now hostname (authentication_failed r)
  from_smtp_error hostname command missing_credentials = for_now hostname missing_credentials
  from_smtp_error hostname command missing_mail_from = for_now hostname missing_mail_from
  from_smtp_error hostname command missing_rcpt_to = for_now hostname missing_rcpt_to
  from_smtp_error hostname command timeout = for_now hostname timeout
  from_smtp_error hostname command (unexpected_reply reply) =
      by_severity hostname (trim command) reply
  from_smtp_error hostname command (auth e) = for_good hostname (auth e)
  from_smtp_error hostname command unsupported_auth_mechanism =
      for_good hostname unsupported_auth_mechanism
  from_smtp_error hostname command invalid_tls_name = for_good hostname invalid_tls_name
  from_smtp_error hostname command missing_start_tls = for_good hostname missing_start_tls

  -- `from_starttls_error`
  unfoldable pub from_starttls_error : Bytes → Option Response → DomainStatus
  from_starttls_error hostname (some response) = by_severity hostname (codes "STARTTLS") response
  from_starttls_error hostname none =
      permanent_failure (
        tls_error
          (record { entity = hostname; details = codes "STARTTLS not advertised by host." }))

  abbrev tls_details : Bytes → Bytes → Error
  tls_details hostname details = tls_error (record { entity = hostname; details = details })

  -- `from_tls_error`
  unfoldable pub from_tls_error : Bytes → ClientError → DomainStatus
  from_tls_error hostname invalid_tls_name =
      permanent_failure (tls_details hostname (codes "Invalid hostname"))
  from_tls_error hostname timeout =
      temporary_failure (tls_details hostname (codes "TLS handshake timed out"))
  from_tls_error hostname (tls err) =
      temporary_failure (tls_details hostname (codes "Handshake failed: " ++ err))
  from_tls_error hostname (io err) =
      temporary_failure (tls_details hostname (codes "I/O error: " ++ err))
  from_tls_error hostname err = permanent_failure (tls_details hostname (codes "Other TLS error"))

-- `timeout`
unfoldable pub timed_out_status : Bytes → Bytes → DomainStatus
timed_out_status hostname stage =
    temporary_failure
      (connection_error (record { entity = hostname; details = codes "Timeout while " ++ stage }))
