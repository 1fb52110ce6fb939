-- ===== src/Queue/Serialize/Values.antt =====
-- The encodings of replies, errors and delivery status.
pub mod ReadBack
use smtp_server.Base.{
  ℕ, ◌+◌, ◌%◌, ◌^◌, ◌<◌, [], ◌∷◌, ◌++◌, Option, none, some, Bytes, length, Parser, ◌>>=◌, pure,
  fail, next, ◌==◌, if◌then◌else◌,
}
use smtp_server.Queue.Message.{
  Status, scheduled, completed, temporary_failure, permanent_failure, Response, HostResponse,
  ErrorDetails, Error, dns_error, unexpected_response, connection_error, tls_error, dane_error,
  mta_sts_error, rate_limited, concurrency_limited, io,
}
use smtp_server.Queue.Serialize.Class.{QueueSerializer, serialize, deserialize}
use smtp_server.Queue.Serialize.Numbers.{usize_serializer, usize_serialize, usize_deserialize}
use smtp_server.Queue.Serialize.Text.{string_serializer, string_serialize, string_deserialize}

-- `"{} {} {} {} {} {}"` of the four numbers, the message's length and the message
pub response_serialize : Response → Bytes
response_serialize r =
    usize_serialize r.code
    ++ (usize_serialize r.esc0
        ++ (usize_serialize r.esc1
            ++ (usize_serialize r.esc2 ++ (usize_serialize (length r.message) ++ r.message))))

-- `as u16` and `as u8` cut the numbers.
pub response_deserialize : Parser Response
response_deserialize = do
  code ← usize_deserialize
  esc0 ← usize_deserialize
  esc1 ← usize_deserialize
  esc2 ← usize_deserialize
  message ← string_deserialize
  pure (record {
    code = code % 2 ^ 16;
    esc0 = esc0 % 2 ^ 8;
    esc1 = esc1 % 2 ^ 8;
    esc2 = esc2 % 2 ^ 8;
    message = message;
  })

instance abbrev pub response_serializer : QueueSerializer Response
response_serializer = record { serialize = response_serialize; deserialize = response_deserialize }

pub details_serialize : ErrorDetails → Bytes
details_serialize e = string_serialize e.entity ++ string_serialize e.details

pub details_deserialize : Parser ErrorDetails
details_deserialize = do
  entity ← string_deserialize
  details ← string_deserialize
  pure (record { entity = entity; details = details })

instance abbrev pub details_serializer : QueueSerializer ErrorDetails
details_serializer = record { serialize = details_serialize; deserialize = details_deserialize }

module _ {T : Type 0} ⦃q : QueueSerializer T⦄ where
  pub host_serialize : HostResponse T → Bytes
  host_serialize h = q.serialize h.hostname ++ response_serialize h.response

  pub host_deserialize : Parser (HostResponse T)
  host_deserialize = do
    hostname ← q.deserialize
    response ← response_deserialize
    pure (record { hostname = hostname; response = response })

  instance abbrev pub host_serializer : QueueSerializer (HostResponse T)
  host_serializer = record { serialize = host_serialize; deserialize = host_deserialize }

-- `()` has no bytes.
instance abbrev pub unit_serializer : QueueSerializer (Unit {0})
unit_serializer = record { serialize = λ _. []; deserialize = pure tt }

pub error_serialize : Error → Bytes
error_serialize (dns_error e) = b'0' ∷ string_serialize e
error_serialize (unexpected_response e) = b'1' ∷ host_serialize e
error_serialize (connection_error e) = b'2' ∷ details_serialize e
error_serialize (tls_error e) = b'3' ∷ details_serialize e
error_serialize (dane_error e) = b'4' ∷ details_serialize e
error_serialize (mta_sts_error e) = b'5' ∷ string_serialize e
error_serialize rate_limited = b'6' ∷ []
error_serialize concurrency_limited = b'7' ∷ []
error_serialize (io e) = b'8' ∷ string_serialize e

pub error_body : ℕ → Parser Error
error_body tag =
    if tag == b'0'
    then (do e ← string_deserialize; pure (dns_error e))
    else if tag == b'1'
    then (do e ← host_deserialize; pure (unexpected_response e))
    else if tag == b'2'
    then (do e ← details_deserialize; pure (connection_error e))
    else if tag == b'3'
    then (do e ← details_deserialize; pure (tls_error e))
    else if tag == b'4'
    then (do e ← details_deserialize; pure (dane_error e))
    else if tag == b'5'
    then (do e ← string_deserialize; pure (mta_sts_error e))
    else if tag == b'6'
    then pure rate_limited
    else if tag == b'7'
    then pure concurrency_limited
    else if tag == b'8'
    then (do e ← string_deserialize; pure (io e))
    else fail

pub error_deserialize : Parser Error
unfolding error_body
error_deserialize = do tag ← next; error_body tag

instance abbrev pub error_serializer : QueueSerializer Error
error_serializer = record { serialize = error_serialize; deserialize = error_deserialize }

module _ {T E : Type 0} ⦃t : QueueSerializer T⦄ ⦃e : QueueSerializer E⦄ where
  pub status_serialize : Status T E → Bytes
  status_serialize scheduled = b'S' ∷ []
  status_serialize (completed s) = b'C' ∷ t.serialize s
  status_serialize (temporary_failure s) = b'T' ∷ e.serialize s
  status_serialize (permanent_failure s) = b'F' ∷ e.serialize s

  pub status_body : ℕ → Parser (Status T E)
  status_body tag =
      if tag == b'S'
      then pure scheduled
      else if tag == b'C'
      then (do s ← t.deserialize; pure (completed s))
      else if tag == b'T'
      then (do s ← e.deserialize; pure (temporary_failure s))
      else if tag == b'F'
      then (do s ← e.deserialize; pure (permanent_failure s))
      else fail

  pub status_deserialize : Parser (Status T E)
  unfolding status_body
  status_deserialize = do tag ← next; status_body tag

  instance abbrev pub status_serializer : QueueSerializer (Status T E)
  status_serializer = record { serialize = status_serialize; deserialize = status_deserialize }
