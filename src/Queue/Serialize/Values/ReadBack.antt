-- ===== src/Queue/Serialize/Values/ReadBack.antt =====
-- Which values the reader gives back: texts of at most 4096 bytes and numbers of their width.
use native.Mathlib.Nat.{mod-eq_of_lt}
use smtp_server.Base.{
  ℕ, ◌%◌, ◌^◌, ◌<◌, ◌≡◌, refl, ap, [], ◌∷◌, ◌++◌, append_assoc, some, Bytes, length, arith, bind_ok,
  append-nil,
}
use smtp_server.Queue.Message.{
  Status, scheduled, completed, temporary_failure, permanent_failure, Response, HostResponse,
  ErrorDetails, Error, dns_error, unexpected_response, connection_error, tls_error, dane_error,
  mta_sts_error, rate_limited, concurrency_limited, io,
}
use smtp_server.Queue.Serialize.Class.{QueueSerializer, ReadsBack}
use smtp_server.Queue.Serialize.Numbers.{usize_serialize, usize_deserialize, usize-reads_back}
use smtp_server.Queue.Serialize.Text.{
  IsText, string_serialize, string_deserialize, string_serializer, string-reads_back,
}
use smtp_server.Queue.Serialize.Values.{
  response_serialize, response_deserialize, response_serializer, details_serialize,
  details_deserialize, details_serializer, host_serialize, host_deserialize, host_serializer,
  unit_serializer, error_serialize, error_body, error_deserialize, error_serializer,
  status_serialize, status_body, status_deserialize, status_serializer,
}

pub record ResponseFits (r : Response) : Type 0 where
  pub code : r.code < 2 ^ 16
  pub esc0 : r.esc0 < 2 ^ 8
  pub esc1 : r.esc1 < 2 ^ 8
  pub esc2 : r.esc2 < 2 ^ 8
  pub message : IsText r.message

pub record DetailsFits (e : ErrorDetails) : Type 0 where
  pub entity : IsText e.entity
  pub details : IsText e.details

pub record HostFits {T : Type 0} (P : T → Type 0) (h : HostResponse T) : Type 0 where
  pub hostname : P h.hostname
  pub response : ResponseFits h.response

abbrev pub ErrorFits : Error → Type 0
ErrorFits (dns_error e) = IsText e
ErrorFits (unexpected_response e) = HostFits DetailsFits e
ErrorFits (connection_error e) = DetailsFits e
ErrorFits (tls_error e) = DetailsFits e
ErrorFits (dane_error e) = DetailsFits e
ErrorFits (mta_sts_error e) = IsText e
ErrorFits rate_limited = Unit
ErrorFits concurrency_limited = Unit
ErrorFits (io e) = IsText e

abbrev pub StatusFits : {T E : Type 0} → (T → Type 0) → (E → Type 0) → Status T E → Type 0
StatusFits P Q scheduled = Unit
StatusFits P Q (completed s) = P s
StatusFits P Q (temporary_failure s) = Q s
StatusFits P Q (permanent_failure s) = Q s

-- `write!` puts the length before the message whether or not it is empty.
length_then_text : (s : Bytes) → usize_serialize (length s) ++ s ≡ string_serialize s
length_then_text [] = append-nil (usize_serialize 0)
length_then_text (c ∷ s) = refl

-- The numbers are cut to their width, which changes nothing in range.
cut : (code esc0 esc1 esc2 : ℕ) → Bytes → Response
cut code esc0 esc1 esc2 message = record {
  code = code % 2 ^ 16;
  esc0 = esc0 % 2 ^ 8;
  esc1 = esc1 % 2 ^ 8;
  esc2 = esc2 % 2 ^ 8;
  message = message;
}

cut-fits : (r : Response) → ResponseFits r → cut r.code r.esc0 r.esc1 r.esc2 r.message ≡ r
unfolding cut
cut-fits r h =
    rw (mod-eq_of_lt h.code, mod-eq_of_lt h.esc0, mod-eq_of_lt h.esc1, mod-eq_of_lt h.esc2)

pub response-ReadsBack : (r : Response) → ResponseFits r → ReadsBack r
unfolding response_serialize response_deserialize cut
response-ReadsBack r h rest = rw (length_then_text r.message) (
    simp append_assoc (
      bind_ok usize_deserialize _ (usize-reads_back r.code (omega (arith, h.code)) _) (
        bind_ok usize_deserialize _ (usize-reads_back r.esc0 (omega (arith, h.esc0)) _) (
          bind_ok usize_deserialize _ (usize-reads_back r.esc1 (omega (arith, h.esc1)) _) (
            bind_ok usize_deserialize _ (usize-reads_back r.esc2 (omega (arith, h.esc2)) _) (
              bind_ok string_deserialize _ (string-reads_back r.message h.message rest)
                (ap (λ (x : Response). some (x, rest)) (cut-fits r h))))))))

pub details-ReadsBack : (e : ErrorDetails) → DetailsFits e → ReadsBack e
unfolding details_serialize details_deserialize
details-ReadsBack e h rest =
    rw (append_assoc (string_serialize e.entity) (string_serialize e.details) rest) (
      bind_ok string_deserialize _ (string-reads_back e.entity h.entity _)
        (bind_ok string_deserialize _ (string-reads_back e.details h.details rest) refl))

module _ {T : Type 0} ⦃q : QueueSerializer T⦄ {P : T → Type 0}
    (hostname : (t : T) → P t → ReadsBack t) where
  pub host-ReadsBack : (h : HostResponse T) → HostFits P h → ReadsBack h
  unfolding host_serialize host_deserialize
  host-ReadsBack h fits rest =
      rw (append_assoc (q.serialize h.hostname) (response_serialize h.response) rest) (
        bind_ok q.deserialize _ (hostname h.hostname fits.hostname _)
          (bind_ok response_deserialize _ (response-ReadsBack h.response fits.response rest) refl))

pub error-ReadsBack : (e : Error) → ErrorFits e → ReadsBack e
unfolding error_serialize error_deserialize error_body
error-ReadsBack (dns_error e) h rest =
    bind_ok string_deserialize _ (string-reads_back e h rest) refl
error-ReadsBack (unexpected_response e) h rest =
    bind_ok host_deserialize _ (host-ReadsBack details-ReadsBack e h rest) refl
error-ReadsBack (connection_error e) h rest =
    bind_ok details_deserialize _ (details-ReadsBack e h rest) refl
error-ReadsBack (tls_error e) h rest =
    bind_ok details_deserialize _ (details-ReadsBack e h rest) refl
error-ReadsBack (dane_error e) h rest =
    bind_ok details_deserialize _ (details-ReadsBack e h rest) refl
error-ReadsBack (mta_sts_error e) h rest =
    bind_ok string_deserialize _ (string-reads_back e h rest) refl
error-ReadsBack rate_limited h rest = refl
error-ReadsBack concurrency_limited h rest = refl
error-ReadsBack (io e) h rest = bind_ok string_deserialize _ (string-reads_back e h rest) refl

module _ {T E : Type 0} ⦃t : QueueSerializer T⦄ ⦃e : QueueSerializer E⦄ {P : T → Type 0}
    {Q : E → Type 0} (done : (x : T) → P x → ReadsBack x)
    (failed : (x : E) → Q x → ReadsBack x) where
  pub status-ReadsBack : (s : Status T E) → StatusFits P Q s → ReadsBack s
  unfolding status_serialize status_deserialize status_body
  status-ReadsBack scheduled h rest = refl
  status-ReadsBack (completed s) h rest = bind_ok t.deserialize _ (done s h rest) refl
  status-ReadsBack (temporary_failure s) h rest = bind_ok e.deserialize _ (failed s h rest) refl
  status-ReadsBack (permanent_failure s) h rest = bind_ok e.deserialize _ (failed s h rest) refl
