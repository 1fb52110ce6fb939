-- ===== src/Queue/Serialize/Text.antt =====
-- `String`: its length in bytes, a space, its bytes. Reading refuses more than 4096 bytes.
use smtp_server.Base.{
  ℕ, ◌≤◌, ◌≡◌, refl, true, ◌&&◌, [], ◌∷◌, ◌++◌, append_assoc, none, some, arith, Bytes, length,
  take, drop, take-append, drop-append, Parser, ◌>>=◌, pure, fail, bind_ok, ◌∙◌, le→leb, leb, ◌==◌,
  if◌then◌else◌,
}
use smtp_server.Base.Utf8.{is_utf8, from_utf8, from_utf8-text}
use smtp_server.Queue.Serialize.Class.{QueueSerializer}
use smtp_server.Queue.Serialize.Numbers.{usize_serialize, usize_deserialize, usize-reads_back}

-- `bytes.take(len)`: where fewer are left, all of them.
take_text : ℕ → Parser Bytes
take_text len bytes = elim (from_utf8 (take len bytes)) [
  | none ↦ none
  | some text ↦ some (text, drop len bytes)
]

string_body : ℕ → Parser Bytes
string_body len =
    if leb 1 len && leb len 4096 then take_text len else if len == 0 then pure [] else fail

abbrev pub string_serialize : Bytes → Bytes
string_serialize [] = usize_serialize 0
string_serialize s = usize_serialize (length s) ++ s

unfoldable pub string_deserialize : Parser Bytes
unfolding string_body take_text
string_deserialize = do len ← usize_deserialize; string_body len

instance abbrev pub string_serializer : QueueSerializer Bytes
string_serializer = record { serialize = string_serialize; deserialize = string_deserialize }

-- A `String` that the reader accepts.
pub record IsText (s : Bytes) : Type 0 where
  pub utf8 : is_utf8 s ≡ true
  pub short : length s ≤ 4096

take_text-append :
    (s rest : Bytes) → is_utf8 s ≡ true → take_text (length s) (s ++ rest) ≡ some (s, rest)
unfolding take_text
take_text-append s rest h =
    rw (take-append s rest, take_text, from_utf8-text s h, drop-append s rest)

string_body_in_range :
    (n : ℕ) (bytes : Bytes) → 1 ≤ n → n ≤ 4096 → string_body n bytes ≡ take_text n bytes
unfolding string_body
string_body_in_range n bytes lo hi = rw (le→leb 1 n lo, le→leb n 4096 hi)

string_body-append :
    (s rest : Bytes) → IsText s → string_body (length s) (s ++ rest) ≡ some (s, rest)
string_body-append [] rest h = unfold string_body in refl
string_body-append (c ∷ s) rest h =
    string_body_in_range (length (c ∷ s)) ((c ∷ s) ++ rest) (omega arith) h.short
    ∙ take_text-append (c ∷ s) rest h.utf8

pub string-reads_back :
    (s : Bytes)
    → IsText s
    → (rest : Bytes) → string_deserialize (string_serialize s ++ rest) ≡ some (s, rest)
unfolding string_deserialize
string-reads_back [] h rest =
    bind_ok usize_deserialize string_body (usize-reads_back 0 (omega arith) rest)
      (string_body-append [] rest h)
string-reads_back (c ∷ s) h rest =
    rw (append_assoc (usize_serialize (length (c ∷ s))) (c ∷ s) rest) (
      bind_ok usize_deserialize string_body
        (usize-reads_back (length (c ∷ s)) (omega (arith, h.short)) ((c ∷ s) ++ rest))
        (string_body-append (c ∷ s) rest h))
