-- ===== src/Queue/Serialize/Class.antt =====
-- The trait `QueueSerializer`: a value is appended to a buffer, and read off the front of a byte
-- iterator.
use smtp_server.Base.{◌≡◌, ◌++◌, some, Bytes, Parser}

pub record QueueSerializer (A : Type 0) : Type 0 where
  pub serialize : A → Bytes
  pub deserialize : Parser A

abbrev pub serialize : {A : Type 0} ⦃q : QueueSerializer A⦄ → A → Bytes
serialize ⦃q⦄ = q.serialize

abbrev pub deserialize : {A : Type 0} ⦃q : QueueSerializer A⦄ → Parser A
deserialize ⦃q⦄ = q.deserialize

-- The value is read back from its encoding, and what follows is left.
abbrev pub ReadsBack : {A : Type 0} ⦃q : QueueSerializer A⦄ → A → Type 0
ReadsBack ⦃q⦄ a = (rest : Bytes) → q.deserialize (q.serialize a ++ rest) ≡ some (a, rest)
