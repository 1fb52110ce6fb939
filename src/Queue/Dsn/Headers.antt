-- ===== src/Queue/Dsn/Headers.antt =====
-- src/queue/dsn.rs: the beginning of the message that a notification holds.
use smtp_server.Base.{ℕ, ◌+◌, Bool, [], ◌∷◌, Bytes, take, ltb, ◌==◌, if◌then◌else◌}

-- The end of the headers of a message, in the buffer that was read: past the last line feed before
-- an empty line, a zero or the end.
unfoldable pub header_end : ℕ → ℕ → ℕ → Bytes → ℕ
header_end pos prev_ch last_lf [] = last_lf
header_end pos prev_ch last_lf (ch ∷ rest) =
    if ch == 10
    then (if prev_ch == 10 then pos + 1 else header_end (pos + 1) ch (pos + 1) rest)
    else if ch == 13
    then header_end (pos + 1) prev_ch last_lf rest
    else if ch == 0
    then last_lf
    else header_end (pos + 1) ch last_lf rest

-- The beginning of the message that a notification holds.
unfoldable pub headers_of : (Bytes → Bool) → ℕ → Bytes → Bytes
unfolding header_end
headers_of is_utf8 bytes_read buffer =
    let last_lf = header_end 0 0 bytes_read buffer in
    let cut = if ltb last_lf 1_024 then take last_lf buffer else buffer in
    if is_utf8 cut then cut else []
