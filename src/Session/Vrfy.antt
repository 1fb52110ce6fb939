-- ===== src/Session/Vrfy.antt =====
-- src/inbound/vrfy.rs: the VRFY and EXPN commands.
use smtp_server.Base.{List, [], ◌∷◌, ◌++◌, Option, none, some, Bytes}
use smtp_server.Base.Texts.{codes, line}
use smtp_server.Session.Params.{Values}
use smtp_server.Session.Conn.{World, M, ◌>>=◌, ask, write}

-- The values, a line for each; the last has a space behind the code.
unfoldable pub value_lines : List Bytes → Bytes
value_lines [] = []
value_lines (v ∷ []) = codes "250 " ++ (v ++ (13 ∷ 10 ∷ []))
value_lines (v ∷ u ∷ values) = codes "250-" ++ (v ++ (13 ∷ 10 ∷ value_lines (u ∷ values)))

-- The replies when there is no list, no answer and no value.
unfoldable pub reply_values : World → Option Values → Bytes → Bytes → Bytes → Bytes → Bytes
unfolding value_lines
reply_values w lookup address disabled unable missing = elim lookup [
  | none ↦ disabled
  | some values_of ↦ elim (values_of (w.to_lowercase address)) [
    | none ↦ unable
    | some none ↦ missing
    | some (some values) ↦ value_lines values
  ]
]

-- `handle_vrfy`
unfoldable pub handle_vrfy : World → Bytes → M (Unit {0})
unfolding reply_values write
handle_vrfy w address = do
  s ← ask (λ s. s)
  write (
      reply_values w s.params.rcpt_lookup_vrfy address (line "252 2.5.1 VRFY is disabled.")
        (line "252 2.4.3 Unable to verify address at this time.")
        (line "550 5.1.2 Address not found."))

-- `handle_expn`
unfoldable pub handle_expn : World → Bytes → M (Unit {0})
unfolding reply_values write
handle_expn w address = do
  s ← ask (λ s. s)
  write (
      reply_values w s.params.rcpt_lookup_expn address (line "252 2.5.1 EXPN is disabled.")
        (line "252 2.4.3 Unable to expand mailing list at this time.")
        (line "550 5.1.2 Mailing list not found."))
