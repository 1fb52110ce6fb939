-- ===== src/Base/Texts.antt =====
-- The texts of the source, which are ASCII, as bytes.
use Prim.Native.Char.{code}
use Prim.Native.String.{String}
use mathlib.Core.List.{[], ◌∷◌, ◌++◌}
use smtp_server.Base.Lists.{Bytes}

abbrev pub codes : String → Bytes
codes String.[] = []
codes (String.◌∷◌ c s) = code c ∷ codes s

-- A line of a reply.
abbrev pub line : String → Bytes
line s = codes s ++ (13 ∷ 10 ∷ [])
