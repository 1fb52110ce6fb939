-- ===== src/Queue/Manager/Files.antt =====
-- src/queue/spool.rs: what `save_changes` and `remove` do to the queue file. A file operation that
-- fails is logged by the source and changes nothing in memory, so the operations are a list.
use smtp_server.Base.{List, [], ◌∷◌, Bytes}
use smtp_server.Queue.Message.{Message, Clock}
use smtp_server.Queue.Serialize.Writer.{serialize_changes}

pub data FileOp : Type 0 where
  append : Bytes → Bytes → FileOp
  delete : Bytes → FileOp

abbrev append_all : Bytes → Bytes → List FileOp
append_all path [] = []
append_all path (b ∷ buf) = append path (b ∷ buf) ∷ []

unfoldable pub save_changes : Clock → Message → Message × List FileOp
save_changes clock m = let (buf, m') = serialize_changes clock m in (m', append_all m.path buf)

unfoldable pub remove : Message → List FileOp
remove m = delete m.path ∷ []
