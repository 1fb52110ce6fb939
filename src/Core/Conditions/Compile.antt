-- ===== src/Core/Conditions/Compile.antt =====
-- src/config/condition.rs: the loop of `Config::parse_condition` that lays a rule out as a list of
-- conditions, with the stack of the groups that are open and the jumps that are still to be aimed.
--
-- A rule of the file is a tree: the keys that the loop reads (`any-of`, `all-of`, `none-of`, or an
-- operation with its value) are its constructors. The siblings of a rule are what the loop's
-- iterator goes over. The errors on malformed keys are found before this tree exists.
use smtp_server.Base.{
  ℕ, zero, suc, ◌+◌, ◌-◌, ◌^◌, Bool, true, false, List, [], ◌∷◌, ◌++◌, Option, some, length,
  get_elem?, set, if◌then◌else◌,
}
use smtp_server.Core.Envelope.{EnvelopeKey}
use smtp_server.Core.Conditions.Eval.{
  Condition, match, jump_if_true, jump_if_false, ConditionMatch, ◌^^◌,
}

pub data GroupOp : Type 0 where
  any_of all_of none_of : GroupOp

pub record Leaf : Type 0 where
  pub key : EnvelopeKey
  pub value : ConditionMatch
  pub op_is_not : Bool

-- Rules in a row, each a leaf or a group of rules.
pub data Rules : Type 0 where
  end : Rules
  leaf : Leaf → Rules → Rules
  group : GroupOp → Rules → Rules → Rules

pub data Rule : Type 0 where
  single : Leaf → Rule
  grouped : GroupOp → Rules → Rule

-- An entry of the stack; `None` for the iterator, outside every group, is the empty one.
pub record Frame : Type 0 where
  pub iter : Rules
  pub jmp_pos : List ℕ
  pub is_all : Bool
  pub is_not : Bool

-- `(is_all, is_not)` inside a group, from `is_not` outside.
abbrev pub group_flags : GroupOp → Bool → Bool × Bool
group_flags any_of false = (false, false)
group_flags any_of true = (true, true)
group_flags all_of false = (true, false)
group_flags all_of true = (false, true)
group_flags none_of true = (true, false)
group_flags none_of false = (false, true)

abbrev pub jump : Bool → ℕ → Condition
jump is_all positions = if is_all then jump_if_false positions else jump_if_true positions

-- `usize::MAX`, until the group is closed
abbrev pub unaimed : ℕ
unaimed = 2 ^ 64 - 1

abbrev pub has_next : Rules → Bool
has_next end = false
has_next (leaf _ _) = true
has_next (group _ _ _) = true

abbrev pub leaf_condition : Bool → Leaf → Condition
leaf_condition is_not l = match l.key l.value (is_not ^^ l.op_is_not)

-- `*positions = ..` where the condition is a jump
abbrev pub aim : ℕ → Option Condition → ℕ → List Condition → List Condition
aim positions (some (jump_if_true _)) pos cs = set cs pos (jump_if_true positions)
aim positions (some (jump_if_false _)) pos cs = set cs pos (jump_if_false positions)
aim positions _ pos cs = cs

-- `let cur_pos = conditions.len() - 1; for pos in jmp_pos { .. }`
unfoldable pub patch : ℕ → List ℕ → List Condition → List Condition
patch cur_pos [] cs = cs
patch cur_pos (pos ∷ jmp_pos) cs =
    patch cur_pos jmp_pos (aim (cur_pos - pos) (get_elem? cs pos) pos cs)

-- The loop: it visits the next rule of the group that is open, a leaf or a group, and where the
-- group has no more it closes it. The fuel is one for each visit and one for each closing.
unfoldable pub condition_loop :
    ℕ → List Condition → Rules → List ℕ → Bool → Bool → List Frame → List Condition
unfolding patch
condition_loop zero cs iter jmp_pos is_all is_not stack = cs
condition_loop (suc fuel) cs end jmp_pos is_all is_not [] = cs
condition_loop (suc fuel) cs end jmp_pos is_all is_not (f ∷ stack) =
    condition_loop fuel (patch (length cs - 1) jmp_pos cs) f.iter f.jmp_pos f.is_all f.is_not stack
condition_loop (suc fuel) cs (leaf l rest) jmp_pos is_all is_not stack =
    let cs' = cs ++ (leaf_condition is_not l ∷ []) in
    condition_loop fuel (if has_next rest then cs' ++ (jump is_all unaimed ∷ []) else cs') rest
      (if has_next rest then jmp_pos ++ (length cs' ∷ []) else jmp_pos) is_all is_not stack
condition_loop (suc fuel) cs (group op rules rest) jmp_pos is_all is_not stack =
    condition_loop fuel cs rules [] (group_flags op is_not).0 (group_flags op is_not).1
      (record { iter = rest; jmp_pos = jmp_pos; is_all = is_all; is_not = is_not } ∷ stack)

abbrev pub size : Rules → ℕ
size end = 0
size (leaf l rest) = suc (size rest)
size (group op rules rest) = 2 + size rules + size rest

-- The first rule has no siblings, and stands in no group.
abbrev pub siblings : Rule → Rules
siblings (single l) = leaf l end
siblings (grouped op rules) = group op rules end

unfoldable pub parse_condition : Rule → List Condition
unfolding condition_loop
parse_condition r = condition_loop (size (siblings r)) [] (siblings r) [] false false []
