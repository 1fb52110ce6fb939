-- ===== src/Core/Conditions/Meaning.antt =====
-- What a rule of the file means, and that its conditions evaluate to it.
use smtp_server.Base.{
  ◌≡◌, ◌≢◌, refl, sym, ◌∙◌, ap, Bool, true, false, not, ◌&&◌, ◌||◌, List, [], ◌∷◌, ◌++◌,
  append_assoc, append-nil, Option, none, some, length, Option-cases, inl, inr,
}
use smtp_server.Core.Envelope.{Envelope}
use smtp_server.Core.Conditions.Eval.{
  Condition, match, jump_if_true, jump_if_false, test, run, eval, ◌^^◌,
}
use smtp_server.Core.Conditions.Compile.{
  GroupOp, any_of, all_of, none_of, Leaf, Rules, end, leaf, group, Rule, single, grouped, siblings,
  group_flags, jump, has_next, leaf_condition, parse_condition,
}
use smtp_server.Core.Conditions.Emit.{emit}
use smtp_server.Core.Conditions.Layout.{parse_condition-emit}

abbrev held : Leaf → Option Bool → Bool
held l none = false
held l (some result) = result ^^ l.op_is_not

-- A leaf that holds of an envelope; a lookup that gives no answer holds of none.
abbrev pub holds : Envelope → Leaf → Bool
holds e l = held l (test e l.key l.value)

-- A group from whether all of its rules hold and whether any does. The code reads `none-of` as
-- "not all of".
abbrev pub combined : GroupOp → Bool × Bool → Bool
combined any_of r = r.1
combined all_of r = r.0
combined none_of r = not r.0

-- Whether all rules of a row hold, and whether any does.
abbrev pub all_and_any : Envelope → Rules → Bool × Bool
all_and_any e end = (true, false)
all_and_any e (leaf l rest) = let r = all_and_any e rest in (holds e l && r.0, holds e l || r.1)
all_and_any e (group op rules rest) =
    let r = all_and_any e rest in let h = combined op (all_and_any e rules) in (h && r.0, h || r.1)

-- A rule holds: the row of one.
abbrev pub rule_holds : Envelope → Rule → Bool
rule_holds e (single l) = holds e l
rule_holds e (grouped op rules) = combined op (all_and_any e rules)

abbrev pub Answers : Envelope → Leaf → Type 0
Answers e l = test e l.key l.value ≢ none

-- Every lookup gives an answer, no group is empty, and a group stands last in its row.
abbrev pub IsOrderly : Envelope → Rules → Type 0
IsOrderly e end = Unit
IsOrderly e (leaf l rest) = Answers e l × IsOrderly e rest
IsOrderly e (group op rules rest) =
    (has_next rest ≡ false) × (has_next rules ≡ true) × IsOrderly e rules

-- The value of a row under the flags of its group.
abbrev flagged : Bool → Bool → Bool × Bool → Bool
flagged true true r = not r.1
flagged true false r = r.0
flagged false true r = not r.0
flagged false false r = r.1

run-skip :
    (e : Envelope) (m : Bool) (cs ds : List Condition)
    → run e (length cs) m (cs ++ ds) ≡ run e 0 m ds
unfolding run
run-skip e m [] ds = refl
run-skip e m (match _ _ _ ∷ cs) ds = run-skip e m cs ds
run-skip e m (jump_if_true _ ∷ cs) ds = run-skip e m cs ds
run-skip e m (jump_if_false _ ∷ cs) ds = run-skip e m cs ds

xor_assoc : (a b c : Bool) → (a ^^ (b ^^ c)) ≡ ((a ^^ c) ^^ b)
xor_assoc true true true = refl
xor_assoc true true false = refl
xor_assoc true false true = refl
xor_assoc true false false = refl
xor_assoc false true true = refl
xor_assoc false true false = refl
xor_assoc false false true = refl
xor_assoc false false false = refl

run-leaf :
    (e : Envelope) (m is_not : Bool) (l : Leaf) (cs : List Condition)
    → Answers e l
    → run e 0 m (leaf_condition is_not l ∷ cs) ≡ run e 0 (holds e l ^^ is_not) cs
unfolding run
run-leaf e m is_not l cs h = elim (Option-cases (test e l.key l.value)) [
  | inl p ↦ absurd (h p)
  | inr (result, p) ↦
      ap (λ o. elim o [ none ↦ false | some r ↦ run e 0 (r ^^ (is_not ^^ l.op_is_not)) cs ]) p
      ∙ ap (λ b. run e 0 b cs) (xor_assoc result is_not l.op_is_not)
      ∙ ap (λ o. run e 0 (held l o ^^ is_not) cs) (sym p)
]

run-jump :
    (e : Envelope) (m is_all is_not : Bool) (ds cs : List Condition) (r : Bool × Bool) (h : Bool)
    → ((m' : Bool) → run e 0 m' (ds ++ cs) ≡ run e 0 (flagged is_all is_not r) cs)
    → run e 0 (h ^^ is_not) (jump is_all (length ds) ∷ (ds ++ cs))
      ≡ run e 0 (flagged is_all is_not (h && r.0, h || r.1)) cs
unfolding run
run-jump e m true true ds cs r true k = run-skip e false ds cs
run-jump e m true true ds cs r false k = k true
run-jump e m true false ds cs r true k = k true
run-jump e m true false ds cs r false k = run-skip e false ds cs
run-jump e m false true ds cs r true k = k false
run-jump e m false true ds cs r false k = run-skip e true ds cs
run-jump e m false false ds cs r true k = run-skip e true ds cs
run-jump e m false false ds cs r false k = k false

flagged-single :
    (is_all is_not h : Bool) → (h ^^ is_not) ≡ flagged is_all is_not (h && true, h || false)
flagged-single true true true = refl
flagged-single true true false = refl
flagged-single true false true = refl
flagged-single true false false = refl
flagged-single false true true = refl
flagged-single false true false = refl
flagged-single false false true = refl
flagged-single false false false = refl

flagged-group :
    (op : GroupOp) (is_not : Bool) (r : Bool × Bool)
    → flagged (group_flags op is_not).0 (group_flags op is_not).1 r ≡ (combined op r ^^ is_not)
flagged-group any_of true (a, true) = refl
flagged-group any_of true (a, false) = refl
flagged-group any_of false (a, true) = refl
flagged-group any_of false (a, false) = refl
flagged-group all_of true (true, b) = refl
flagged-group all_of true (false, b) = refl
flagged-group all_of false (true, b) = refl
flagged-group all_of false (false, b) = refl
flagged-group none_of true (true, b) = refl
flagged-group none_of true (false, b) = refl
flagged-group none_of false (true, b) = refl
flagged-group none_of false (false, b) = refl

no_next : (rs : Rules) → has_next rs ≡ false → rs ≡ end
no_next end h = refl
no_next (leaf _ _) h = cc
no_next (group _ _ _) h = cc

-- The conditions of a row run to the row's value, wherever they stand.
run-emit :
    (e : Envelope) (rs : Rules) (m is_all is_not : Bool) (cs : List Condition)
    → has_next rs ≡ true
    → IsOrderly e rs
    → run e 0 m (emit is_all is_not rs ++ cs)
      ≡ run e 0 (flagged is_all is_not (all_and_any e rs)) cs
run-emit e end m a n cs p o = cc
run-emit e (leaf l end) m a n cs p o =
    run-leaf e m n l cs o.0 ∙ ap (λ b. run e 0 b cs) (flagged-single a n (holds e l))
run-emit e (leaf l (leaf l' rest)) m a n cs p o =
    let ds = emit a n (leaf l' rest) in
    run-leaf e m n l (jump a (length ds) ∷ (ds ++ cs)) o.0
    ∙ run-jump e m a n ds cs (all_and_any e (leaf l' rest)) (holds e l)
        (λ m'. run-emit e (leaf l' rest) m' a n cs refl o.1)
run-emit e (leaf l (group op rules rest)) m a n cs p o =
    let ds = emit a n (group op rules rest) in
    run-leaf e m n l (jump a (length ds) ∷ (ds ++ cs)) o.0
    ∙ run-jump e m a n ds cs (all_and_any e (group op rules rest)) (holds e l)
        (λ m'. run-emit e (group op rules rest) m' a n cs refl o.1)
run-emit e (group op rules rest) m a n cs p o =
    let flags = group_flags op n in
    let r = all_and_any e rules in
    let last : rest ≡ end = no_next rest o.0 in
    ap (λ t. run e 0 m ((emit flags.0 flags.1 rules ++ emit a n t) ++ cs)) last
    ∙ ap (λ t. run e 0 m (t ++ cs)) (append-nil (emit flags.0 flags.1 rules))
    ∙ run-emit e rules m flags.0 flags.1 cs o.1 o.2
    ∙ ap (λ b. run e 0 b cs) (flagged-group op n r ∙ flagged-single a n (combined op r))
    ∙ ap
        (λ t.
          let s = all_and_any e t in
          run e 0 (flagged a n (combined op r && s.0, combined op r || s.1)) cs)
        (sym last)

xor-false : (a : Bool) → (a ^^ false) ≡ a
xor-false true = refl
xor-false false = refl

-- What came before a leaf does not matter to it.
same_start :
    (e : Envelope) (m m' is_not : Bool) (l : Leaf) (cs : List Condition)
    → Answers e l
    → run e 0 m (leaf_condition is_not l ∷ cs) ≡ run e 0 m' (leaf_condition is_not l ∷ cs)
same_start e m m' is_not l cs h = run-leaf e m is_not l cs h ∙ sym (run-leaf e m' is_not l cs h)

-- A rule of the file, compiled to conditions with jumps and then evaluated, holds of an envelope as
-- the rule reads, where `none-of` reads "not all of": if each lookup in it gives an answer, none of
-- its groups is empty, and a group within a group stands last in it.
pub eval-parse_condition :
    (e : Envelope) (r : Rule)
    → IsOrderly e (siblings r)
    → eval (parse_condition r) e ≡ rule_holds e r
unfolding eval run
eval-parse_condition e (single l) o =
    ap (λ cs. run e 0 false cs) (parse_condition-emit (single l))
    ∙ run-leaf e false false l [] o.0
    ∙ xor-false (holds e l)
eval-parse_condition e (grouped op rules) o =
    let flags = group_flags op false in
    let r = all_and_any e rules in
    ap (λ cs. run e 0 false cs) (parse_condition-emit (grouped op rules))
    ∙ run-emit e rules false flags.0 flags.1 [] o.1 o.2
    ∙ flagged-group op false r
    ∙ xor-false (combined op r)

-- If the first part of a rule is a group that is not empty, and a leaf follows it, the rule evaluates
-- as if the group were not there: provided that within the group no group is empty and a nested group
-- stands last, and that each lookup in it and that of the leaf answers.
pub middle_group-ignored :
    (e : Envelope) (op op' : GroupOp) (rules : Rules) (l : Leaf) (rest : Rules)
    → has_next rules ≡ true
    → IsOrderly e rules
    → Answers e l
    → eval (parse_condition (grouped op (group op' rules (leaf l rest)))) e
      ≡ eval (parse_condition (grouped op (leaf l rest))) e
unfolding eval
middle_group-ignored e op op' rules l rest p o h =
    let flags = group_flags op false in
    let inner = group_flags op' flags.1 in
    let ds = emit flags.0 flags.1 (leaf l rest) in
    let value = flagged inner.0 inner.1 (all_and_any e rules) in
    ap (λ cs. run e 0 false cs) (parse_condition-emit (grouped op (group op' rules (leaf l rest))))
    ∙ ap (λ t. run e 0 false t) (append_assoc (emit inner.0 inner.1 rules) ds [])
    ∙ run-emit e rules false inner.0 inner.1 (ds ++ []) p o
    ∙ ap (λ t. run e 0 value t) (append-nil ds)
    ∙ same_start e value false flags.1 l _ h
    ∙ ap (λ t. run e 0 false t) (sym (append-nil ds))
    ∙ ap (λ cs. run e 0 false cs) (sym (parse_condition-emit (grouped op (leaf l rest))))
