-- ===== src/Core/Conditions/Layout.antt =====
-- The loop's simulation by the recursion over the rule.
use smtp_server.Base.{
  ℕ, suc, ◌+◌, ◌-◌, ◌≡◌, refl, sym, ◌∙◌, ap, Bool, true, false, List, [], ◌∷◌, ◌++◌, append_assoc,
  append-nil, length, length-append, if◌then◌else◌, arith,
}
use smtp_server.Core.Conditions.Eval.{Condition}
use smtp_server.Core.Conditions.Compile.{
  Leaf, Rules, end, leaf, group, Rule, single, grouped, siblings, Frame, group_flags, jump, unaimed,
  has_next, leaf_condition, patch, condition_loop, size, parse_condition,
}
use smtp_server.Core.Conditions.Emit.{emit, Below, Below-more, Below-snoc, patch-jump}

-- The loop once the rules of a group are laid out behind the conditions, and the group is closed.
abbrev closed : ℕ → List ℕ → List Condition → Frame → List Frame → List Condition
closed fuel js ds f stack =
    condition_loop fuel (patch (length ds - 1) js ds) f.iter f.jmp_pos f.is_all f.is_not stack

fuel_is :
    (cs : List Condition) (rs : Rules) (js : List ℕ) (is_all is_not : Bool) (st : List Frame)
    {a b : ℕ}
    → a ≡ b
    → condition_loop a cs rs js is_all is_not st ≡ condition_loop b cs rs js is_all is_not st
fuel_is cs rs js is_all is_not st e = ap (λ k. condition_loop k cs rs js is_all is_not st) e

-- A leaf's condition alone, and one with its jump.
aimed :
    (fuel : ℕ) (is_all : Bool) (js : List ℕ) (cs ds : List Condition) (f : Frame) (st : List Frame)
    → Below (length cs) js
    → closed fuel (js ++ length cs ∷ []) ((cs ++ jump is_all unaimed ∷ []) ++ ds) f st
      ≡ closed fuel js (cs ++ jump is_all (length ds) ∷ ds) f st
aimed fuel is_all js cs ds f st b =
    let k = length cs + length ds in
    let go = λ (t : List Condition). condition_loop fuel t f.iter f.jmp_pos f.is_all f.is_not st in
    let len : (c : Condition) → length (cs ++ c ∷ ds) - 1 ≡ k =
      λ c. omega (arith, length-append cs (c ∷ ds)) in
    ap (λ t. closed fuel (js ++ length cs ∷ []) t f st)
      (append_assoc cs (jump is_all unaimed ∷ []) ds)
    ∙ ap (λ c. go (patch c (js ++ length cs ∷ []) (cs ++ jump is_all unaimed ∷ ds)))
        (len (jump is_all unaimed))
    ∙ ap go (patch-jump is_all k unaimed js cs ds b)
    ∙ ap (λ n. go (patch k js (cs ++ jump is_all n ∷ ds))) (omega arith)
    ∙ ap (λ c. go (patch c js (cs ++ jump is_all (length ds) ∷ ds)))
        (sym (len (jump is_all (length ds))))

-- A leaf with a rule behind it, once that rule and the others are laid out.
loop-leaf :
    (l : Leaf) (rest : Rules) (fuel : ℕ) (cs : List Condition) (js : List ℕ) (is_all is_not : Bool)
    (f : Frame) (st : List Frame)
    → has_next rest ≡ true
    → Below (length cs) js
    → (let cs' = cs ++ (leaf_condition is_not l ∷ []) in
        condition_loop
          (size rest + suc fuel)
          (cs' ++ (jump is_all unaimed ∷ []))
          rest
          (js ++ (length cs' ∷ []))
          is_all
          is_not
          (f ∷ st)
        ≡ closed fuel
            (js ++ (length cs' ∷ []))
            ((cs' ++ (jump is_all unaimed ∷ [])) ++ emit is_all is_not rest)
            f
            st)
    → condition_loop (size (leaf l rest) + suc fuel) cs (leaf l rest) js is_all is_not (f ∷ st)
      ≡ closed fuel js (cs ++ emit is_all is_not (leaf l rest)) f st
unfolding condition_loop
loop-leaf l rest fuel cs js a n f st p b ih =
    let m = leaf_condition n l in
    let ds = emit a n rest in
    let cs' = cs ++ m ∷ [] in
    fuel_is cs (leaf l rest) js a n (f ∷ st) {b = suc (size rest + suc fuel)} (omega arith)
    ∙ ap
        (λ t.
          condition_loop (size rest + suc fuel) (if t then cs' ++ (jump a unaimed ∷ []) else cs')
            rest (if t then js ++ (length cs' ∷ []) else js) a n (f ∷ st))
        p
    ∙ ih
    ∙ aimed fuel a js cs' ds f st
        (Below-more (length cs) (length cs') js (omega (arith, length-append cs (m ∷ []))) b)
    ∙ ap (λ t. closed fuel js t f st) (append_assoc cs (m ∷ []) (jump a (length ds) ∷ ds))
    ∙ ap (λ t. closed fuel js (cs ++ m ∷ (if t then jump a (length ds) ∷ ds else ds)) f st) (sym p)

-- The positions behind which the jumps of a leaf stand.
Below-leaf :
    (m : Condition) (j : Condition) (cs : List Condition) (js : List ℕ)
    → Below (length cs) js
    → Below (length ((cs ++ m ∷ []) ++ j ∷ [])) (js ++ length (cs ++ m ∷ []) ∷ [])
Below-leaf m j cs js b =
    let e = length-append cs (m ∷ []) in
    let e' = length-append (cs ++ m ∷ []) (j ∷ []) in
    Below-snoc (length ((cs ++ m ∷ []) ++ j ∷ [])) (length (cs ++ m ∷ [])) js
      (Below-more (length cs) (length ((cs ++ m ∷ []) ++ j ∷ [])) js (omega (arith, e, e')) b)
      (omega (arith, e'))

loop-emit :
    (rs : Rules) (fuel : ℕ) (cs : List Condition) (js : List ℕ) (is_all is_not : Bool) (f : Frame)
    (st : List Frame)
    → Below (length cs) js
    → condition_loop (size rs + suc fuel) cs rs js is_all is_not (f ∷ st)
      ≡ closed fuel js (cs ++ emit is_all is_not rs) f st
unfolding condition_loop
loop-emit end fuel cs js a n f st b =
    fuel_is cs end js a n (f ∷ st) {b = suc fuel} (omega arith)
    ∙ ap (λ t. closed fuel js t f st) (sym (append-nil cs))
loop-emit (leaf l end) fuel cs js a n f st b =
    fuel_is cs (leaf l end) js a n (f ∷ st) {b = suc (suc fuel)} (omega arith)
loop-emit (leaf l (leaf l' rest)) fuel cs js a n f st b =
    let m = leaf_condition n l in
    loop-leaf l (leaf l' rest) fuel cs js a n f st refl b (
      loop-emit (leaf l' rest) fuel ((cs ++ m ∷ []) ++ jump a unaimed ∷ [])
        (js ++ length (cs ++ m ∷ []) ∷ []) a n f st (Below-leaf m (jump a unaimed) cs js b))
loop-emit (leaf l (group op rules rest)) fuel cs js a n f st b =
    let m = leaf_condition n l in
    loop-leaf l (group op rules rest) fuel cs js a n f st refl b (
      loop-emit (group op rules rest) fuel ((cs ++ m ∷ []) ++ jump a unaimed ∷ [])
        (js ++ length (cs ++ m ∷ []) ∷ []) a n f st (Below-leaf m (jump a unaimed) cs js b))
loop-emit (group op rules rest) fuel cs js a n f st b =
    let flags = group_flags op n in
    let inner = emit flags.0 flags.1 rules in
    let frame : Frame = record { iter = rest; jmp_pos = js; is_all = a; is_not = n } in
    fuel_is cs (group op rules rest) js a n (f ∷ st)
      {b = suc (size rules + suc (size rest + suc fuel))} (omega arith)
    ∙ loop-emit rules (size rest + suc fuel) cs [] flags.0 flags.1 frame (f ∷ st) tt
    ∙ loop-emit rest fuel (cs ++ inner) js a n f st
        (Below-more (length cs) (length (cs ++ inner)) js (omega (arith, length-append cs inner)) b)
    ∙ ap (λ t. closed fuel js t f st) (append_assoc cs inner (emit a n rest))

-- The loop with its stack of open groups and its jumps aimed afterwards gives the conditions of
-- the plain recursion over the rule.
pub parse_condition-emit : (r : Rule) → parse_condition r ≡ emit false false (siblings r)
unfolding parse_condition condition_loop
parse_condition-emit (single l) = refl
parse_condition-emit (grouped op rules) =
    let flags = group_flags op false in
    let frame : Frame = record { iter = end; jmp_pos = []; is_all = false; is_not = false } in
    fuel_is [] (group op rules end) [] false false [] {b = suc (size rules + suc 0)} (omega arith)
    ∙ loop-emit rules 0 [] [] flags.0 flags.1 frame [] tt
    ∙ sym (append-nil (emit flags.0 flags.1 rules))
