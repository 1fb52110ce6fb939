-- ===== src/Core/Conditions/Emit.antt =====
-- The loop with its stack lays a rule out as the plain recursion over the rule does.
use smtp_server.Base.{
  ℕ, zero, suc, ◌-◌, ◌<◌, ◌≡◌, refl, sym, ◌∙◌, ap, Bool, true, false, List, [], ◌∷◌, ◌++◌, Option,
  none, some, length, get_elem?, set, All, if◌then◌else◌, arith,
}
use smtp_server.Core.Conditions.Eval.{Condition, match, jump_if_true, jump_if_false}
use smtp_server.Core.Conditions.Compile.{
  Rules, end, leaf, group, group_flags, jump, has_next, leaf_condition, aim, patch,
}

-- Each leaf but the last of its group is followed by a jump to the end of the group.
abbrev pub emit : Bool → Bool → Rules → List Condition
emit is_all is_not end = []
emit is_all is_not (leaf l rest) =
    let tail = emit is_all is_not rest in
    leaf_condition is_not l ∷ (if has_next rest then jump is_all (length tail) ∷ tail else tail)
emit is_all is_not (group op rules rest) =
    emit (group_flags op is_not).0 (group_flags op is_not).1 rules ++ emit is_all is_not rest

length-set : {A : Type 0} (xs : List A) (i : ℕ) (v : A) → length (set xs i v) ≡ length xs
length-set [] i v = refl
length-set (x ∷ xs) zero v = refl
length-set (x ∷ xs) (suc i) v = ap suc (length-set xs i v)

get-below :
    {A : Type 0} (xs ys : List A) (i : ℕ) → i < length xs → get_elem? (xs ++ ys) i ≡ get_elem? xs i
get-below [] ys i h = absurd (omega (arith, h))
get-below (x ∷ xs) ys zero h = refl
get-below (x ∷ xs) ys (suc i) h = get-below xs ys i (omega (arith, h))

set-below :
    {A : Type 0} (xs ys : List A) (i : ℕ) (v : A)
    → i < length xs
    → set (xs ++ ys) i v ≡ set xs i v ++ ys
set-below [] ys i v h = absurd (omega (arith, h))
set-below (x ∷ xs) ys zero v h = refl
set-below (x ∷ xs) ys (suc i) v h = ap (◌∷◌ x) (set-below xs ys i v (omega (arith, h)))

get-at : {A : Type 0} (xs ys : List A) (x : A) → get_elem? (xs ++ x ∷ ys) (length xs) ≡ some x
get-at [] ys x = refl
get-at (y ∷ xs) ys x = get-at xs ys x

set-at : {A : Type 0} (xs ys : List A) (x v : A) → set (xs ++ x ∷ ys) (length xs) v ≡ xs ++ v ∷ ys
set-at [] ys x v = refl
set-at (y ∷ xs) ys x v = ap (◌∷◌ y) (set-at xs ys x v)

length-aim :
    (n pos : ℕ) (o : Option Condition) (cs : List Condition) → length (aim n o pos cs) ≡ length cs
length-aim n pos none cs = refl
length-aim n pos (some (match _ _ _)) cs = refl
length-aim n pos (some (jump_if_true k)) cs = length-set cs pos (jump_if_true n)
length-aim n pos (some (jump_if_false k)) cs = length-set cs pos (jump_if_false n)

aim-below :
    (n pos : ℕ) (o : Option Condition) (cs ds : List Condition)
    → pos < length cs
    → aim n o pos (cs ++ ds) ≡ aim n o pos cs ++ ds
aim-below n pos none cs ds h = refl
aim-below n pos (some (match _ _ _)) cs ds h = refl
aim-below n pos (some (jump_if_true k)) cs ds h = set-below cs ds pos (jump_if_true n) h
aim-below n pos (some (jump_if_false k)) cs ds h = set-below cs ds pos (jump_if_false n) h

aim-jump :
    (is_all : Bool) (n k : ℕ) (cs ds : List Condition)
    → aim n (some (jump is_all k)) (length cs) (cs ++ jump is_all k ∷ ds) ≡ cs ++ jump is_all n ∷ ds
aim-jump true n k cs ds = set-at cs ds (jump_if_false k) (jump_if_false n)
aim-jump false n k cs ds = set-at cs ds (jump_if_true k) (jump_if_true n)

abbrev pub Below : ℕ → List ℕ → Type 0
Below n positions = All (λ pos. pos < n) positions

pub Below-more : (n m : ℕ) (ps : List ℕ) → n < suc m → Below n ps → Below m ps
Below-more n m [] h b = tt
Below-more n m (p ∷ ps) h b = (omega (arith, h, b.0), Below-more n m ps h b.1)

pub Below-snoc : (n p : ℕ) (ps : List ℕ) → Below n ps → p < n → Below n (ps ++ p ∷ [])
Below-snoc n p [] b h = (h, tt)
Below-snoc n p (q ∷ ps) b h = (b.0, Below-snoc n p ps b.1 h)

patch-snoc :
    (cur p : ℕ) (ps : List ℕ) (cs : List Condition)
    → patch cur (ps ++ p ∷ []) cs
      ≡ (let done = patch cur ps cs in aim (cur - p) (get_elem? done p) p done)
unfolding patch
patch-snoc cur p [] cs = refl
patch-snoc cur p (q ∷ ps) cs = patch-snoc cur p ps (aim (cur - q) (get_elem? cs q) q cs)

length-patch : (cur : ℕ) (ps : List ℕ) (cs : List Condition) → length (patch cur ps cs) ≡ length cs
unfolding patch
length-patch cur [] cs = refl
length-patch cur (p ∷ ps) cs =
    length-patch cur ps (aim (cur - p) (get_elem? cs p) p cs)
    ∙ length-aim (cur - p) p (get_elem? cs p) cs

patch-Below :
    (cur : ℕ) (ps : List ℕ) (cs ds : List Condition)
    → Below (length cs) ps
    → patch cur ps (cs ++ ds) ≡ patch cur ps cs ++ ds
unfolding patch
patch-Below cur [] cs ds b = refl
patch-Below cur (p ∷ ps) cs ds b =
    let o = get_elem? cs p in
    ap (λ o'. patch cur ps (aim (cur - p) o' p (cs ++ ds))) (get-below cs ds p b.0)
    ∙ ap (patch cur ps) (aim-below (cur - p) p o cs ds b.0)
    ∙ patch-Below cur ps (aim (cur - p) o p cs) ds (rw (length-aim (cur - p) p o cs) b.1)

-- Closing a group aims the jump behind the conditions `cs` at the last of the conditions `ds`.
pub patch-jump :
    (is_all : Bool) (cur k : ℕ) (ps : List ℕ) (cs ds : List Condition)
    → Below (length cs) ps
    → patch cur (ps ++ length cs ∷ []) (cs ++ jump is_all k ∷ ds)
      ≡ patch cur ps (cs ++ jump is_all (cur - length cs) ∷ ds)
patch-jump is_all cur k ps cs ds b =
    let cs' = patch cur ps cs in
    let n = cur - length cs in
    patch-snoc cur (length cs) ps (cs ++ jump is_all k ∷ ds)
    ∙ ap (λ done. aim n (get_elem? done (length cs)) (length cs) done)
        (patch-Below cur ps cs (jump is_all k ∷ ds) b)
    ∙ ap (λ l. aim n (get_elem? (cs' ++ jump is_all k ∷ ds) l) l (cs' ++ jump is_all k ∷ ds))
        (sym (length-patch cur ps cs))
    ∙ ap (λ o. aim n o (length cs') (cs' ++ jump is_all k ∷ ds)) (get-at cs' ds (jump is_all k))
    ∙ aim-jump is_all n k cs' ds
    ∙ sym (patch-Below cur ps cs (jump is_all n ∷ ds) b)
