-- ===== src/Core/Conditions/Eval.antt =====
-- `Conditions::eval` and `IfBlock::eval`.
use smtp_server.Base.{
  ℕ, zero, suc, ◌-◌, ◌^◌, Bool, true, false, not, List, [], ◌∷◌, Option, none, some, Bytes,
  bytes_eq, starts_with, length, drop, leb, ◌==◌, if◌then◌else◌, ◌&&◌,
}
use smtp_server.Core.Envelope.{
  Envelope, EnvelopeKey, listener, remote_ip, local_ip, unspecified, IpAddr, key_to_string,
}
use smtp_server.Core.Conditions.Mask.{IpAddrMask, matches}

pub data StringMatch : Type 0 where
  equal : Bytes → StringMatch
  begins : Bytes → StringMatch
  ends : Bytes → StringMatch

pub data ConditionMatch : Type 0 where
  string : StringMatch → ConditionMatch
  uint : ℕ → ConditionMatch
  int : ℕ → ConditionMatch
  ip_addr_mask : IpAddrMask → ConditionMatch
  lookup : (Bytes → Option Bool) → ConditionMatch
  regex : (Bytes → Bool) → ConditionMatch

pub data Condition : Type 0 where
  match : EnvelopeKey → ConditionMatch → Bool → Condition
  jump_if_true : ℕ → Condition
  jump_if_false : ℕ → Condition

infix 40 ◌^^◌
abbrev pub ◌^^◌ : Bool → Bool → Bool
true ^^ b = not b
false ^^ b = b

-- `text.ends_with(suffix)`
ends_with : Bytes → Bytes → Bool
ends_with text suffix =
    leb (length suffix) (length text) && bytes_eq (drop (length text - length suffix) text) suffix

unfoldable pub string_matches : StringMatch → Bytes → Bool
unfolding ends_with
string_matches (equal value) text = bytes_eq value text
string_matches (begins value) text = starts_with text value
string_matches (ends value) text = ends_with text value

abbrev ip_of : Envelope → EnvelopeKey → IpAddr
ip_of e remote_ip = e.remote_ip
ip_of e local_ip = e.local_ip
ip_of e _ = unspecified

abbrev is_listener : EnvelopeKey → Bool
is_listener listener = true
is_listener _ = false

-- A number is compared with `u16::MAX` or `i16::MAX` when the key is not a listener.
unfoldable pub test : Envelope → EnvelopeKey → ConditionMatch → Option Bool
unfolding string_matches
test e key (string value) = some (string_matches value (key_to_string e key))
test e key (ip_addr_mask value) = some (matches value (ip_of e key))
test e key (uint value) = some (value == (if is_listener key then e.listener_id else 2 ^ 16 - 1))
test e key (int value) = some (value == (if is_listener key then e.priority else 2 ^ 15 - 1))
test e key (lookup contains) = contains (key_to_string e key)
test e key (regex is_match) = some (is_match (key_to_string e key))

-- The first number counts the conditions that a jump still passes over.
unfoldable pub run : Envelope → ℕ → Bool → List Condition → Bool
run e skip matched [] = matched
run e (suc skip) matched (c ∷ cs) = run e skip matched cs
run e zero matched (match key value negated ∷ cs) = elim (test e key value) [
  | none ↦ false
  | some result ↦ run e zero (result ^^ negated) cs
]
run e zero matched (jump_if_true positions ∷ cs) =
    run e (if matched then positions else 0) matched cs
run e zero matched (jump_if_false positions ∷ cs) =
    run e (if matched then 0 else positions) matched cs

-- `Conditions::eval`
unfoldable pub eval : List Condition → Envelope → Bool
eval conditions e = run e 0 false conditions

pub record IfThen (T : Type 0) : Type 0 where
  pub conditions : List Condition
  pub then_value : T

pub record IfBlock (T : Type 0) : Type 0 where
  pub if_then : List (IfThen T)
  pub default : T

unfoldable pub if_then_eval : {T : Type 0} → List (IfThen T) → T → Envelope → T
if_then_eval [] default e = default
if_then_eval (i ∷ is) default e =
    let rest = if_then_eval is default e in if eval i.conditions e then i.then_value else rest

-- `IfBlock::eval`
unfoldable pub if_block_eval : {T : Type 0} → IfBlock T → Envelope → T
if_block_eval block e = if_then_eval block.if_then block.default e
