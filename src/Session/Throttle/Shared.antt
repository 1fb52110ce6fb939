-- ===== src/Session/Throttle/Shared.antt =====
-- The sessions share the limiters: each still counts what all the sessions have in flight at it.
use smtp_server.Base.{
  ℕ, ◌≡◌, subst, List, [], ◌∷◌, ◌++◌, Option, none, some, Bytes, Bool, false, All, append_assoc,
  Bool-cases, inl, inr, not, ◌||◌, refl,
}
use smtp_server.Core.Key.{Throttle, throttle_key}
use smtp_server.Queue.Throttle.{Table, check_entry, push_some, applies}
use smtp_server.Queue.Throttle.InFlight.{
  Accounts, ThrottleFits, count, check_entry-AccountsFrom, pushed,
}
use smtp_server.Session.State.{Session, session_envelope}
use smtp_server.Session.Throttle.{
  SessionThrottle, stage_throttles, is_repeated, capped, check_throttle, check_throttles,
  session_is_allowed,
}

push_some-append :
    (others own : List ℕ) (o : Option ℕ) → push_some (others ++ own) o ≡ others ++ push_some own o
push_some-append others own none = refl
push_some-append others own (some p) = append_assoc others own (p ∷ [])

module _ (blake3 : Bytes → Bytes) (now : ℕ) (s : Session) (others : List ℕ) where
  check_throttle-Accounts :
      (in_flight : List ℕ) (table : Table) (t : Throttle)
      → ThrottleFits t
      → Accounts table (others ++ in_flight)
      → (let r = check_throttle blake3 now s in_flight table t in Accounts r.2 (others ++ r.1))
  unfolding check_throttle
  check_throttle-Accounts in_flight table t f a =
      elim (Bool-cases (not (applies t (session_envelope s)) || is_repeated t s)) [
        | inl p ↦ rw p a
        | inr p ↦
            let t' : Throttle = record t { rate = capped t.rate } in
            let r = check_entry now (blake3 (throttle_key t (session_envelope s))) t' 0 table in
            rw p (
              subst (λ ps. Accounts r.2 ps) (push_some-append others in_flight r.0)
                (pushed r.2 (others ++ in_flight) r.0 (
                  check_entry-AccountsFrom now (blake3 (throttle_key t (session_envelope s))) t' 0
                    table (count (others ++ in_flight)) f a)))
      ]

  check_throttles-Accounts :
      (in_flight : List ℕ) (table : Table) (ts : List Throttle)
      → All ThrottleFits ts
      → Accounts table (others ++ in_flight)
      → (let r = check_throttles blake3 now s in_flight table ts in Accounts r.2 (others ++ r.1))
  unfolding check_throttles
  check_throttles-Accounts in_flight table [] f a = a
  check_throttles-Accounts in_flight table (t ∷ ts) f a =
      let r = check_throttle blake3 now s in_flight table t in
      let kept = check_throttle-Accounts in_flight table t f.0 a in
      elim r.0
        as (λ o.
          let x : Bool × List ℕ × Table = elim o [
            | some refusal ↦ (false, r.1, r.2)
            | none ↦ check_throttles blake3 now s r.1 r.2 ts
          ] in
          Accounts x.2 (others ++ x.1)) [
            | some refusal ↦ kept
            | none ↦ check_throttles-Accounts r.1 r.2 ts f.1 kept
          ]

-- A session asks the throttles of its stage, and whatever they answer each limiter of concurrent
-- work still counts what this session and the others have in flight at it, which is at most its
-- limit: if that holds before, and the limits are words.
pub session_is_allowed-Accounts :
    (blake3 : Bytes → Bytes) (now : ℕ) (config : SessionThrottle) (s : Session) (others : List ℕ)
    (table : Table)
    → All ThrottleFits (stage_throttles config s)
    → Accounts table (others ++ s.in_flight)
    → (let r = session_is_allowed blake3 now config s table in
        Accounts r.2 (others ++ r.1.in_flight))
unfolding session_is_allowed
session_is_allowed-Accounts blake3 now config s others table f a =
    check_throttles-Accounts blake3 now s others s.in_flight table (stage_throttles config s) f a
