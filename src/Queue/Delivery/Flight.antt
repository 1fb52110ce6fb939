-- ===== src/Queue/Delivery/Flight.antt =====
-- src/outbound/delivery.rs: what a delivery that starts has in flight.
use smtp_server.Base.{
  ℕ, ◌+◌, ◌≡◌, refl, sym, subst, Bool-cases, inl, inr, List, [], ◌∷◌, ◌++◌, append_assoc,
  append-nil, Option, none, some, Bytes, All, ltb, arith,
}
use smtp_server.Base.Accounts.{AccountsFrom-cong}
use smtp_server.Core.Envelope.{Envelope}
use smtp_server.Core.Key.{Throttle, throttle_key}
use smtp_server.Queue.Message.{Message, Clock}
use smtp_server.Queue.Envelopes.{message_envelope}
use smtp_server.Queue.Throttle.{
  Table as Throttles, Refusal, push_some, check_entry, applies, is_allowed, drop_entry,
}
use smtp_server.Queue.Throttle.InFlight.{Holds, count, Accounts, ThrottleFits, is_allowed-Accounts}
use smtp_server.Queue.Throttle.Released.{drop_entry-Accounts}
use smtp_server.Queue.Manager.Times.{next_delivery_event}
use smtp_server.Queue.Delivery.{
  Started, postponed, limited, removed, spawned, has_pending_delivery, start_delivery,
  throttle_sender, throttled, first_refusal, drop_all,
}

-- What the task of a delivery has in flight, if there is one.
abbrev pub in_flight_of : Started → List ℕ
in_flight_of (postponed s ops) = []
in_flight_of (limited h ops) = []
in_flight_of (removed ops) = []
in_flight_of (spawned m in_flight) = in_flight

push_some-append : (os ps : List ℕ) (o : Option ℕ) → push_some (os ++ ps) o ≡ os ++ push_some ps o
push_some-append os ps none = refl
push_some-append os ps (some p) = append_assoc os ps (p ∷ [])

count-middle :
    (os : List ℕ) (p : ℕ) (ps : List ℕ) (n : ℕ) → count (os ++ p ∷ ps) n ≡ count (p ∷ os ++ ps) n
count-middle [] p ps n = refl
count-middle (o ∷ os) p ps n = ground (arith, count-middle os p ps n)

drop_all-Accounts :
    (os ps : List ℕ) (table : Throttles)
    → Accounts table (os ++ ps)
    → Accounts (drop_all ps table) os
unfolding drop_all
drop_all-Accounts os [] table a = subst (Accounts table) (append-nil os) a
drop_all-Accounts os (p ∷ ps) table a = drop_all-Accounts os ps (drop_entry p table) (
    drop_entry-Accounts p (os ++ ps) table (
      AccountsFrom-cong Holds 0 table (count (os ++ p ∷ ps)) (count (p ∷ os ++ ps))
        (λ n. count-middle os p ps (0 + n)) a))

first_refusal-Accounts :
    (os : List ℕ) (o : Option Refusal) (rest : Option Refusal × List ℕ × Throttles)
    (now : List ℕ × Throttles)
    → Accounts now.1 (os ++ now.0)
    → Accounts rest.2 (os ++ rest.1)
    → (let r = first_refusal o rest now in Accounts r.2 (os ++ r.1))
first_refusal-Accounts os none rest now a b = b
first_refusal-Accounts os (some refusal) rest now a b = a

throttled-Accounts :
    (os : List ℕ) (clock : Clock) (m : Message) (r : Option Refusal × List ℕ × Throttles)
    → Accounts r.2 (os ++ r.1)
    → (let s = throttled clock m r in Accounts s.1 (os ++ in_flight_of s.0))
unfolding throttled
throttled-Accounts os clock m (none, ps, table) a = a
throttled-Accounts os clock m (some (Refusal.concurrency l), ps, table) a =
    subst (Accounts (drop_all ps table)) (sym (append-nil os)) (drop_all-Accounts os ps table a)
throttled-Accounts os clock m (some (Refusal.rate time), ps, table) a =
    subst (Accounts (drop_all ps table)) (sym (append-nil os)) (drop_all-Accounts os ps table a)

module _ (blake3 : Bytes → Bytes) (send_dsn : Message → Message) (others : List ℕ) where
  is_allowed-more :
      (now : ℕ) (t : Throttle) (e : Envelope) (ps : List ℕ) (table : Throttles)
      → ThrottleFits t
      → Accounts table (others ++ ps)
      → (let r = is_allowed blake3 now t e ps table in Accounts r.2 (others ++ r.1))
  unfolding is_allowed
  is_allowed-more now t e ps table f a =
      let b = is_allowed-Accounts blake3 now t e (others ++ ps) table f a in
      elim (Bool-cases (applies t e)) [
        | inl p ↦
            let r = check_entry now (blake3 (throttle_key t e)) t 0 table in
            rw p (subst (Accounts r.2) (push_some-append others ps r.0) (rw p at b))
        | inr p ↦ rw p a
      ]

  throttle_sender-Accounts :
      (now : ℕ) (m : Message) (ts : List Throttle) (ps : List ℕ) (table : Throttles)
      → All ThrottleFits ts
      → Accounts table (others ++ ps)
      → (let r = throttle_sender blake3 send_dsn now m ts ps table in Accounts r.2 (others ++ r.1))
  unfolding throttle_sender
  throttle_sender-Accounts now m [] ps table f a = a
  throttle_sender-Accounts now m (t ∷ ts) ps table (f, fs) a =
      let r = is_allowed blake3 now t (message_envelope m) ps table in
      let b = is_allowed-more now t (message_envelope m) ps table f a in
      first_refusal-Accounts others r.0 (throttle_sender blake3 send_dsn now m ts r.1 r.2)
        (r.1, r.2) b (throttle_sender-Accounts now m ts r.1 r.2 fs b)

  -- If each limiter of concurrent work counts what other work has in flight at it, then after a
  -- delivery has started it counts that and what the task of the delivery has in flight, if there is
  -- one, and that is at most its limit: nothing stays counted of an attempt that is refused. The
  -- limits are words.
  pub start_delivery-Accounts :
      (clock : Clock) (throttles : List Throttle) (m : Message) (table : Throttles)
      → All ThrottleFits throttles
      → Accounts table others
      → (let r = start_delivery blake3 send_dsn clock throttles m table in
          Accounts r.1 (others ++ in_flight_of r.0))
  unfolding start_delivery
  start_delivery-Accounts clock throttles m table f a =
      let x = has_pending_delivery clock.instant m in
      let a' = subst (Accounts table) (sym (append-nil others)) a in
      elim (Bool-cases x.0) [
        | inr p ↦ rw p a'
        | inl p ↦
            elim (Bool-cases
              (ltb clock.instant (next_delivery_event clock.instant (send_dsn x.1)))) [
                | inl q ↦ rw (p, q) a'
                | inr q ↦
                    rw (p, q)
                      (throttled-Accounts others clock (send_dsn x.1) _ (
                        throttle_sender-Accounts clock.instant (send_dsn x.1) throttles [] table f
                          a'))
              ]
      ]
