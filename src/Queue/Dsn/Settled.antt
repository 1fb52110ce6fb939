-- ===== src/Queue/Dsn/Settled.antt =====
-- After a notification none is due at the same time: `build_dsn` of what `build_dsn` leaves.
use smtp_server.Base.{
  ℕ, ◌≡◌, refl, Bool, true, false, ◌||◌, List, [], ◌∷◌, ◌++◌, map, Option, none, some, Bytes,
  get_elem?, All, if◌then◌else◌, arith, Bool-cases, inl, inr, is_empty,
}
use smtp_server.Queue.Message.{Domain, Recipient, Message, Clock}
use smtp_server.Queue.Dsn.Notices.{
  Outcome, success, delay, failure, Notice, is_due, notice_of, with_notice, notices,
}
use smtp_server.Queue.Dsn.Build.{
  is_outcome, text_of, has_outcome, next_notice, Report, report_of, build_dsn,
}
use smtp_server.Queue.Dsn.Once.{get_elem?-map, map_some-same, Allows, notices-again}
use smtp_server.Base.Flags.{Flags}
use smtp_server.Session.Build.{QueueTimes}
use smtp_server.Queue.Dsn.Delays.{
  ArePositive, IsUnexpired, IsAtPending, IsLoud, next_notice-status, Allows-next, notice_of-IsLoud,
}

module _ (fl : Flags) (to_rfc822 : ℕ → Bytes) (clock : Clock) where
  quiet_if :
      (k : Outcome) (text rest : Bytes)
      → is_empty (if is_outcome fl to_rfc822 clock delay k then text ++ rest else rest) ≡ true
      → ((k ≡ delay) × (is_empty text ≡ false) → ⊥) × (is_empty rest ≡ true)
  quiet_if delay [] rest h = (λ l. cc (l.1), h)
  quiet_if delay (b ∷ text) rest h = absurd (cc h)
  quiet_if success text rest h = (λ l. cc (l.0), h)
  quiet_if failure text rest h = (λ l. cc (l.0), h)

  -- What no delay was reported of: a recipient with a loud notice makes the text of delays.
  with_notice-quiet :
      (o : Option Notice) (ns : List Notice)
      → is_empty (text_of fl to_rfc822 clock delay (with_notice fl to_rfc822 clock o ns)) ≡ true
      → (IsLoud o → ⊥) × (is_empty (text_of fl to_rfc822 clock delay ns) ≡ true)
  unfolding text_of
  with_notice-quiet none ns h = (λ l. l, h)
  with_notice-quiet (some n) ns h =
      quiet_if n.outcome n.text (text_of fl to_rfc822 clock delay ns) h

  Allows-same :
      (ds : List Domain) (rs : List Recipient)
      → is_empty (text_of fl to_rfc822 clock delay (notices fl to_rfc822 clock ds rs).1) ≡ true
      → All (Allows fl to_rfc822 clock (λ d. d) ds) rs
  unfolding notices
  Allows-same ds [] h = tt
  Allows-same ds (r ∷ rs) h =
      let (quiet, rest) =
        with_notice-quiet (notice_of fl to_rfc822 clock ds r).1 (notices fl to_rfc822 clock ds rs).1
          h in
      (
        λ open' d e w. elim (Bool-cases (is_due fl to_rfc822 clock d r)) [
          | inl due ↦ absurd (quiet (notice_of-IsLoud fl to_rfc822 clock ds r d open' e w due))
          | inr late ↦ late
        ],
        Allows-same ds rs rest,
      )

  left_message :
      (P : Message → Type 0) (s d f : Bool) (report : Report fl to_rfc822 clock)
      (later same : Message)
      → (d ≡ true → P later)
      → (d ≡ false → P same)
      → let x : Option (Report fl to_rfc822 clock) × Message =
          if s || (d || f) then (some report, if d then later else same) else (none, same) in
        P x.1
  left_message P true true f report later same h g = h refl
  left_message P true false f report later same h g = g refl
  left_message P false true f report later same h g = h refl
  left_message P false false true report later same h g = g refl
  left_message P false false false report later same h g = g refl

  text_of-blank :
      (k : Outcome) (ns : List Notice)
      → All (λ n. n.text ≡ []) ns
      → text_of fl to_rfc822 clock k ns ≡ []
  unfolding text_of
  text_of-blank k [] h = refl
  text_of-blank k (n ∷ ns) (h, hs) = elim (Bool-cases (is_outcome fl to_rfc822 clock k n.outcome)) [
    | inl p ↦ rw (p, h) (text_of-blank k ns hs)
    | inr p ↦ rw p (text_of-blank k ns hs)
  ]

  without_notices :
      (q : QueueTimes) (mta : Bytes) (m : Message)
      → All (λ n. n.text ≡ []) (notices fl to_rfc822 clock m.domains m.recipients).1
      → (build_dsn fl to_rfc822 clock q mta m).0 ≡ none
  unfolding build_dsn
  without_notices q mta m h =
      let ns = (notices fl to_rfc822 clock m.domains m.recipients).1 in
      rw (text_of-blank success ns h, text_of-blank delay ns h, text_of-blank failure ns h)

  -- The notices of what a first notification leaves.
  build_notices-again :
      (q : QueueTimes) (mta : Bytes) (m : Message)
      → ArePositive q m
      → All (IsUnexpired clock) m.domains
      → All (IsAtPending m.domains) m.recipients
      → let m' = (build_dsn fl to_rfc822 clock q mta m).1 in
        All (λ n. n.text ≡ []) (notices fl to_rfc822 clock m'.domains m'.recipients).1
  unfolding build_dsn
  build_notices-again q mta m positive u h =
      let r = notices fl to_rfc822 clock m.domains m.recipients in
      let m' : Message = record m { recipients = r.0 } in
      left_message
        (λ n. All (λ n. n.text ≡ []) (notices fl to_rfc822 clock n.domains n.recipients).1)
        (has_outcome fl to_rfc822 clock success r.1) (has_outcome fl to_rfc822 clock delay r.1)
        (has_outcome fl to_rfc822 clock failure r.1) (report_of fl to_rfc822 clock mta m' r.1)
        (record m' { domains = map (next_notice fl to_rfc822 clock q m') m.domains }) m'
        (λ e.
          notices-again fl to_rfc822 clock (next_notice fl to_rfc822 clock q m')
            (next_notice-status fl to_rfc822 clock q m') m.domains
            (map (next_notice fl to_rfc822 clock q m') m.domains)
            (get_elem?-map (next_notice fl to_rfc822 clock q m') m.domains) m.recipients
            (Allows-next fl to_rfc822 clock q m m' m.domains m.recipients positive u h))
        (λ e.
          notices-again fl to_rfc822 clock (λ d. d) (λ d. refl) m.domains m.domains
            (λ i. map_some-same (get_elem? m.domains i)) m.recipients
            (Allows-same m.domains m.recipients (ground (arith, e))))

  -- If the intervals of notices are positive, a domain whose delivery is pending has not expired, and
  -- a recipient that has failed for now is at such a domain, then after a notification was built none
  -- is to be built at the same time.
  pub build_dsn-none :
      (q : QueueTimes) (mta : Bytes) (m : Message)
      → ArePositive q m
      → All (IsUnexpired clock) m.domains
      → All (IsAtPending m.domains) m.recipients
      → (build_dsn fl to_rfc822 clock q mta (build_dsn fl to_rfc822 clock q mta m).1).0 ≡ none
  build_dsn-none q mta m positive u h =
      without_notices q mta _ (build_notices-again q mta m positive u h)
