-- ===== src/Queue/Dsn/Marks.antt =====
-- Which recipients a notification marks as reported, and that no failure goes without one.
use smtp_server.Base.{
  ℕ, ◌≡◌, ◌≢◌, refl, sym, ap, subst, Bool, true, false, ◌||◌, not, List, [], ◌∷◌, ◌++◌, map, Option,
  none, some, Bytes, get_elem?, In, if◌then◌else◌, arith, Bool-cases, inl, inr, ◌⊎◌, is_empty,
}
use smtp_server.Queue.Message.{
  Status, scheduled, completed, temporary_failure, permanent_failure, HostResponse, ErrorDetails,
  Error, Domain, Recipient, Message, Clock, has_flag,
}
use smtp_server.Queue.Dsn.Notices.{
  Outcome, success, delay, failure, Notice, domain_failure, rcpt_failure, mark_sent, is_done,
  notice_if, domain_notice, rcpt_notice, notice_at, notice_of, with_notice, notices,
}
use smtp_server.Queue.Dsn.Build.{
  is_outcome, text_of, has_outcome, next_notice, Report, report_of, build_dsn,
}
use smtp_server.Queue.Dsn.Once.{notice_of-done, notice_of-open}
use smtp_server.Queue.Dsn.Delays.{error_text-full, rejected_text-full}
use smtp_server.Base.Flags.{Flags}
use smtp_server.Session.Build.{QueueTimes}

abbrev is_permanent : {T E : Type 0} → Status T E → Bool
is_permanent (permanent_failure e) = true
is_permanent (temporary_failure e) = false
is_permanent (completed v) = false
is_permanent scheduled = false

-- A delivery that is over: the recipient has it or has failed, or its domain has.
abbrev pub is_over : Option Domain → Status (HostResponse Bytes) (HostResponse ErrorDetails) → Bool
is_over none s = false
is_over (some d) (completed h) = true
is_over (some d) (permanent_failure h) = true
is_over (some d) (temporary_failure h) = false
is_over (some d) scheduled = is_permanent d.status

-- A delivery that has failed for good.
abbrev pub has_failed :
    Option Domain → Status (HostResponse Bytes) (HostResponse ErrorDetails) → Bool
has_failed none s = false
has_failed (some d) (completed h) = false
has_failed (some d) (permanent_failure h) = true
has_failed (some d) (temporary_failure h) = false
has_failed (some d) scheduled = is_permanent d.status

-- The recipients are left as they are, but for marks where the delivery is over.
abbrev pub AreMarked : List Domain → List Recipient → List Recipient → Type 0
AreMarked ds [] [] = Unit
AreMarked ds [] (r' ∷ rs') = ⊥
AreMarked ds (r ∷ rs) [] = ⊥
AreMarked ds (r ∷ rs) (r' ∷ rs') =
    ((r' ≡ r) ⊎ ((r' ≡ mark_sent r) × (is_over (get_elem? ds r.domain_idx) r.status ≡ true)))
    × AreMarked ds rs rs'

module _ (fl : Flags) (to_rfc822 : ℕ → Bytes) (clock : Clock) where
  abbrev IsMarked : Option Domain → Recipient → Recipient → Type 0
  IsMarked o r r' = (r' ≡ r) ⊎ ((r' ≡ mark_sent r) × (is_over o r.status ≡ true))

  domain_notice-mark :
      (d : Domain) (r : Recipient) (t : Status (Unit {0}) Error)
      → ((domain_notice fl to_rfc822 clock d r t).0 ≡ r)
        ⊎ (((domain_notice fl to_rfc822 clock d r t).0 ≡ mark_sent r) × (is_permanent t ≡ true))
  unfolding domain_notice
  domain_notice-mark d r (permanent_failure e) = inr (refl, refl)
  domain_notice-mark d r (temporary_failure e) = inl refl
  domain_notice-mark d r scheduled = inl refl
  domain_notice-mark d r (completed u) = inl refl

  rcpt_notice-mark :
      (d : Domain) (r : Recipient) (s : Status (HostResponse Bytes) (HostResponse ErrorDetails))
      → ((rcpt_notice fl to_rfc822 clock d r s).0 ≡ r)
        ⊎ (((rcpt_notice fl to_rfc822 clock d r s).0 ≡ mark_sent r) × (is_over (some d) s ≡ true))
  unfolding rcpt_notice
  rcpt_notice-mark d r (completed h) = inr (refl, refl)
  rcpt_notice-mark d r (permanent_failure h) = inr (refl, refl)
  rcpt_notice-mark d r (temporary_failure h) = inl refl
  rcpt_notice-mark d r scheduled = domain_notice-mark d r d.status

  notice_at-mark :
      (o : Option Domain) (r : Recipient) → IsMarked o r (notice_at fl to_rfc822 clock o r).0
  unfolding notice_at
  notice_at-mark none r = inl refl
  notice_at-mark (some d) r = rcpt_notice-mark d r r.status

  notice_of-mark :
      (ds : List Domain) (r : Recipient)
      → IsMarked (get_elem? ds r.domain_idx) r (notice_of fl to_rfc822 clock ds r).0
  notice_of-mark ds r = elim (Bool-cases (is_done fl r)) [
    | inl done ↦ inl (ap (λ x. x.0) (notice_of-done fl to_rfc822 clock ds r done))
    | inr open' ↦
        subst (λ x. IsMarked (get_elem? ds r.domain_idx) r x.0)
          (sym (notice_of-open fl to_rfc822 clock ds r open'))
          (notice_at-mark (get_elem? ds r.domain_idx) r)
  ]

  notices-AreMarked :
      (ds : List Domain) (rs : List Recipient)
      → AreMarked ds rs (notices fl to_rfc822 clock ds rs).0
  unfolding notices
  notices-AreMarked ds [] = tt
  notices-AreMarked ds (r ∷ rs) = (notice_of-mark ds r, notices-AreMarked ds rs)

  left_recipients :
      (s d f : Bool) (report : Report fl to_rfc822 clock) (later same : Message)
      → later.recipients ≡ same.recipients
      → let x : Option (Report fl to_rfc822 clock) × Message =
          if s || (d || f) then (some report, if d then later else same) else (none, same) in
        x.1.recipients ≡ same.recipients
  left_recipients s d f report later same e = ground (arith, e)

  -- A notification leaves every recipient as it is, but that it marks some whose delivery is over:
  -- they have the message or have failed for good, or their domain has.
  pub build_dsn-AreMarked :
      (q : QueueTimes) (mta : Bytes) (m : Message)
      → AreMarked m.domains m.recipients (build_dsn fl to_rfc822 clock q mta m).1.recipients
  unfolding build_dsn
  build_dsn-AreMarked q mta m =
      let r = notices fl to_rfc822 clock m.domains m.recipients in
      let m' : Message = record m { recipients = r.0 } in
      subst (AreMarked m.domains m.recipients)
        (sym (
          left_recipients (has_outcome fl to_rfc822 clock success r.1)
            (has_outcome fl to_rfc822 clock delay r.1) (has_outcome fl to_rfc822 clock failure r.1)
            (report_of fl to_rfc822 clock mta m' r.1)
            (record m' { domains = map (next_notice fl to_rfc822 clock q m') m.domains }) m' refl))
        (notices-AreMarked m.domains m.recipients)

  abbrev IsFailure : Option Notice → Type 0
  IsFailure none = ⊥
  IsFailure (some n) = (n.outcome ≡ failure) × (is_empty n.text ≡ false)

  notice_if-IsFailure :
      (b : Bool) (n : Notice)
      → b ≡ true
      → n.outcome ≡ failure
      → is_empty n.text ≡ false
      → IsFailure (notice_if b n)
  notice_if-IsFailure true n e o t = (o, t)
  notice_if-IsFailure false n e o t = absurd (cc e)

  domain_notice-IsFailure :
      (d : Domain) (r : Recipient) (t : Status (Unit {0}) Error)
      → is_permanent t ≡ true
      → has_flag (mark_sent r).flags fl.rcpt_notify_failure ≡ true
      → IsFailure (domain_notice fl to_rfc822 clock d r t).1
  unfolding domain_notice
  domain_notice-IsFailure d r (permanent_failure e) p wants =
      notice_if-IsFailure _ (domain_failure fl to_rfc822 clock d r e) wants refl
        (error_text-full e r.address d.domain)
  domain_notice-IsFailure d r (temporary_failure e) p wants = absurd (cc p)
  domain_notice-IsFailure d r scheduled p wants = absurd (cc p)
  domain_notice-IsFailure d r (completed u) p wants = absurd (cc p)

  rcpt_notice-IsFailure :
      (d : Domain) (r : Recipient) (s : Status (HostResponse Bytes) (HostResponse ErrorDetails))
      → has_failed (some d) s ≡ true
      → has_flag (mark_sent r).flags fl.rcpt_notify_failure ≡ true
      → IsFailure (rcpt_notice fl to_rfc822 clock d r s).1
  unfolding rcpt_notice
  rcpt_notice-IsFailure d r (permanent_failure h) p wants =
      notice_if-IsFailure _ (rcpt_failure fl to_rfc822 clock r h) wants refl
        (rejected_text-full h r.address)
  rcpt_notice-IsFailure d r scheduled p wants = domain_notice-IsFailure d r d.status p wants
  rcpt_notice-IsFailure d r (temporary_failure h) p wants = absurd (cc p)
  rcpt_notice-IsFailure d r (completed h) p wants = absurd (cc p)

  notice_at-IsFailure :
      (o : Option Domain) (r : Recipient)
      → has_failed o r.status ≡ true
      → has_flag (mark_sent r).flags fl.rcpt_notify_failure ≡ true
      → IsFailure (notice_at fl to_rfc822 clock o r).1
  unfolding notice_at
  notice_at-IsFailure none r p wants = absurd (cc p)
  notice_at-IsFailure (some d) r p wants = rcpt_notice-IsFailure d r r.status p wants

  with_notice-full :
      (o : Option Notice) (ns : List Notice)
      → (IsFailure o ⊎ (is_empty (text_of fl to_rfc822 clock failure ns) ≡ false))
      → is_empty (text_of fl to_rfc822 clock failure (with_notice fl to_rfc822 clock o ns)) ≡ false
  unfolding text_of
  with_notice-full none ns (inl l) = elim l [ ]
  with_notice-full none ns (inr h) = h
  with_notice-full (some n) ns h =
      full_if n.outcome n.text (text_of fl to_rfc822 clock failure ns) h
    where
      full_if :
          (k : Outcome) (text rest : Bytes)
          → (((k ≡ failure) × (is_empty text ≡ false)) ⊎ (is_empty rest ≡ false))
          → is_empty (if is_outcome fl to_rfc822 clock failure k then text ++ rest else rest)
            ≡ false
      full_if failure [] rest (inl l) = cc (l.1)
      full_if failure [] rest (inr h) = h
      full_if failure (b ∷ text) rest h = refl
      full_if success text rest (inl l) = absurd (cc (l.0))
      full_if success text rest (inr h) = h
      full_if delay text rest (inl l) = absurd (cc (l.0))
      full_if delay text rest (inr h) = h

  notices-full :
      (ds : List Domain) (rs : List Recipient) (r : Recipient)
      → In r rs
      → IsFailure (notice_of fl to_rfc822 clock ds r).1
      → is_empty (text_of fl to_rfc822 clock failure (notices fl to_rfc822 clock ds rs).1) ≡ false
  unfolding notices
  notices-full ds [] r i l = elim i [ ]
  notices-full ds (r' ∷ rs) r (inl e) l =
      with_notice-full (notice_of fl to_rfc822 clock ds r').1 (notices fl to_rfc822 clock ds rs).1
        (inl (subst (λ r. IsFailure (notice_of fl to_rfc822 clock ds r).1) e l))
  notices-full ds (r' ∷ rs) r (inr i) l =
      with_notice-full (notice_of fl to_rfc822 clock ds r').1 (notices fl to_rfc822 clock ds rs).1
        (inr (notices-full ds rs r i l))

  reported :
      (s d f : Bool) (report : Report fl to_rfc822 clock) (later same : Message)
      → f ≡ true
      → let x : Option (Report fl to_rfc822 clock) × Message =
          if s || (d || f) then (some report, if d then later else same) else (none, same) in
        x.0 ≢ none
  reported true d f report later same h = λ e. cc e
  reported false true f report later same h = λ e. cc e
  reported false false true report later same h = λ e. cc e
  reported false false false report later same h = absurd (cc h)

  -- If a recipient of a message has failed for good, it or its domain, has not been reported yet and
  -- wants a report of failures, whatever the others are, a notification is built.
  pub build_dsn-failure :
      (q : QueueTimes) (mta : Bytes) (m : Message) (r : Recipient)
      → In r m.recipients
      → is_done fl r ≡ false
      → has_failed (get_elem? m.domains r.domain_idx) r.status ≡ true
      → has_flag (mark_sent r).flags fl.rcpt_notify_failure ≡ true
      → (build_dsn fl to_rfc822 clock q mta m).0 ≢ none
  unfolding build_dsn
  build_dsn-failure q mta m r i open' p wants =
      let r' = notices fl to_rfc822 clock m.domains m.recipients in
      let m' : Message = record m { recipients = r'.0 } in
      reported (has_outcome fl to_rfc822 clock success r'.1)
        (has_outcome fl to_rfc822 clock delay r'.1) (has_outcome fl to_rfc822 clock failure r'.1)
        (report_of fl to_rfc822 clock mta m' r'.1)
        (record m' { domains = map (next_notice fl to_rfc822 clock q m') m.domains }) m'
        (ap not (
          notices-full m.domains m.recipients r i (
            subst (λ x. IsFailure x.1) (sym (notice_of-open fl to_rfc822 clock m.domains r open'))
              (notice_at-IsFailure (get_elem? m.domains r.domain_idx) r p wants))))
