-- ===== src/Queue/Dsn/Once.antt =====
-- A recipient is reported once: what a notification leaves needs none at the same time.
use smtp_server.Base.{
  ℕ, zero, suc, ◌≡◌, refl, sym, ap, ◌∙◌, subst, Bool, true, false, ◌||◌, List, [], ◌∷◌, ◌++◌, map,
  Option, none, some, Bytes, get_elem?, All, if◌then◌else◌, arith, Bool-cases, inl, inr, ◌⊎◌,
  is_empty,
}
use smtp_server.Queue.Message.{
  Status, scheduled, completed, temporary_failure, permanent_failure, HostResponse, ErrorDetails,
  Error, Domain, Recipient, Clock, is_pending, has_flag,
}
use smtp_server.Queue.Dsn.Notices.{
  rcpt_dsn_sent, Notice, mark_sent, is_done, notice_if, is_due, domain_notice, rcpt_notice,
  notice_at, notice_of, with_notice, notices,
}
use smtp_server.Base.Flags.{Flags}

mark_sent-sent : (r : Recipient) → has_flag (mark_sent r).flags rcpt_dsn_sent ≡ true
mark_sent-sent r = ground arith

-- A recipient that waits: it has failed for now, or its domain has.
abbrev pub waits :
    Status (HostResponse Bytes) (HostResponse ErrorDetails) → Status (Unit {0}) Error → Bool
waits (temporary_failure e) t = true
waits scheduled t = is_pending t
waits (completed h) t = false
waits (permanent_failure e) t = false

abbrev pub map_some : (Domain → Domain) → Option Domain → Option Domain
map_some f none = none
map_some f (some d) = some (f d)

pub get_elem?-map :
    (f : Domain → Domain) (ds : List Domain) (i : ℕ)
    → get_elem? (map f ds) i ≡ map_some f (get_elem? ds i)
get_elem?-map f [] i = refl
get_elem?-map f (d ∷ ds) zero = refl
get_elem?-map f (d ∷ ds) (suc i) = get_elem?-map f ds i

pub map_some-same : (o : Option Domain) → o ≡ map_some (λ d. d) o
map_some-same none = refl
map_some-same (some d) = refl

pub append-full : (xs ys : Bytes) → is_empty xs ≡ false → is_empty (xs ++ ys) ≡ false
append-full [] ys h = absurd (cc h)
append-full (x ∷ xs) ys h = refl

-- A notice that reports nothing.
abbrev pub IsBlank : Option Notice → Type 0
IsBlank none = Unit
IsBlank (some n) = n.text ≡ []

not_due : (b : Bool) (n : Notice) → b ≡ false → IsBlank (notice_if b n)
not_due true n h = absurd (cc h)
not_due false n h = tt

module _ (fl : Flags) (to_rfc822 : ℕ → Bytes) (clock : Clock) where
  done_mark : (r : Recipient) → is_done fl (mark_sent r) ≡ true
  done_mark r = ap (λ b. b || has_flag (mark_sent r).flags fl.rcpt_notify_never) (mark_sent-sent r)

  -- The first pass marks the recipient, or leaves it and the second reports nothing of it.
  abbrev IsQuiet : Recipient → Recipient → Option Notice → Type 0
  IsQuiet r r' second = (is_done fl r' ≡ true) ⊎ ((r' ≡ r) × IsBlank second)

  domain_notice-IsQuiet :
      (d d' : Domain) (r : Recipient) (t : Status (Unit {0}) Error)
      → (is_pending t ≡ true → is_due fl to_rfc822 clock d' r ≡ false)
      → IsQuiet r
          (domain_notice fl to_rfc822 clock d r t).0
          (domain_notice fl to_rfc822 clock d' r t).1
  unfolding domain_notice
  domain_notice-IsQuiet d d' r (permanent_failure e) h = inl (done_mark r)
  domain_notice-IsQuiet d d' r (temporary_failure e) h = inr (refl, not_due _ _ (h refl))
  domain_notice-IsQuiet d d' r scheduled h = inr (refl, not_due _ _ (h refl))
  domain_notice-IsQuiet d d' r (completed u) h = inr (refl, refl)

  rcpt_notice-IsQuiet :
      (d d' : Domain) (r : Recipient) (s : Status (HostResponse Bytes) (HostResponse ErrorDetails))
      → d'.status ≡ d.status
      → (waits s d.status ≡ true → is_due fl to_rfc822 clock d' r ≡ false)
      → IsQuiet r (rcpt_notice fl to_rfc822 clock d r s).0 (rcpt_notice fl to_rfc822 clock d' r s).1
  unfolding rcpt_notice
  rcpt_notice-IsQuiet d d' r (completed h') e h = inl (done_mark r)
  rcpt_notice-IsQuiet d d' r (permanent_failure h') e h = inl (done_mark r)
  rcpt_notice-IsQuiet d d' r (temporary_failure h') e h = inr (refl, not_due _ _ (h refl))
  rcpt_notice-IsQuiet d d' r scheduled e h =
      subst
        (λ t.
          IsQuiet r (domain_notice fl to_rfc822 clock d r d.status).0
            (domain_notice fl to_rfc822 clock d' r t).1)
        (sym e) (domain_notice-IsQuiet d d' r d.status h)

  -- With the domains that are left no delay of the recipient is due.
  abbrev pub Allows : (Domain → Domain) → List Domain → Recipient → Type 0
  Allows f ds r =
      is_done fl r ≡ false
      → (d : Domain) → get_elem? ds r.domain_idx ≡ some d
      → waits r.status d.status ≡ true
      → is_due fl to_rfc822 clock (f d) r ≡ false

  notice_at-IsQuiet :
      (f : Domain → Domain) (o : Option Domain) (r : Recipient)
      → ((d : Domain) → (f d).status ≡ d.status)
      → ((d : Domain)
          → o ≡ some d
          → waits r.status d.status ≡ true
          → is_due fl to_rfc822 clock (f d) r ≡ false)
      → IsQuiet r
          (notice_at fl to_rfc822 clock o r).0
          (notice_at fl to_rfc822 clock (map_some f o) r).1
  unfolding notice_at
  notice_at-IsQuiet f none r e h = inr (refl, tt)
  notice_at-IsQuiet f (some d) r e h = rcpt_notice-IsQuiet d (f d) r r.status (e d) (h d refl)

  pub notice_of-done :
      (ds : List Domain) (r : Recipient)
      → is_done fl r ≡ true
      → notice_of fl to_rfc822 clock ds r ≡ (r, none)
  unfolding notice_of
  notice_of-done ds r h =
      ap (λ b. if b then (r, none) else notice_at fl to_rfc822 clock (get_elem? ds r.domain_idx) r)
        h

  pub notice_of-open :
      (ds : List Domain) (r : Recipient)
      → is_done fl r ≡ false
      → notice_of fl to_rfc822 clock ds r
        ≡ notice_at fl to_rfc822 clock (get_elem? ds r.domain_idx) r
  unfolding notice_of
  notice_of-open ds r h =
      ap (λ b. if b then (r, none) else notice_at fl to_rfc822 clock (get_elem? ds r.domain_idx) r)
        h

  module _ (f : Domain → Domain) (kept : (d : Domain) → (f d).status ≡ d.status)
      (ds ds' : List Domain) (same : (i : ℕ) → get_elem? ds' i ≡ map_some f (get_elem? ds i)) where
    notice_of-again :
        (r : Recipient)
        → Allows f ds r
        → IsBlank (notice_of fl to_rfc822 clock ds' (notice_of fl to_rfc822 clock ds r).0).1
    notice_of-again r allows = elim (Bool-cases (is_done fl r)) [
      | inl done ↦
          subst (λ x. IsBlank x.1)
            (sym (
              ap (λ x. notice_of fl to_rfc822 clock ds' x.0) (notice_of-done ds r done)
              ∙ notice_of-done ds' r done))
            tt
      | inr open' ↦
          let first = ap (λ x. notice_of fl to_rfc822 clock ds' x.0) (notice_of-open ds r open') in
          elim (notice_at-IsQuiet f (get_elem? ds r.domain_idx) r kept (allows open')) [
            | inl done ↦ subst (λ x. IsBlank x.1) (sym (first ∙ notice_of-done ds' _ done)) tt
            | inr (e, quiet) ↦
                subst (λ x. IsBlank x.1)
                  (sym (
                    first
                    ∙ ap (λ r. notice_of fl to_rfc822 clock ds' r) e
                    ∙ notice_of-open ds' r open'
                    ∙ ap (λ o. notice_at fl to_rfc822 clock o r) (same r.domain_idx)))
                  quiet
          ]
    ]

    with_blank :
        (o : Option Notice) (ns : List Notice)
        → IsBlank o
        → All (λ n. n.text ≡ []) ns
        → All (λ n. n.text ≡ []) (with_notice fl to_rfc822 clock o ns)
    with_blank none ns h hs = hs
    with_blank (some n) ns h hs = (h, hs)

    pub notices-again :
        (rs : List Recipient)
        → All (Allows f ds) rs
        → All
            (λ n. n.text ≡ [])
            (notices fl to_rfc822 clock ds' (notices fl to_rfc822 clock ds rs).0).1
    unfolding notices
    notices-again [] h = tt
    notices-again (r ∷ rs) (h, hs) =
        with_blank _ (notices fl to_rfc822 clock ds' (notices fl to_rfc822 clock ds rs).0).1
          (notice_of-again r h) (notices-again rs hs)
