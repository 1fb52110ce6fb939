-- ===== src/Session/Build/Domains.antt =====
-- The recipients of a message that is built, and their domains.
use mathlib.Core.List.{Perm}
use smtp_server.Base.{
  ℕ, zero, suc, ◌-◌, ◌≤◌, ◌≡◌, refl, sym, ap, ◌∙◌, subst, Bool, true, false, List, [], ◌∷◌, ◌++◌,
  append_assoc, append-nil, some, Bytes, bytes_eq, length, length-append, get_elem?, if◌then◌else◌,
  arith,
}
use smtp_server.Queue.Message.{Domain, Recipient, Message}
use smtp_server.Session.State.{SessionAddress, SessionData}
use smtp_server.Base.Flags.{Flags}
use smtp_server.Session.Build.Order.{IsSorted, sort_addresses-IsSorted, sort_addresses-Perm}
use smtp_server.Session.Build.{
  QueueTimes, sort_addresses, last_domain, is_other, new_domain, domains_with, new_recipient,
  add_recipients, empty_message, build_message,
}

bytes_eq-eq : (xs ys : Bytes) → bytes_eq xs ys ≡ true → xs ≡ ys
unfolding bytes_eq
bytes_eq-eq [] [] h = refl
bytes_eq-eq [] (y ∷ ys) h = absurd (cc h)
bytes_eq-eq (x ∷ xs) [] h = absurd (cc h)
bytes_eq-eq (x ∷ xs) (y ∷ ys) h = ground (arith, bytes_eq-eq xs ys, h)

-- A domain of a message, by its position.
abbrev pub HasDomain : List Domain → ℕ → Bytes → Type 0
HasDomain ds i name = (d : Domain) × (get_elem? ds i ≡ some d) × (d.domain ≡ name)

get_elem?-append :
    (ds more : List Domain) (i : ℕ) (d : Domain)
    → get_elem? ds i ≡ some d
    → get_elem? (ds ++ more) i ≡ some d
get_elem?-append [] more i d h = absurd (cc h)
get_elem?-append (e ∷ ds) more zero d h = h
get_elem?-append (e ∷ ds) more (suc i) d h = get_elem?-append ds more i d h

get_elem?-end : (ds : List Domain) (d : Domain) → get_elem? (ds ++ d ∷ []) (length ds) ≡ some d
get_elem?-end [] d = refl
get_elem?-end (e ∷ ds) d = get_elem?-end ds d

HasDomain-last :
    (ds : List Domain) (name : Bytes) (i : ℕ)
    → suc i ≡ length ds
    → is_other (last_domain ds) name ≡ false
    → HasDomain ds i name
HasDomain-last [] name i l h = absurd (omega arith)
HasDomain-last (d ∷ []) name zero l h = (d, refl, bytes_eq-eq d.domain name (ground (arith, h)))
HasDomain-last (d ∷ []) name (suc i) l h = absurd (omega arith)
HasDomain-last (d ∷ e ∷ ds) name zero l h = absurd (omega arith)
HasDomain-last (d ∷ e ∷ ds) name (suc i) l h = HasDomain-last (e ∷ ds) name i (omega arith) h

last_of_none :
    (ds : List Domain) (name : Bytes) → is_other (last_domain ds) name ≡ false → 1 ≤ length ds
last_of_none [] name h = absurd (cc h)
last_of_none (d ∷ ds) name h = omega arith

HasDomain-append :
    (ds more : List Domain) (i : ℕ) (name : Bytes)
    → HasDomain ds i name
    → HasDomain (ds ++ more) i name
HasDomain-append ds more i name (d, e, h) = (d, get_elem?-append ds more i d e, h)

-- The recipients are the addresses in their order, each at its domain.
abbrev pub Agrees : List Domain → List SessionAddress → List Recipient → Type 0
Agrees ds [] [] = Unit
Agrees ds [] (r ∷ rs) = ⊥
Agrees ds (a ∷ rest) [] = ⊥
Agrees ds (a ∷ rest) (r ∷ rs) =
    (r.address ≡ a.address)
    × (r.address_lcase ≡ a.address_lcase)
    × (r.orcpt ≡ a.dsn_info)
    × HasDomain ds r.domain_idx a.domain
    × Agrees ds rest rs

module _ (fl : Flags) (q : QueueTimes) (now : ℕ) (d : SessionData) where
  HasDomain-if :
      (b : Bool) (m : Message) (name : Bytes) (ds : List Domain)
      → is_other (last_domain ds) name ≡ b
      → let ds' = if b then ds ++ new_domain fl q now d m name ∷ [] else ds in
        (HasDomain ds' (length ds' - 1) name) × ((more : List Domain) × (ds' ≡ ds ++ more))
  unfolding new_domain
  HasDomain-if true m name ds e =
      let at_end : length (ds ++ new_domain fl q now d m name ∷ []) - 1 ≡ length ds =
        omega (arith, length-append ds (new_domain fl q now d m name ∷ [])) in
      (
        subst (λ i. HasDomain (ds ++ new_domain fl q now d m name ∷ []) i name) (sym at_end)
            (new_domain fl q now d m name, get_elem?-end ds (new_domain fl q now d m name), refl),
        (new_domain fl q now d m name ∷ [], refl),
      )
  HasDomain-if false m name ds e = (
    HasDomain-last ds name (length ds - 1) (omega (arith, last_of_none ds name e)) e,
    ([], sym (append-nil ds)),
  )

  Agrees-append :
      (ds more : List Domain) (addresses : List SessionAddress) (rs : List Recipient)
      → Agrees ds addresses rs
      → Agrees (ds ++ more) addresses rs
  Agrees-append ds more [] [] h = tt
  Agrees-append ds more [] (r ∷ rs) h = h
  Agrees-append ds more (a ∷ rest) [] h = h
  Agrees-append ds more (a ∷ rest) (r ∷ rs) (e, f, g, h, i) =
      (e, f, g, HasDomain-append ds more r.domain_idx a.domain h, Agrees-append ds more rest rs i)

  -- What the loop adds to the domains and to the recipients.
  abbrev Added :
      List Domain → List Recipient → List SessionAddress → List Domain × List Recipient → Type 0
  Added ds rs addresses r =
      (more : List Domain) × (added : List Recipient) × (r.0 ≡ ds ++ more)
      × (r.1 ≡ rs ++ added)
      × Agrees r.0 addresses added

  add_recipients-Added :
      (m : Message) (addresses : List SessionAddress) (ds : List Domain) (rs : List Recipient)
      → Added ds rs addresses (add_recipients fl q now d m addresses (ds, rs))
  unfolding add_recipients
  add_recipients-Added m [] ds rs = ([], [], sym (append-nil ds), sym (append-nil rs), tt)
  add_recipients-Added m (a ∷ rest) ds rs =
      let ds' = domains_with fl q now d m a.domain ds in
      let r = new_recipient fl q now d a ds' in
      let (found, (more, grown)) =
        HasDomain-if (is_other (last_domain ds) a.domain) m a.domain ds refl in
      let (more', added, e, f, agrees) = add_recipients-Added m rest ds' (rs ++ r ∷ []) in
      (
        more ++ more',
        r ∷ added,
        e ∙ ap (λ ds. ds ++ more') grown ∙ append_assoc ds more more',
        f ∙ append_assoc rs (r ∷ []) added,
        (
          refl,
          refl,
          refl,
          subst (λ ds. HasDomain ds r.domain_idx a.domain) (sym e)
              (HasDomain-append ds' more' r.domain_idx a.domain found),
          agrees,
        ),
      )

  -- The message that is built has a recipient for each address, in the order of the sorted addresses
  -- and with the address and the original recipient of it, and a domain of the message at the
  -- position that the recipient names, which is that of the address. The sorted addresses are those
  -- of the session in order: none stands right behind one that it is before, by domain and then by
  -- address.
  pub build_message-Agrees :
      (id created : ℕ) (from : SessionAddress) (rcpts : List SessionAddress)
      → let m = build_message fl q now d id created from rcpts in
        Agrees m.domains (sort_addresses rcpts) m.recipients
        × Perm (sort_addresses rcpts) rcpts
        × IsSorted (sort_addresses rcpts)
  unfolding build_message
  build_message-Agrees id created from rcpts =
      let m = empty_message fl q now d id created from in
      let (more, added, e, f, agrees) = add_recipients-Added m (sort_addresses rcpts) [] [] in
      (
        subst
            (λ rs.
              Agrees (add_recipients fl q now d m (sort_addresses rcpts) ([], [])).0
                (sort_addresses rcpts) rs)
            (sym f) agrees,
        sort_addresses-Perm rcpts,
        sort_addresses-IsSorted rcpts,
      )
