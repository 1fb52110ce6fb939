-- ===== src/Queue/Manager/Times.antt =====
-- The times at which a message next needs the queue's attention.
use smtp_server.Base.{
  ℕ, Bool, true, false, not, ◌&&◌, ◌||◌, List, [], ◌∷◌, Option, none, some, ltb, if◌then◌else◌,
}
use smtp_server.Queue.Message.{Domain, Message, is_pending}

abbrev pub earlier : ℕ → ℕ → ℕ
earlier time next = if ltb time next then time else next

-- The loop of `next_event` over `(next_event, has_events)`.
unfoldable pub event_step : ℕ → Bool → Domain → ℕ × Bool
event_step next has d =
    if is_pending d.status
    then (
      earlier d.expires
          (earlier d.notify.due (if not has || ltb d.retry.due next then d.retry.due else next)),
      true,
    )
    else (next, has)

unfoldable pub next_event_loop : ℕ → Bool → List Domain → ℕ × Bool
next_event_loop next has [] = (next, has)
next_event_loop next has (d ∷ ds) =
    let (next', has') = event_step next has d in next_event_loop next' has' ds

unfoldable pub next_event : ℕ → Message → Option ℕ
next_event now m =
    let (next, has) = next_event_loop now false m.domains in if has then some next else none

-- The loop of `next_delivery_event`; the flag is `pos == 0` among the pending domains.
unfoldable pub delivery_step : ℕ → Bool → Domain → ℕ × Bool
delivery_step next first d =
    if is_pending d.status
    then ((if first || ltb d.retry.due next then d.retry.due else next), false)
    else (next, first)

unfoldable pub next_delivery_loop : ℕ → Bool → List Domain → ℕ
next_delivery_loop next first [] = next
next_delivery_loop next first (d ∷ ds) =
    let (next', first') = delivery_step next first d in next_delivery_loop next' first' ds

unfoldable pub next_delivery_event : ℕ → Message → ℕ
next_delivery_event now m = next_delivery_loop now true m.domains

-- `if time > instant && next_event.map_or(true, |ne| time < ne) { next_event = time.into() }`
abbrev pub sooner_after : ℕ → ℕ → Option ℕ → Option ℕ
sooner_after instant time next =
    if ltb instant time && elim next [ none ↦ true | some n ↦ ltb time n ] then some time else next

unfoldable pub after_step : ℕ → Option ℕ → Domain → Option ℕ
after_step instant next d =
    if is_pending d.status
    then sooner_after instant d.expires
        (sooner_after instant d.notify.due (sooner_after instant d.retry.due next))
    else next

unfoldable pub next_after_loop : ℕ → Option ℕ → List Domain → Option ℕ
next_after_loop instant next [] = next
next_after_loop instant next (d ∷ ds) = next_after_loop instant (after_step instant next d) ds

unfoldable pub next_event_after : ℕ → Message → Option ℕ
next_event_after instant m = next_after_loop instant none m.domains
