-- ===== src/Rpc/Paging.antt =====
-- src/rpc.rs: the pages of `aomori_get_events` and the log that they are taken from.
use aomori.Prelude.{
  ℕ, zero, suc, ◌+◌, ◌<◌, ◌≤◌, ◌≡◌, refl, sym, ap, ◌∙◌, true, false, List, [], ◌∷◌, ◌++◌, take,
  drop, ltb, arith, Bool-cases, inl, inr,
}
use aomori.Result.{ok}
use aomori.Model.{WorldEvent, WorldState}
use aomori.Model.Events.{validate_events}
use aomori.Model.Sound.Events.{Increasing, validate_events_sound}
use aomori.Rpc.Reads.{filter, last_id, page_after}

-- The events with an id above a number.
abbrev pub events_after : ℕ → List WorldEvent → List WorldEvent
events_after since events = filter (λ e. ltb since e.id) events

ltb_yes : (m n : ℕ) → m < n → ltb m n ≡ true
ltb_yes m n h = ground arith

ltb_no : (m n : ℕ) → n ≤ m → ltb m n ≡ false
ltb_no m n h = ground arith

take-drop {ℓ} : {A : Type ℓ} (n : ℕ) (xs : List A) → take n xs ++ drop n xs ≡ xs
take-drop zero xs = refl
take-drop (suc n) [] = refl
take-drop (suc n) (x ∷ xs) = ap (λ ys. x ∷ ys) (take-drop n xs)

-- Every id of a log that increases from a number is above it.
events_after-all :
    (since next : ℕ) (events : List WorldEvent)
    → Increasing since events next
    → (m : ℕ) → m ≤ since
    → events_after m events ≡ events
events_after-all since next [] h m low = refl
events_after-all since next (e ∷ es) (above, rest) m low =
    rw (ltb_yes m e.id (omega arith))
      (ap (λ ys. e ∷ ys) (events_after-all e.id next es rest m (omega arith)))

-- What is above a number increases from that number.
events_after-Increasing :
    (since previous next : ℕ) (events : List WorldEvent)
    → Increasing previous events next
    → since < next
    → Increasing since (events_after since events) next
events_after-Increasing since previous next [] h room = room
events_after-Increasing since previous next (e ∷ es) (above, rest) room =
    elim (Bool-cases (ltb since e.id)) [
      | inl later ↦
          rw later (ground arith, rw (events_after-all e.id next es rest since (ground arith)) rest)
      | inr early ↦ rw early (events_after-Increasing since e.id next es rest room)
    ]

-- Behind the last event of the first `n` are the others.
events_after-last_id :
    (n since next : ℕ) (events : List WorldEvent)
    → Increasing since events next
    → (since ≤ last_id since (take n events))
      × (events_after (last_id since (take n events)) events ≡ drop n events)
events_after-last_id zero since next events h =
    (omega arith, events_after-all since next events h since (omega arith))
events_after-last_id (suc n) since next [] h = (omega arith, refl)
events_after-last_id (suc n) since next (e ∷ es) (above, rest) =
    let (further, others) = events_after-last_id n e.id next es rest in
    (omega (arith, above, further), rw (ltb_no (last_id e.id (take n es)) e.id further) others)

-- A second bound that is higher.
events_after-twice :
    (m since : ℕ) (events : List WorldEvent)
    → since ≤ m
    → events_after m (events_after since events) ≡ events_after m events
events_after-twice m since [] h = refl
events_after-twice m since (e ∷ es) h = elim (Bool-cases (ltb since e.id)) [
  | inl later ↦ ground (arith, later, events_after-twice m since es h)
  | inr early ↦ ground (arith, early, events_after-twice m since es h)
]

Increasing-below :
    (previous next bound : ℕ) (events : List WorldEvent)
    → Increasing previous events next
    → next ≤ bound
    → Increasing previous events bound
Increasing-below previous next bound [] h room = omega arith
Increasing-below previous next bound (e ∷ es) (above, rest) room =
    (above, Increasing-below e.id next bound es rest room)

-- In a world whose log passes the validation, a page and the events behind its `next` are together
-- the events behind `since`, in the order of the log: a client that continues at `next` misses no
-- event and sees none twice. `next` is never below `since`.
pub page_after-continues :
    (s : WorldState) (since limit : ℕ)
    → validate_events s ≡ ok tt
    → let page = page_after since limit s.events in
      (since ≤ page.next)
      × (page.page_events ++ events_after page.next s.events ≡ events_after since s.events)
unfolding page_after
page_after-continues s since limit h =
    let (increasing, _, _) = validate_events_sound s h in
    let bound = s.next_event_id + (since + 1) in
    let found = events_after since s.events in
    let up =
      events_after-Increasing since 0 bound s.events
        (Increasing-below 0 s.next_event_id bound s.events increasing (omega arith))
        (omega arith) in
    let (further, others) = events_after-last_id limit since bound found up in
    (
      further,
      ap (λ es. take limit found ++ es)
            (sym (events_after-twice (last_id since (take limit found)) since s.events further)
              ∙ others)
          ∙ take-drop limit found,
    )
