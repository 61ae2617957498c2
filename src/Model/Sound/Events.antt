-- ===== src/Model/Sound/Events.antt =====
-- src/model.rs: the logs that `validate_events` accepts.
use mathlib.Core.Path.{subst}
use aomori.Prelude.{
  ℕ, ◌≡◌, ◌<◌, ◌≤◌, String, Bool, true, false, some, List, [], ◌∷◌, arith, All, text_key, ◌≟◌,
  and_then, ≟_iff, ap, sym, ◌∙◌,
}
use aomori.Map.{get}
use aomori.Json.{get_field, as_u64}
use aomori.Result.{ok, >>=-eq-ok}
use aomori.Model.{WorldState, WorldEvent, Receipt}
use aomori.Model.Events.{
  mem_text, text_field, check_event, check_kind, check_transaction_event, validate_events_from,
  validate_events,
}

-- Ids that increase strictly from `previous` to below `next`.
abbrev pub Increasing : ℕ → List WorldEvent → ℕ → Type 0
Increasing previous [] next = previous < next
Increasing previous (e ∷ es) next = (previous < e.id) × Increasing e.id es next

abbrev pub is_transaction : WorldEvent → Bool
is_transaction e = e.kind ≟ "transaction_executed"

-- The receipt that a transaction event names.
abbrev pub HasReceipt : WorldState → WorldEvent → Type 0
HasReceipt s e =
    (tx_id : String) × (receipt : Receipt) × (text_field "tx_id" e ≡ some tx_id)
    × (get tx_id s.receipts ≡ some receipt)
    × (text_field "from" e ≡ some receipt.from)
    × (and_then (get_field "nonce" e.payload) as_u64 ≡ some receipt.nonce)

abbrev pub EventValid : WorldState → WorldEvent → Type 0
EventValid s e =
    (e.head ≤ s.head) × ((e.kind ≟ "") ≡ false) × (is_transaction e ≡ true → HasReceipt s e)

-- No receipt is named by two transaction events, nor by one and the list before them.
abbrev pub Unclaimed : List String → List WorldEvent → Type 0
Unclaimed claimed [] = Unit {0}
Unclaimed claimed (e ∷ es) =
    (is_transaction e ≡ true
      → (tx_id : String) × (text_field "tx_id" e ≡ some tx_id)
        × (mem_text tx_id claimed ≡ false)
        × Unclaimed (tx_id ∷ claimed) es)
    × (is_transaction e ≡ false → Unclaimed claimed es)

check_transaction_event-reads :
    (s : WorldState) (claimed : List String) (e : WorldEvent) {claimed' : List String}
    → check_transaction_event s claimed e ≡ ok claimed'
    → (tx_id : String) × (receipt : Receipt) × (from : String) × (nonce : ℕ) × (text_field "tx_id" e
        ≡ some tx_id)
      × (get tx_id s.receipts ≡ some receipt)
      × (text_field "from" e ≡ some from)
      × (and_then (get_field "nonce" e.payload) as_u64 ≡ some nonce)
      × ((receipt.from ≟ from) ≡ true)
      × (receipt.nonce ≡ nonce)
      × (mem_text tx_id claimed ≡ false)
      × (claimed' ≡ tx_id ∷ claimed)
unfolding check_transaction_event
check_transaction_event-reads s claimed e h = ground arith

check_transaction_event-HasReceipt :
    (s : WorldState) (claimed : List String) (e : WorldEvent) {claimed' : List String}
    → check_transaction_event s claimed e ≡ ok claimed'
    → HasReceipt s e
check_transaction_event-HasReceipt s claimed e h =
    let (tx_id, receipt, from, nonce, t, g, f, n, same_from, same_nonce, _, _) =
      check_transaction_event-reads s claimed e h in
    (
      tx_id,
      receipt,
      t,
      g,
      f ∙ ap some (sym ((≟_iff receipt.from from).0 same_from)),
      n ∙ ap some (sym same_nonce),
    )

-- What one round of the loop adds to the claimed receipts.
check_event_sound :
    (s : WorldState) (previous : ℕ) (claimed : List String) (e : WorldEvent)
    {claimed' : List String}
    → check_event s previous claimed e ≡ ok claimed'
    → (previous < e.id)
      × (e.head ≤ s.head)
      × ((e.kind ≟ "") ≡ false)
      × (is_transaction e ≡ true → check_transaction_event s claimed e ≡ ok claimed')
      × (is_transaction e ≡ false → claimed' ≡ claimed)
unfolding check_event check_kind
check_event_sound s previous claimed e h = ground arith

validate_events_from_sound :
    (s : WorldState) (previous : ℕ) (claimed : List String) (events : List WorldEvent)
    → validate_events_from s previous claimed events ≡ ok tt
    → Increasing previous events s.next_event_id
      × All (EventValid s) events
      × Unclaimed claimed events
unfolding validate_events_from
validate_events_from_sound s previous claimed [] h = ground arith
validate_events_from_sound s previous claimed (e ∷ events) h =
    let (claimed', round, rest) =
      >>=-eq-ok (check_event s previous claimed e) (λ c. validate_events_from s e.id c events) h in
    let (above, head, kind, tx, other) = check_event_sound s previous claimed e round in
    let (inc, valid, unclaimed) = validate_events_from_sound s e.id claimed' events rest in
    (
      (above, inc),
      ((head, kind, λ t. check_transaction_event-HasReceipt s claimed e (tx t)), valid),
      (
        λ t.
            let (tx_id, _, _, _, named, _, _, _, _, _, fresh, grown) =
              check_transaction_event-reads s claimed e (tx t) in
            (tx_id, named, fresh, subst (λ c. Unclaimed c events) grown unclaimed),
        λ t. subst (λ c. Unclaimed c events) (other t) unclaimed,
      ),
    )

-- A log that the validation accepts has ids that increase strictly from 1 on up to below
-- `next_event_id`; each event has a kind that is not empty and a head not above the world's; each
-- transaction event agrees with a receipt in sender and nonce, and no two name the same receipt.
pub validate_events_sound :
    (s : WorldState)
    → validate_events s ≡ ok tt
    → Increasing 0 s.events s.next_event_id × All (EventValid s) s.events × Unclaimed [] s.events
unfolding validate_events
validate_events_sound s h = validate_events_from_sound s 0 [] s.events h
