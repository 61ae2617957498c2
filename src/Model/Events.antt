-- ===== src/Model/Events.antt =====
-- src/model.rs: `WorldState::validate_events`
use aomori.Prelude.{
  ℕ, String, Bool, false, ◌||◌, ◌&&◌, not, Option, none, some, List, [], ◌∷◌, leb, ltb, ◌==◌,
  text_key, ◌≟◌, if◌then◌else◌, is_none, and_then,
}
use aomori.Map.{get}
use aomori.Json.{get_field, as_str, as_u64}
use aomori.Result.{
  Result, ok, ◌>>=◌, ◌>>◌, require, refuse_if, ok_or, event_ids_not_increasing,
  event_head_exceeds_world_head, event_kind_empty, transaction_event_missing_tx_id,
  transaction_event_missing_from, transaction_event_missing_nonce,
  transaction_event_receipt_missing, transaction_event_receipt_mismatch,
  duplicate_transaction_event, entity_changed_missing_entity_id, entity_changed_invalid_change,
  quest_progress_missing_actor, quest_progress_missing_quest_id, quest_progress_invalid_status,
  command_event_missing_entity_id, command_event_missing_action, next_event_id_not_greater,
}
use aomori.Model.{WorldState, WorldEvent}

abbrev pub mem_text : String → List String → Bool
mem_text k [] = false
mem_text k (x ∷ xs) = x ≟ k || mem_text k xs

-- `.and_then(Value::as_str)` of a member, and the same if it is not empty
abbrev pub text_field : String → WorldEvent → Option String
text_field key event = and_then (get_field key event.payload) as_str

abbrev pub has_text : String → WorldEvent → Bool
has_text key event = elim (text_field key event) [ none ↦ false | some s ↦ not (s ≟ "") ]

abbrev pub text_is_one_of : List String → Option String → Bool
text_is_one_of allowed none = false
text_is_one_of allowed (some s) = mem_text s allowed

-- The arm of a transaction: its receipt exists, agrees, and is not claimed twice. The result is the
-- set of receipts claimed so far.
unfoldable pub check_transaction_event :
    WorldState → List String → WorldEvent → Result (List String)
check_transaction_event s claimed event = do
  tx_id ← ok_or (text_field "tx_id" event) transaction_event_missing_tx_id
  from ← ok_or (text_field "from" event) transaction_event_missing_from
  nonce ← ok_or (and_then (get_field "nonce" event.payload) as_u64) transaction_event_missing_nonce
  receipt ← ok_or (get tx_id s.receipts) transaction_event_receipt_missing
  require (receipt.from ≟ from && receipt.nonce == nonce) transaction_event_receipt_mismatch
  refuse_if (mem_text tx_id claimed) duplicate_transaction_event
  ok (tx_id ∷ claimed)

unfoldable pub check_entity_changed : WorldEvent → Result (Unit {0})
check_entity_changed event = do
  refuse_if (is_none event.entity_id) entity_changed_missing_entity_id
  require (text_is_one_of ("created" ∷ "updated" ∷ "deleted" ∷ []) (text_field "change" event))
      entity_changed_invalid_change

unfoldable pub check_quest_progress_changed : WorldEvent → Result (Unit {0})
check_quest_progress_changed event = do
  refuse_if (is_none event.entity_id) quest_progress_missing_actor
  require (has_text "quest_id" event) quest_progress_missing_quest_id
  require (text_is_one_of ("accepted" ∷ "completed" ∷ []) (text_field "status" event))
      quest_progress_invalid_status

unfoldable pub check_command_executed : WorldEvent → Result (Unit {0})
check_command_executed event = do
  refuse_if (is_none event.entity_id) command_event_missing_entity_id
  require (has_text "action" event) command_event_missing_action

-- The `match` on the kind.
unfoldable pub check_kind : WorldState → List String → WorldEvent → Result (List String)
check_kind s claimed event =
    if event.kind ≟ "transaction_executed"
    then check_transaction_event s claimed event
    else if event.kind ≟ "entity_changed"
    then (check_entity_changed event >> ok claimed)
    else if event.kind ≟ "quest_progress_changed"
    then (check_quest_progress_changed event >> ok claimed)
    else if event.kind ≟ "command_executed"
    then (check_command_executed event >> ok claimed)
    else ok claimed

-- One round of the loop, from the previous id and the receipts claimed so far.
unfoldable pub check_event : WorldState → ℕ → List String → WorldEvent → Result (List String)
check_event s previous_id claimed event = do
  refuse_if (event.id == 0 || leb event.id previous_id) event_ids_not_increasing
  refuse_if (ltb s.head event.head) event_head_exceeds_world_head
  refuse_if (event.kind ≟ "") event_kind_empty
  check_kind s claimed event

unfoldable pub validate_events_from :
    WorldState → ℕ → List String → List WorldEvent → Result (Unit {0})
validate_events_from s previous_id claimed [] =
    refuse_if (s.next_event_id == 0 || leb s.next_event_id previous_id) next_event_id_not_greater
validate_events_from s previous_id claimed (event ∷ events) =
    check_event s previous_id claimed event >>= λ claimed'.
    validate_events_from s event.id claimed' events

unfoldable pub validate_events : WorldState → Result (Unit {0})
validate_events s = validate_events_from s 0 [] s.events
