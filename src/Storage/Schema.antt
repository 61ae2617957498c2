-- ===== src/Storage/Schema.antt =====
-- src/storage.rs: `validate_current_schema` with its parts, and the tests for the old schemas.
use aomori.Prelude.{
  String, Bool, false, ◌&&◌, ◌||◌, Option, none, some, List, [], ◌∷◌, text_key, ◌≟◌, is_some,
  is_none, and_then,
}
use aomori.Json.{
  Value, Fields, Items, object, array, end, field, nil, cons, get_field, find_field, as_str,
}
use aomori.Result.{
  Result, ok, ◌>>=◌, ◌>>◌, require, refuse_if, ok_or, missing_field, unknown_field,
  snapshot_not_an_object, state_not_an_object, legacy_inventory_in_current, entries_not_an_object,
  entry_not_an_object, entries_not_an_array,
}
use aomori.Model.Events.{mem_text}

-- `Value::as_object`
abbrev pub as_object : Value → Option Fields
as_object (object fs) = some fs
as_object _ = none

abbrev as_items : Value → Option Items
as_items (array vs) = some vs
as_items _ = none

-- The first loop: each name is a member.
unfoldable pub require_present : Fields → List String → Result (Unit {0})
require_present fs [] = ok tt
require_present fs (name ∷ names) =
    require (is_some (find_field name fs)) missing_field >> require_present fs names

-- The second loop: each member has one of the names.
unfoldable pub require_known : List String → Fields → Result (Unit {0})
require_known names end = ok tt
require_known names (field k v fs) =
    require (mem_text k names) unknown_field >> require_known names fs

unfoldable pub require_object_fields : Fields → List String → Result (Unit {0})
require_object_fields fs names = require_present fs names >> require_known names fs

unfoldable pub require_each_member : List String → Fields → Result (Unit {0})
require_each_member names end = ok tt
require_each_member names (field k entry fs) = do
  members ← ok_or (as_object entry) entry_not_an_object
  require_object_fields members names
  require_each_member names fs

unfoldable pub require_map_entry_fields : Option Value → List String → Result (Unit {0})
require_map_entry_fields entries names = do
  fs ← ok_or (and_then entries as_object) entries_not_an_object
  require_each_member names fs

unfoldable pub require_each_item : List String → Items → Result (Unit {0})
require_each_item names nil = ok tt
require_each_item names (cons entry vs) = do
  members ← ok_or (as_object entry) entry_not_an_object
  require_object_fields members names
  require_each_item names vs

unfoldable pub require_array_entry_fields : Option Value → List String → Result (Unit {0})
require_array_entry_fields entries names = do
  vs ← ok_or (and_then entries as_items) entries_not_an_array
  require_each_item names vs

-- `value.get("state").unwrap_or(value)`
abbrev pub state_or_self : Value → Value
state_or_self value = elim (get_field "state" value) [ none ↦ value | some state ↦ state ]

-- `value.as_object().map(|members| members.values().any(test)).unwrap_or(false)`
abbrev any_member : (Value → Bool) → Fields → Bool
any_member test end = false
any_member test (field k v fs) = test v || any_member test fs

abbrev any_entry : (Value → Bool) → Option Value → Bool
any_entry test (some (object fs)) = any_member test fs
any_entry test _ = false

abbrev is_text : String → Option String → Bool
is_text expected none = false
is_text expected (some t) = t ≟ expected

abbrev has_legacy_inventory : Value → Bool
has_legacy_inventory entity =
    is_text "actor" (and_then (get_field "kind" entity) as_str)
    && is_some (and_then (get_field "data" entity) (get_field "inventory"))

unfoldable pub actors_contain_legacy_inventory : Value → Bool
actors_contain_legacy_inventory value =
    any_entry has_legacy_inventory (get_field "entities" (state_or_self value))

unfoldable pub quest_definitions_missing_giver : Value → Bool
quest_definitions_missing_giver value =
    any_entry (λ quest. is_none (get_field "giver_entity_id" quest))
      (get_field "quests" (state_or_self value))

abbrev pub envelope_fields : List String
envelope_fields = "format_version" ∷ "state_root" ∷ "state" ∷ []

abbrev pub state_fields : List String
state_fields =
    "accounts" ∷ "entities" ∷ "contracts" ∷ "receipts" ∷ "quests" ∷ "quest_progress" ∷ "inventories"
    ∷ "events" ∷ "next_event_id" ∷ "next_entity_id" ∷ "head" ∷ []

-- The calls for the parts of the state.
unfoldable pub validate_entry_schemas : Fields → Result (Unit {0})
validate_entry_schemas state = do
  require_map_entry_fields (find_field "accounts" state)
      ("name" ∷ "public_key" ∷ "nonce" ∷ "balance" ∷ [])
  require_map_entry_fields (find_field "entities" state)
      ("id" ∷ "kind" ∷ "owner" ∷ "location" ∷ "contract" ∷ "data" ∷ [])
  require_map_entry_fields (find_field "contracts" state)
      ("name" ∷ "version" ∷ "source" ∷ "source_hash" ∷ "status" ∷ [])
  require_map_entry_fields (find_field "receipts" state)
      ("tx_id" ∷ "from" ∷ "nonce" ∷ "ok" ∷ "messages" ∷ "result" ∷ "state_root" ∷ [])
  require_map_entry_fields (find_field "quests" state) (
      "id" ∷ "title" ∷ "giver_entity_id" ∷ "prerequisite_quest_ids" ∷ "required_item"
      ∷ "completion_zone" ∷ "reward_balance" ∷ "consume_required_item" ∷ [])
  require_map_entry_fields (find_field "quest_progress" state)
      ("quest_id" ∷ "actor_id" ∷ "status" ∷ [])
  require_array_entry_fields (find_field "events" state)
      ("id" ∷ "head" ∷ "kind" ∷ "entity_id" ∷ "data" ∷ [])

unfoldable pub validate_current_schema : Value → Result (Unit {0})
validate_current_schema value = do
  envelope ← ok_or (as_object value) snapshot_not_an_object
  require_object_fields envelope envelope_fields
  state ← ok_or (and_then (find_field "state" envelope) as_object) state_not_an_object
  require_object_fields state state_fields
  refuse_if (actors_contain_legacy_inventory value) legacy_inventory_in_current
  validate_entry_schemas state
