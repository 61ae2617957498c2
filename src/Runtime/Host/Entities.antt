-- ===== src/Runtime/Host/Entities.antt =====
-- `move_actor`, `move_entity`, `spawn_entity`, `update_entity_data`, `emit_event` and
-- `credit_balance`
use aomori.Prelude.{
  ℕ, String, true, Option, none, some, List, [], ◌∷◌, ◌++◌, text_key, nat_key, ◌≟◌, wrapping_add,
  checked_add, if◌then◌else◌,
}
use aomori.Map.{BTreeMap, get, contains_key, insert}
use aomori.Json.{Value, Fields, end, field, object}
use aomori.Lua.{LuaValue, lua_to_json}
use aomori.Result.{
  Result, ok, err, ◌>>=◌, ◌>>◌, require, refuse_if, ok_or, target_zone_not_found,
  target_is_not_a_zone, actor_not_found, entity_is_not_an_actor, entity_not_found,
  caller_is_not_the_entity_owner, location_not_found, unknown_entity_kind,
  entity_data_must_be_an_object, event_kind_must_not_be_empty, event_kind_is_reserved,
  event_entity_not_found, owner_account_not_found, balance_overflow,
}
use aomori.Model.{
  WorldState, EntityId, EntityKind, actor, zone, item, WorldEvent, is_zone, is_actor,
}
use aomori.Model.Events.{mem_text}
use aomori.Runtime.{Outcome, commit}
use aomori.Runtime.World.{create_entity}
use aomori.Runtime.Host.{Context, Reply, flag, amount, require_command, caller}
use aomori.Runtime.Host.Items.{place}

unfoldable pub move_actor : Context → WorldState → EntityId → EntityId → Outcome Reply
move_actor ctx s actor_id zone_id = commit s (do
  require_command ctx
  target ← ok_or (get zone_id s.entities) target_zone_not_found
  require (is_zone target.kind) target_is_not_a_zone
  moved ← ok_or (get actor_id s.entities) actor_not_found
  require (is_actor moved.kind) entity_is_not_an_actor
  ok (flag true, record s { entities = place actor_id moved target.id s.entities }))

unfoldable pub move_entity : Context → WorldState → EntityId → EntityId → Outcome Reply
move_entity ctx s entity_id location = commit s (do
  require_command ctx
  e ← caller ctx s
  target ← ok_or (get entity_id s.entities) entity_not_found
  require (target.owner ≟ e.owner) caller_is_not_the_entity_owner
  require (contains_key location s.entities) location_not_found
  ok (flag true, record s { entities = place entity_id target location s.entities }))

abbrev pub parse_kind : String → Result EntityKind
parse_kind kind =
    if kind ≟ "actor"
    then ok actor
    else if kind ≟ "zone"
    then ok zone
    else if kind ≟ "item"
    then ok item
    else err unknown_entity_kind

abbrev pub collect : Fields → BTreeMap String Value → BTreeMap String Value
collect end m = m
collect (field k v fs) m = collect fs (insert k v m)

abbrev pub object_entries : Value → Result (BTreeMap String Value)
object_entries (object fs) = ok (collect fs [])
object_entries _ = err entity_data_must_be_an_object

-- The checks of `spawn_entity` before `create_entity`: the kind, the data and the owner.
unfoldable pub spawn_checks :
    Context → WorldState → String → LuaValue → Result (EntityKind × BTreeMap String Value × String)
spawn_checks ctx s kind payload = do
  require_command ctx
  parsed ← parse_kind kind
  value ← lua_to_json payload
  attributes ← object_entries value
  e ← caller ctx s
  ok (parsed, attributes, e.owner)

abbrev reply_id : Outcome EntityId → Outcome Reply
reply_id (r, s) = (r >>= λ id. ok (amount id), s)

unfoldable pub spawn_entity :
    Context → WorldState → String → Option EntityId → LuaValue → Outcome Reply
unfolding spawn_checks
spawn_entity ctx s kind location payload = elim (spawn_checks ctx s kind payload) [
  | err e ↦ (err e, s)
  | ok (parsed, attributes, owner) ↦
      reply_id (create_entity s parsed owner none location attributes)
]

unfoldable pub update_entity_data :
    Context → WorldState → EntityId → String → LuaValue → Outcome Reply
update_entity_data ctx s id key payload = commit s (do
  require_command ctx
  value ← lua_to_json payload
  e ← caller ctx s
  target ← ok_or (get id s.entities) entity_not_found
  require (e.owner ≟ target.owner) caller_is_not_the_entity_owner
  let updated = record target { attributes = insert key value target.attributes }
  ok (flag true, record s { entities = insert id updated s.entities }))

-- The kinds that the runtime itself emits.
abbrev pub reserved_kinds : List String
reserved_kinds =
    "entity_changed" ∷ "quest_progress_changed" ∷ "command_executed" ∷ "transaction_executed" ∷ []

unfoldable pub emit_event :
    Context → WorldState → String → Option EntityId → LuaValue → Outcome Reply
emit_event ctx s kind entity_id payload = commit s (do
  require_command ctx
  refuse_if (kind ≟ "") event_kind_must_not_be_empty
  refuse_if (mem_text kind reserved_kinds) event_kind_is_reserved
  value ← lua_to_json payload
  require (elim entity_id [ none ↦ true | some id ↦ contains_key id s.entities ])
      event_entity_not_found
  let event : WorldEvent = record {
    id = s.next_event_id;
    head = s.head;
    kind = kind;
    entity_id = entity_id;
    payload = value;
  }
  ok (
    amount s.next_event_id,
    record s { next_event_id = wrapping_add s.next_event_id 1; events = s.events ++ event ∷ [] },
  ))

unfoldable pub credit_balance : Context → WorldState → ℕ → Outcome Reply
credit_balance ctx s credit = commit s (do
  require_command ctx
  e ← caller ctx s
  account ← ok_or (get e.owner s.accounts) owner_account_not_found
  balance ← ok_or (checked_add account.balance credit) balance_overflow
  ok (
    amount balance,
    record s { accounts = insert e.owner (record account { balance = balance }) s.accounts },
  ))
