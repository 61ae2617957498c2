-- ===== src/Runtime/Execute.antt =====
-- `execute_internal`, `execute_with_limits` and `execute_ledger_command`
pub mod Publish
pub mod Announced
pub mod Runs
pub mod Growth
use Prim.Native.String.{◌++◌}
use aomori.Prelude.{
  ℕ, String, Bool, true, false, Option, none, some, List, [], ◌∷◌, nat_key, text_key, wrapping_add,
  if◌then◌else◌,
}
use aomori.Map.{BTreeMap, get}
use aomori.Json.{Value, text, object, end, field}
use aomori.Lua.{LuaValue, json_to_lua, lua_to_json}
use aomori.Result.{
  Error, Result, ok, err, ◌>>=◌, ◌>>◌, ok_or, entity_not_found, entity_has_no_contract,
  contract_not_found,
}
use aomori.Model.{WorldState, Entity, EntityId, Receipt}
use aomori.Model.Validate.{root}
use aomori.External.{External}
use aomori.Runtime.{Outcome}
use aomori.Runtime.World.{push_event}
use aomori.Runtime.Host.{Context}
use aomori.Runtime.Script.{Script, LuaLimits, Engine, Ran, run_script, default_limits}
use aomori.Runtime.Changes.{
  changed_keys, eq_entity, eq_progress, push_entity_changes, push_quest_changes,
}

-- The source of the contract of an entity.
unfoldable pub contract_source : WorldState → EntityId → Result String
contract_source s entity_id = do
  entity ← ok_or (get entity_id s.entities) entity_not_found
  contract_name ← ok_or entity.contract entity_has_no_contract
  contract ← ok_or (get contract_name s.contracts) contract_not_found
  ok contract.source

abbrev pub function_name : Bool → String → String
function_name command action = (if command then "command" else "query") ++ ("_" ++ action)

-- A command that ran: the world of the script, one more head, and the events for what changed.
unfoldable pub publish : WorldState → WorldState → EntityId → String → WorldState
publish original next entity_id action =
    let s = record next { head = wrapping_add next.head 1 } in
    let s1 = push_entity_changes original s (changed_keys eq_entity original.entities s.entities) in
    let s2 =
      push_quest_changes s1 (changed_keys eq_progress original.quest_progress s1.quest_progress) in
    push_event s2 "command_executed" (some entity_id) (object (field "action" (text action) end))

module _ (ext : External) (engine : Engine) where
  open engine use {f64_of, run}

  unfoldable pub receipt_of : WorldState → List String → Value → Receipt
  receipt_of s messages result = record {
    tx_id = "";
    from = "";
    nonce = 0;
    succeeded = true;
    messages = messages;
    result = result;
    state_root = root ext s;
  }

  -- After the run: the result is converted when the world is already written.
  unfoldable pub finish : WorldState → EntityId → String → Bool → Ran → Outcome Receipt
  finish original entity_id action command (err e, next, messages) = (err e, original)
  finish original entity_id action command (ok v, next, messages) =
      let s = if command then publish original next entity_id action else original in
      (lua_to_json v >>= λ result. ok (receipt_of s messages result), s)

  unfoldable pub execute_internal :
      WorldState → EntityId → String → Value → Bool → LuaLimits → Bool → Outcome Receipt
  execute_internal s entity_id action args command limits ledger =
      elim (contract_source s entity_id) [
        | err e ↦ (err e, s)
        | ok source ↦ finish s entity_id action command (
            run_script f64_of (record { entity_id = entity_id; command = command })
              (run limits ledger source (function_name command action) entity_id
                (json_to_lua f64_of args))
              s [])
      ]

  unfoldable pub execute_with_limits :
      WorldState → EntityId → String → Value → Bool → LuaLimits → Outcome Receipt
  execute_with_limits s entity_id action args command limits =
      execute_internal s entity_id action args command limits false

  unfoldable pub execute_with_limit :
      WorldState → EntityId → String → Value → Bool → ℕ → Outcome Receipt
  execute_with_limit s entity_id action args command instruction_limit =
      execute_with_limits s entity_id action args command
        (record default_limits { instruction_limit = instruction_limit })

  unfoldable pub execute : WorldState → EntityId → String → Value → Bool → Outcome Receipt
  execute s entity_id action args command =
      execute_with_limits s entity_id action args command default_limits

  unfoldable pub execute_ledger_command :
      WorldState → EntityId → String → Value → LuaLimits → Outcome Receipt
  execute_ledger_command s entity_id action args limits =
      execute_internal s entity_id action args true limits true
