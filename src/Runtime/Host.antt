-- ===== src/Runtime/Host.antt =====
-- The host functions that `install` gives to a script: their calls, replies and shared parts.
pub mod Reads
pub mod Items
pub mod Entities
pub mod Quests
pub mod Call
pub mod Effects
pub mod Steps
use aomori.Prelude.{
  ℕ, String, Bool, true, false, not, Option, none, some, List, [], ◌∷◌, nat_key, is_some, ◌==◌,
  ◌||◌,
}
use aomori.Map.{get, BTreeMap}
use aomori.Json.{Value}
use aomori.Lua.{LuaValue}
use aomori.Result.{
  Error, Result, ok, err, ◌>>=◌, ok_or, refuse_if, query_is_read_only, caller_entity_not_found,
}
use aomori.Model.{WorldState, Entity, EntityId}

-- The fields of `Context` that are the same for the whole call.
pub record Context : Type 0 where
  pub entity_id : EntityId
  pub command : Bool

pub data HostCall : Type 0 where
  get_entity : EntityId → HostCall
  get_exit : EntityId → String → HostCall
  move_actor : EntityId → EntityId → HostCall
  take_item : EntityId → HostCall
  drop_item : EntityId → HostCall
  transfer_item : EntityId → EntityId → HostCall
  get_inventory : EntityId → HostCall
  move_entity : EntityId → EntityId → HostCall
  spawn_entity : String → Option EntityId → LuaValue → HostCall
  update_entity_data : EntityId → String → LuaValue → HostCall
  emit_event : String → Option EntityId → LuaValue → HostCall
  quest_status : String → HostCall
  accept_quest : String → EntityId → HostCall
  complete_quest : String → HostCall
  get_balance : EntityId → HostCall
  credit_balance : ℕ → HostCall
  narrate : String → HostCall

-- What a host function returns to Lua, by its Rust type.
pub data Reply : Type 0 where
  lua_reply : LuaValue → Reply
  flag : Bool → Reply
  amount : ℕ → Reply
  maybe_id : Option ℕ → Reply
  word : String → Reply
  nothing : Reply

-- `if !ctx.command { return Err("query is read-only") }`
abbrev pub require_command : Context → Result (Unit {0})
require_command ctx = elim ctx.command [ true ↦ ok tt | false ↦ err query_is_read_only ]

-- The entity whose contract runs.
abbrev pub caller : Context → WorldState → Result Entity
caller ctx s = ok_or (get ctx.entity_id s.entities) caller_entity_not_found

abbrev pub same_location : Option EntityId → Option EntityId → Bool
same_location none none = true
same_location (some a) (some b) = a == b
same_location _ _ = false

abbrev pub inventory_of : EntityId → WorldState → List EntityId
inventory_of id s = elim (get id s.inventories) [ none ↦ [] | some ids ↦ ids ]
