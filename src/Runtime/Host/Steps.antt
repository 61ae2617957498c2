-- ===== src/Runtime/Host/Steps.antt =====
-- src/runtime.rs: each host function of `install` and the relation of Effects.
use aomori.Prelude.{
  ℕ, ◌≡◌, refl, ◌⊎◌, inl, inr, arith, String, Option, none, some, Option-cases, nat_key,
}
use aomori.Lua.{LuaValue}
use aomori.Map.{get}
use aomori.Model.{WorldState, Entity, EntityId}
use aomori.Runtime.World.{create_entity}
use aomori.Result.{ok}
use aomori.Runtime.Host.{Context, HostCall, Reply}
use aomori.Runtime.Host.Items.{take_item, drop_item, transfer_item}
use aomori.Runtime.Host.Entities.{
  move_actor, move_entity, spawn_entity, update_entity_data, emit_event, credit_balance,
}
use aomori.Runtime.Host.Quests.{accept_quest, complete_quest}
use aomori.Runtime.Host.Call.{call_host}
use aomori.Runtime.Host.Effects.{
  Walked, Relocated, Taken, Dropped, DroppedMissing, Transferred, Spawned, Updated, Emitted,
  Accepted, Credited, Completed, HostStep, idle, walked, relocated, taken, dropped, dropped_missing,
  transferred, spawned, updated, emitted, accepted_quest, completed_quest, credited,
}

module _ (ctx : Context) (s : WorldState) where
  take_item-Taken : (id : EntityId) → let t = (take_item ctx s id).1 in (t ≡ s) ⊎ Taken ctx s t id
  unfolding take_item
  take_item-Taken id = ground arith

  drop_item-Dropped :
      (id : EntityId) {e : Entity}
      → get id s.entities ≡ some e
      → let t = (drop_item ctx s id).1 in (t ≡ s) ⊎ Dropped ctx s t id
  unfolding drop_item
  drop_item-Dropped id found = ground arith

  drop_item-DroppedMissing :
      (id : EntityId)
      → get id s.entities ≡ none
      → let t = (drop_item ctx s id).1 in (t ≡ s) ⊎ DroppedMissing ctx s t id
  unfolding drop_item
  drop_item-DroppedMissing id missing = ground arith

  transfer_item-Transferred :
      (id target : EntityId)
      → let t = (transfer_item ctx s id target).1 in (t ≡ s) ⊎ Transferred ctx s t id target
  unfolding transfer_item
  transfer_item-Transferred id target = ground arith

  move_actor-Walked :
      (id zone : EntityId)
      → let t = (move_actor ctx s id zone).1 in (t ≡ s) ⊎ Walked ctx s t id zone
  unfolding move_actor
  move_actor-Walked id zone = ground arith

  move_entity-Relocated :
      (id location : EntityId)
      → let t = (move_entity ctx s id location).1 in (t ≡ s) ⊎ Relocated ctx s t id location
  unfolding move_entity
  move_entity-Relocated id location = ground arith

  spawn_entity-Spawned :
      (kind : String) (location : Option EntityId) (payload : LuaValue)
      → let t = (spawn_entity ctx s kind location payload).1 in
        (t ≡ s) ⊎ Spawned ctx s t kind location payload
  unfolding spawn_entity create_entity
  spawn_entity-Spawned kind location payload = ground arith

  update_entity_data-Updated :
      (id : EntityId) (key : String) (payload : LuaValue)
      → let t = (update_entity_data ctx s id key payload).1 in
        (t ≡ s) ⊎ Updated ctx s t id key payload
  unfolding update_entity_data
  update_entity_data-Updated id key payload = ground arith

  emit_event-Emitted :
      (kind : String) (id : Option EntityId) (payload : LuaValue)
      → let t = (emit_event ctx s kind id payload).1 in (t ≡ s) ⊎ Emitted ctx s t kind id payload
  unfolding emit_event
  emit_event-Emitted kind id payload = ground arith

  credit_balance-Credited :
      (credit : ℕ) → let t = (credit_balance ctx s credit).1 in (t ≡ s) ⊎ Credited ctx s t credit
  unfolding credit_balance
  credit_balance-Credited credit = ground arith

  accept_quest-Accepted :
      (quest_id : String) (giver : EntityId)
      → let t = (accept_quest ctx s quest_id giver).1 in (t ≡ s) ⊎ Accepted ctx s t quest_id
  unfolding accept_quest
  accept_quest-Accepted quest_id giver = ground arith

  complete_quest-Completed :
      (quest_id : String)
      → let t = (complete_quest ctx s quest_id).1 in (t ≡ s) ⊎ Completed ctx s t quest_id
  unfolding complete_quest
  complete_quest-Completed quest_id = ground arith

  -- A completion that succeeds has made its write.
  pub complete_quest_wrote :
      (quest_id : String) {r : Reply}
      → (complete_quest ctx s quest_id).0 ≡ ok r
      → Completed ctx s (complete_quest ctx s quest_id).1 quest_id
  unfolding complete_quest
  complete_quest_wrote quest_id done = ground arith

-- A world that is the same, or one that is written to.
step_of :
    {ctx : Context} {s t : WorldState} {W : Type 0}
    → (W → HostStep ctx s t)
    → (t ≡ s) ⊎ W
    → HostStep ctx s t
step_of f (inl same) = idle same
step_of f (inr write) = f write

-- Every host call is a step of the relation, whether it returns or fails.
pub call_host-HostStep :
    (f64_of : ℕ → ℕ) (ctx : Context) (s : WorldState) (c : HostCall)
    → HostStep ctx s (call_host f64_of ctx s c).1
unfolding call_host
call_host-HostStep f64_of ctx s (HostCall.get_entity id) = idle refl
call_host-HostStep f64_of ctx s (HostCall.get_exit z d) = idle refl
call_host-HostStep f64_of ctx s (HostCall.move_actor a z) =
    step_of (walked a z) (move_actor-Walked ctx s a z)
call_host-HostStep f64_of ctx s (HostCall.take_item i) = step_of (taken i) (take_item-Taken ctx s i)
call_host-HostStep f64_of ctx s (HostCall.drop_item i) = elim (Option-cases (get i s.entities)) [
  | inl missing ↦ step_of (dropped_missing i) (drop_item-DroppedMissing ctx s i missing)
  | inr (e, found) ↦ step_of (dropped i) (drop_item-Dropped ctx s i found)
]
call_host-HostStep f64_of ctx s (HostCall.transfer_item i t) =
    step_of (transferred i t) (transfer_item-Transferred ctx s i t)
call_host-HostStep f64_of ctx s (HostCall.get_inventory id) = idle refl
call_host-HostStep f64_of ctx s (HostCall.move_entity e l) =
    step_of (relocated e l) (move_entity-Relocated ctx s e l)
call_host-HostStep f64_of ctx s (HostCall.spawn_entity k l d) =
    step_of (spawned k l d) (spawn_entity-Spawned ctx s k l d)
call_host-HostStep f64_of ctx s (HostCall.update_entity_data e k v) =
    step_of (updated e k v) (update_entity_data-Updated ctx s e k v)
call_host-HostStep f64_of ctx s (HostCall.emit_event k e d) =
    step_of (emitted k e d) (emit_event-Emitted ctx s k e d)
call_host-HostStep f64_of ctx s (HostCall.quest_status q) = idle refl
call_host-HostStep f64_of ctx s (HostCall.accept_quest q g) =
    step_of (accepted_quest q) (accept_quest-Accepted ctx s q g)
call_host-HostStep f64_of ctx s (HostCall.complete_quest q) =
    step_of (completed_quest q) (complete_quest-Completed ctx s q)
call_host-HostStep f64_of ctx s (HostCall.get_balance e) = idle refl
call_host-HostStep f64_of ctx s (HostCall.credit_balance n) =
    step_of (credited n) (credit_balance-Credited ctx s n)
call_host-HostStep f64_of ctx s (HostCall.narrate m) = idle refl
