-- ===== src/Runtime/Host/Call.antt =====
-- One call of a host function by a script, whichever it is. `narrate` adds to the messages of the
-- run, see `narration`.
use aomori.Prelude.{ℕ, String, List, [], ◌∷◌, ◌++◌}
use aomori.Result.{ok}
use aomori.Model.{WorldState}
use aomori.Runtime.{Outcome}
use aomori.Runtime.Host.{Context, HostCall, Reply, nothing}
use aomori.Runtime.Host.Reads.{get_entity, get_exit, get_inventory, quest_status, get_balance}
use aomori.Runtime.Host.Items.{take_item, drop_item, transfer_item}
use aomori.Runtime.Host.Entities.{
  move_actor, move_entity, spawn_entity, update_entity_data, emit_event, credit_balance,
}
use aomori.Runtime.Host.Quests.{accept_quest, complete_quest}

unfoldable pub call_host : (ℕ → ℕ) → Context → WorldState → HostCall → Outcome Reply
call_host f64_of ctx s (HostCall.get_entity id) = (ok (get_entity f64_of s id), s)
call_host f64_of ctx s (HostCall.get_exit z d) = (ok (get_exit s z d), s)
call_host f64_of ctx s (HostCall.move_actor a z) = move_actor ctx s a z
call_host f64_of ctx s (HostCall.take_item i) = take_item ctx s i
call_host f64_of ctx s (HostCall.drop_item i) = drop_item ctx s i
call_host f64_of ctx s (HostCall.transfer_item i t) = transfer_item ctx s i t
call_host f64_of ctx s (HostCall.get_inventory id) = (ok (get_inventory f64_of s id), s)
call_host f64_of ctx s (HostCall.move_entity e l) = move_entity ctx s e l
call_host f64_of ctx s (HostCall.spawn_entity k l d) = spawn_entity ctx s k l d
call_host f64_of ctx s (HostCall.update_entity_data e k v) = update_entity_data ctx s e k v
call_host f64_of ctx s (HostCall.emit_event k e d) = emit_event ctx s k e d
call_host f64_of ctx s (HostCall.quest_status q) = (ok (quest_status ctx s q), s)
call_host f64_of ctx s (HostCall.accept_quest q g) = accept_quest ctx s q g
call_host f64_of ctx s (HostCall.complete_quest q) = complete_quest ctx s q
call_host f64_of ctx s (HostCall.get_balance e) = (get_balance ctx s e, s)
call_host f64_of ctx s (HostCall.credit_balance n) = credit_balance ctx s n
call_host f64_of ctx s (HostCall.narrate m) = (ok nothing, s)

-- The messages after a call.
abbrev pub narration : HostCall → List String → List String
narration (HostCall.narrate m) messages = messages ++ m ∷ []
narration _ messages = messages
