-- ===== src/Tests/Server.antt =====
-- Requests to a server of the town.
use aomori.Prelude.{◌≡◌, ◌≤◌, ◌⊎◌, refl, none, some, [], List, ◌++◌}
use aomori.Json.{text, object, end, field}
use aomori.Result.{Error, ok, err, io_failed}
use aomori.Model.{WorldState, Receipt, WorldEvent}
use aomori.Model.Validate.{validate}
use aomori.Rpc.{AppState, Answer, Page, command_receipt, mutate_and_save}
use aomori.Rpc.Requests.{Request}
use aomori.Rpc.Methods.{open_account, submit_transaction}
use aomori.Rpc.Reads.{page_after}
use aomori.Rpc.Dispatch.{process_request}
use aomori.Rpc.Atomic.{mutate_and_save-atomic}
use aomori.Rpc.Valid.{process_request-atomic, process_request-validate, process_request-sent}
use aomori.Rpc.Authority.{Authority, process_request-Authority}
use aomori.Rpc.Paging.{events_after, page_after-continues}
use aomori.Tests.Data.{
  crypto, town, engine, derived, disk, broken_disk, server, request, wave_receipt,
}
use aomori.Tests.Model.{town-validate, town-validate_events}

abbrev open_bob : Request
open_bob = request "aomori_create_account" (object (field "name" (text "bob") end))

abbrev submit_wave : Request
submit_wave = request "aomori_submit_transaction" (object end)

mutate_and_save-atomic_example :
    let r = mutate_and_save disk server (open_account "bob" none 3) in
    ((e : Error) × (r.0 ≡ err e) × (r.1.world ≡ town))
    ⊎ ((a : Unit {0}) × (r.0 ≡ ok a)
        × (open_account "bob" none 3 town ≡ (ok a, r.1.world))
        × (validate crypto r.1.world ≡ ok tt))
mutate_and_save-atomic_example = mutate_and_save-atomic disk server (open_account "bob" none 3)

open_bob-fails :
    (process_request crypto broken_disk engine derived server (some "secret") open_bob).0
    ≡ err io_failed
unfolding aomori.Map.get aomori.Map.insert aomori.Text.quest_progress_key aomori.Text.contract_key
    aomori.Result.for_each aomori.Model.Events.check_kind aomori.Model.Events.check_event
    aomori.Model.Events.validate_events_from aomori.Model.Events.validate_events
    aomori.Model.Inventories.validate_inventories aomori.Model.Locations.validate_locations
    aomori.Model.Quests.check_prerequisites aomori.Model.Quests.check_quest
    aomori.Model.Quests.indegrees aomori.Model.Quests.add_dependents
    aomori.Model.Quests.dependents_from aomori.Model.Quests.ready_ids aomori.Model.Quests.relax
    aomori.Model.Quests.drain aomori.Model.Quests.validate_quests
    aomori.Model.References.check_public_key aomori.Model.References.validate_references
    aomori.Model.Validate.validate aomori.Storage.Save.save aomori.Storage.Save.read_previous
    aomori.Storage.Save.snapshot_bytes aomori.Storage.Save.replace_primary
    aomori.Storage.Disk.write_synced aomori.Storage.Schema.require_present
    aomori.Storage.Schema.require_known aomori.Storage.Schema.require_object_fields
    aomori.Storage.Schema.require_each_member aomori.Storage.Schema.require_map_entry_fields
    aomori.Storage.Schema.require_each_item aomori.Storage.Schema.require_array_entry_fields
    aomori.Storage.Schema.actors_contain_legacy_inventory
    aomori.Storage.Schema.validate_entry_schemas aomori.Storage.Schema.validate_current_schema
    aomori.Rpc.save_outcome aomori.Rpc.mutate_and_save aomori.Rpc.Dispatch.dispatch
    aomori.Rpc.Dispatch.authorize aomori.Rpc.Dispatch.process_request
    aomori.Rpc.Methods.open_account aomori.Rpc.Methods.create_account
open_bob-fails = refl

process_request-atomic_example :
    let r = process_request crypto broken_disk engine derived server (some "secret") open_bob in
    (r.1.world ≡ town) × (r.1.events ≡ [])
process_request-atomic_example =
    process_request-atomic crypto broken_disk engine derived server (some "secret") open_bob
      io_failed open_bob-fails

process_request-validate_example :
    validate crypto (process_request crypto disk engine derived server none submit_wave).1.world
    ≡ ok tt
process_request-validate_example =
    process_request-validate crypto disk engine derived server none submit_wave town-validate

process_request-sent_example :
    let r = process_request crypto disk engine derived server none submit_wave in
    (new : List WorldEvent) × (r.1.world.events ≡ town.events ++ new) × (r.1.events ≡ [] ++ new)
process_request-sent_example =
    process_request-sent crypto disk engine derived server none submit_wave

process_request-Authority_example :
    Authority crypto disk engine derived server none
      (object end)
      (process_request crypto disk engine derived server none submit_wave).1.world
process_request-Authority_example =
    process_request-Authority crypto disk engine derived server none submit_wave refl

submit_wave-succeeds :
    (submit_transaction crypto disk engine derived server (object end)).0
    ≡ ok (command_receipt wave_receipt)
unfolding aomori.Map.get aomori.Map.insert aomori.Map.remove aomori.Text.quest_progress_key
    aomori.Text.contract_key aomori.Result.for_each aomori.Model.Events.check_transaction_event
    aomori.Model.Events.check_entity_changed aomori.Model.Events.check_quest_progress_changed
    aomori.Model.Events.check_command_executed aomori.Model.Events.check_kind
    aomori.Model.Events.check_event aomori.Model.Events.validate_events_from
    aomori.Model.Events.validate_events aomori.Model.Inventories.validate_inventories
    aomori.Model.Locations.validate_locations aomori.Model.Quests.check_prerequisites
    aomori.Model.Quests.check_quest aomori.Model.Quests.indegrees aomori.Model.Quests.add_dependents
    aomori.Model.Quests.dependents_from aomori.Model.Quests.ready_ids aomori.Model.Quests.relax
    aomori.Model.Quests.drain aomori.Model.Quests.validate_quests
    aomori.Model.References.validate_hash aomori.Model.References.check_public_key
    aomori.Model.References.validate_references aomori.Model.Validate.validate
    aomori.Model.Validate.root aomori.Runtime.Changes.eq_entity aomori.Runtime.Changes.eq_progress
    aomori.Runtime.Changes.changed_keys aomori.Runtime.Changes.push_entity_changes
    aomori.Runtime.Changes.push_quest_change aomori.Runtime.Changes.push_quest_changes
    aomori.Runtime.Execute.contract_source aomori.Runtime.Execute.publish
    aomori.Runtime.Execute.receipt_of aomori.Runtime.Execute.finish
    aomori.Runtime.Execute.execute_internal aomori.Runtime.Execute.execute_with_limits
    aomori.Runtime.Host.Call.call_host aomori.Runtime.Host.Entities.emit_event
    aomori.Runtime.Host.Quests.complete_quest aomori.Runtime.Script.run_script
    aomori.Runtime.Transaction.transaction_signing_bytes aomori.Runtime.Transaction.verify_signature
    aomori.Runtime.Transaction.check_signature aomori.Runtime.Transaction.check_transaction
    aomori.Runtime.Transaction.settle aomori.Runtime.Transaction.settle_result
    aomori.Runtime.Transaction.execute_transaction_with_limits aomori.Runtime.World.push_event
    aomori.Storage.Save.save aomori.Storage.Save.read_previous aomori.Storage.Save.snapshot_bytes
    aomori.Storage.Save.replace_primary aomori.Storage.Save.keep_backup
    aomori.Storage.Save.sync_or_rollback aomori.Storage.Disk.write_synced aomori.Storage.Disk.rename
    aomori.Storage.Disk.sync_parent aomori.Storage.Schema.require_present
    aomori.Storage.Schema.require_known aomori.Storage.Schema.require_object_fields
    aomori.Storage.Schema.require_each_member aomori.Storage.Schema.require_map_entry_fields
    aomori.Storage.Schema.require_each_item aomori.Storage.Schema.require_array_entry_fields
    aomori.Storage.Schema.actors_contain_legacy_inventory
    aomori.Storage.Schema.validate_entry_schemas aomori.Storage.Schema.validate_current_schema
    aomori.Rpc.save_outcome aomori.Rpc.mutate_and_save aomori.Rpc.Methods.submitted
    aomori.Rpc.Methods.submit_transaction aomori.Lua.lua_to_json
submit_wave-succeeds = refl

page_after-continues_example :
    let page = page_after 0 1 town.events in
    (0 ≤ page.next)
    × (page.page_events ++ events_after page.next town.events ≡ events_after 0 town.events)
page_after-continues_example = page_after-continues town 0 1 town-validate_events
