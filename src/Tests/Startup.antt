-- ===== src/Tests/Startup.antt =====
-- Starts of the server.
use aomori.Prelude.{◌≡◌, refl, arith, some, [], ◌∷◌, true, false}
use aomori.Result.{ok}
use aomori.Model.{genesis}
use aomori.Model.Validate.{validate}
use aomori.Storage.Disk.{Disk}
use aomori.Storage.Recovery.{recover}
use aomori.Demo.Upgrade.{ensure_current}
use aomori.Demo.Named.{HasRoom}
use aomori.Demo.Quests.{HasQuests}
use aomori.Demo.Current.{ensure_current-HasQuests}
use aomori.Startup.{load_world}
use aomori.Startup.Loaded.{load_world-recover}
use aomori.Tests.Data.{crypto, town, codec, stored, disk_with}
use aomori.Tests.Storage.{stored-fits, town-snapshot}

-- The primary file does not decode, the backup does.
abbrev damaged : Disk
damaged = disk_with (some []) (some (2 ∷ [])) []

damaged-loads : (load_world crypto codec "code" false damaged).0 ≡ ok town
unfolding aomori.Map.get aomori.Map.insert aomori.Migration.collect_actors
    aomori.Migration.collect_legacy_inventories aomori.Migration.migrated
    aomori.Migration.migrate_legacy_inventories aomori.Model.Events.check_kind
    aomori.Model.Events.check_event aomori.Model.Events.validate_events_from
    aomori.Model.Events.validate_events aomori.Model.Inventories.validate_inventories
    aomori.Model.Locations.validate_locations aomori.Model.Quests.check_prerequisites
    aomori.Model.Quests.check_quest aomori.Model.Quests.indegrees aomori.Model.Quests.add_dependents
    aomori.Model.Quests.dependents_from aomori.Model.Quests.ready_ids aomori.Model.Quests.relax
    aomori.Model.Quests.drain aomori.Model.Quests.validate_quests
    aomori.Model.References.check_public_key aomori.Model.References.validate_references
    aomori.Model.Validate.validate aomori.Model.Validate.root aomori.Result.for_each
    aomori.Startup.prepare_world aomori.Startup.load_world aomori.Storage.Decode.check_snapshot
    aomori.Storage.Decode.decode_versioned aomori.Storage.Decode.decode_value
    aomori.Storage.Decode.decode_bytes aomori.Storage.Disk.read aomori.Storage.Disk.write_synced
    aomori.Storage.Disk.rename aomori.Storage.Disk.sync_parent
    aomori.Storage.Formats.format_migration_path aomori.Storage.Load.load_backup
    aomori.Storage.Load.load_with_status aomori.Storage.Save.restore_primary
    aomori.Storage.Save.decode_file aomori.Storage.Schema.require_present
    aomori.Storage.Schema.require_known aomori.Storage.Schema.require_object_fields
    aomori.Storage.Schema.require_each_member aomori.Storage.Schema.require_map_entry_fields
    aomori.Storage.Schema.require_each_item aomori.Storage.Schema.require_array_entry_fields
    aomori.Storage.Schema.actors_contain_legacy_inventory
    aomori.Storage.Schema.validate_entry_schemas aomori.Storage.Schema.validate_current_schema
    aomori.Text.quest_progress_key aomori.Text.contract_key
damaged-loads = refl

load_world-recover_example :
    (validate crypto town ≡ ok tt)
    × (recover crypto codec (load_world crypto codec "code" false damaged).1 ≡ ok town)
load_world-recover_example =
    load_world-recover crypto codec "code" town (1 ∷ []) stored refl refl refl refl town-snapshot
      damaged stored-fits damaged-loads

demo-starts : (ensure_current crypto "code" genesis).0 ≡ ok true
unfolding aomori.Demo.Initialize.create_zone aomori.Demo.Initialize.set_exits
    aomori.Demo.Initialize.initialize aomori.Demo.Upgrade.ensure_current aomori.Map.get
    aomori.Map.insert aomori.Map.replace aomori.Model.Events.validate_events_from
    aomori.Model.Events.validate_events aomori.Model.Inventories.validate_inventories
    aomori.Model.Locations.validate_locations aomori.Model.Quests.check_prerequisites
    aomori.Model.Quests.check_quest aomori.Model.Quests.indegrees aomori.Model.Quests.add_dependents
    aomori.Model.Quests.dependents_from aomori.Model.Quests.ready_ids aomori.Model.Quests.relax
    aomori.Model.Quests.drain aomori.Model.Quests.validate_quests
    aomori.Model.References.validate_references aomori.Model.Validate.validate
    aomori.Result.for_each aomori.Runtime.World.deploy aomori.Runtime.World.create_entity
    aomori.Text.contract_key
demo-starts = refl

genesis-HasRoom : HasRoom 8 genesis
unfolding aomori.Map.get aomori.Map.insert
genesis-HasRoom = record { free = λ _ _. refl; room = omega arith }

ensure_current-HasQuests_example : HasQuests (ensure_current crypto "code" genesis).1
ensure_current-HasQuests_example =
    ensure_current-HasQuests crypto "code" genesis true genesis-HasRoom demo-starts
