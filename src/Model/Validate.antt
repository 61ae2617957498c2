-- ===== src/Model/Validate.antt =====
-- src/model.rs: `WorldState::validate` and `WorldState::root`
use aomori.Prelude.{String, []}
use aomori.Result.{Result, ◌>>◌}
use aomori.Model.{WorldState}
use aomori.Model.Events.{validate_events}
use aomori.Model.References.{validate_references}
use aomori.Model.Locations.{validate_locations}
use aomori.Model.Quests.{validate_quests}
use aomori.Model.Inventories.{validate_inventories}
use aomori.External.{External}

module _ (ext : External) where
  open ext use {hash_bytes, world_bytes}

  unfoldable pub validate : WorldState → Result (Unit {0})
  validate s = do
    validate_references ext s
    validate_events s
    validate_locations s
    validate_quests s
    validate_inventories s

  -- The receipts do not count for the root.
  unfoldable pub root : WorldState → String
  root s = hash_bytes (world_bytes (record s { receipts = [] }))
