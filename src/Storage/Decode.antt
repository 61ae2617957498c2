-- ===== src/Storage/Decode.antt =====
-- src/storage.rs: `decode`, from the bytes of a file to a world.
use aomori.Prelude.{
  ℕ, ◌^◌, String, Bool, true, false, not, ◌&&◌, Option, none, some, List, [], ◌==◌, ltb, text_key,
  ◌≟◌, and_then, if◌then◌else◌,
}
use aomori.Json.{Value, get_field, as_u64}
use aomori.Result.{
  Result, ok, ◌>>=◌, ◌>>◌, require, ok_or, snapshot_not_json, world_not_readable,
  format_version_invalid, state_root_mismatch,
}
use aomori.Model.{WorldState}
use aomori.Model.References.{validate_references}
use aomori.Model.Events.{validate_events}
use aomori.Model.Locations.{validate_locations}
use aomori.Model.Quests.{validate_quests}
use aomori.Model.Inventories.{validate_inventories}
use aomori.Model.Validate.{validate, root}
use aomori.External.{External}
use aomori.Storage.Disk.{Bytes}
use aomori.Storage.Schema.{
  validate_current_schema, actors_contain_legacy_inventory, quest_definitions_missing_giver,
}
use aomori.Storage.Formats.{
  FormatMigration, legacy_format_version, format_version, format_migration_path,
}

pub record Snapshot : Type 0 where
  pub version : ℕ
  pub state_root : String
  pub state : WorldState

-- serde_json::from_slice and to_vec_pretty, and the derived deserializers and serializer.
pub record Codec : Type 0 where
  pub parse : Bytes → Option Value
  pub print : Value → Option Bytes
  pub snapshot_value : Snapshot → Option Value
  pub snapshot_of : Value → Option Snapshot
  pub world_of : Value → Option WorldState

-- `DecodedSnapshot`, also `LoadedSnapshot`
pub record DecodedSnapshot : Type 0 where
  pub world : WorldState
  pub source_format_version : Option ℕ
  pub format_migrations : List FormatMigration
  pub needs_rewrite : Bool

-- `u32::try_from(version).ok().filter(|version| *version > 0)`
abbrev positive_u32 : ℕ → Option ℕ
positive_u32 n = if ltb 0 n && ltb n (2 ^ 32) then some n else none

-- `if test { check }`
abbrev check_if : Bool → Result (Unit {0}) → Result (Unit {0})
check_if true check = check
check_if false check = ok tt

module _ (ext : External) (codec : Codec) where
  unfoldable pub validate_legacy_state : WorldState → Bool → Bool → Result (Unit {0})
  validate_legacy_state state legacy_quest_schema legacy_inventory_schema = do
    validate_references ext state
    validate_events state
    validate_locations state
    check_if (not legacy_quest_schema) (validate_quests state)
    check_if (not legacy_inventory_schema) (validate_inventories state)

  -- A world without an envelope.
  unfoldable pub decode_bare : Value → Result DecodedSnapshot
  decode_bare value = do
    state ← ok_or (codec.world_of value) world_not_readable
    validate_legacy_state state (quest_definitions_missing_giver value)
        (actors_contain_legacy_inventory value)
    ok (record {
      world = state;
      source_format_version = none;
      format_migrations = [];
      needs_rewrite = true;
    })

  -- The world of an envelope, checked by the rules of its version.
  unfoldable pub check_snapshot : Value → Snapshot → Result (Unit {0})
  check_snapshot value snapshot = do
    require (snapshot.state_root ≟ root ext snapshot.state) state_root_mismatch
    elim (snapshot.version == legacy_format_version) [
      | true ↦
          validate_legacy_state snapshot.state (quest_definitions_missing_giver value)
            (actors_contain_legacy_inventory value)
      | false ↦ validate ext snapshot.state
    ]

  unfoldable pub decode_versioned : Value → Result DecodedSnapshot
  decode_versioned value = do
    version ←
        ok_or (and_then (and_then (get_field "format_version" value) as_u64) positive_u32)
          format_version_invalid
    migrations ← format_migration_path version format_version
    check_if (version == format_version) (validate_current_schema value)
    snapshot ← ok_or (codec.snapshot_of value) world_not_readable
    check_snapshot value snapshot
    ok (record {
      world = snapshot.state;
      source_format_version = some snapshot.version;
      format_migrations = migrations;
      needs_rewrite = not (snapshot.version == format_version);
    })

  unfoldable pub decode_value : Value → Result DecodedSnapshot
  decode_value value = elim (get_field "format_version" value) [
    | none ↦ decode_bare value
    | some _ ↦ decode_versioned value
  ]

  -- `decode`, behind the read of the file.
  unfoldable pub decode_bytes : Bytes → Result DecodedSnapshot
  decode_bytes bytes = ok_or (codec.parse bytes) snapshot_not_json >>= decode_value
