-- ===== src/Storage/Load.antt =====
-- src/storage.rs: `SnapshotStore::load_with_status` and `load`.
use aomori.Prelude.{false, Option, none, some, []}
use aomori.Result.{Result, ok, err}
use aomori.Model.{WorldState, genesis}
use aomori.External.{External}
use aomori.Storage.Disk.{Bytes, Disk, Io, primary, backup, at, ◌>>=◌, ◌>>◌, pure}
use aomori.Storage.Decode.{Codec, DecodedSnapshot}
use aomori.Storage.Save.{restore_primary, decode_file}

abbrev pub fresh : DecodedSnapshot
fresh = record {
  world = genesis;
  source_format_version = none;
  format_migrations = [];
  needs_rewrite = false;
}

module _ (ext : External) (codec : Codec) where
  -- The backup, which becomes the primary file again.
  unfoldable pub load_backup : Io DecodedSnapshot
  load_backup = do decoded ← decode_file ext codec backup; restore_primary; pure (ok decoded)

  abbrev pub load_missing : Option Bytes → Io DecodedSnapshot
  load_missing (some _) = load_backup
  load_missing none = pure (ok fresh)

  abbrev pub fall_back :
      Option Bytes → Result DecodedSnapshot × Disk → Result DecodedSnapshot × Disk
  fall_back backup_bytes (ok decoded, d) = (ok decoded, d)
  fall_back none (err primary_error, d) = (err primary_error, d)
  fall_back (some _) (err primary_error, d) = load_backup d

  -- By whether the primary file exists.
  abbrev pub load_from : Option Bytes → Io DecodedSnapshot
  load_from none d = load_missing (at backup d) d
  load_from (some _) d = fall_back (at backup d) (decode_file ext codec primary d)

  unfoldable pub load_with_status : Io DecodedSnapshot
  load_with_status d = load_from (at primary d) d

  unfoldable pub load : Io WorldState
  load = do loaded ← load_with_status; pure (ok loaded.world)
