-- ===== src/Storage/Save.antt =====
-- src/storage.rs: `SnapshotStore::save`, `rollback_primary` and `restore_file`.
use aomori.Prelude.{Bool, true, false, Option, none, some}
use aomori.Result.{Result, ok, err, ok_or, serialization, ◌>>=◌ as and_then}
use aomori.Model.{WorldState}
use aomori.Model.Validate.{validate, root}
use aomori.External.{External}
use aomori.Storage.Disk.{
  Bytes, Disk, Io, File, primary, temporary, backup_temporary, backup, restore_temporary,
  rollback_temporary, at, ◌>>=◌, ◌>>◌, pure, read, write_synced, rename, remove_file, sync_parent,
  ignore, or_clean,
}
use aomori.Storage.Schema.{validate_current_schema}
use aomori.Storage.Formats.{format_version}
use aomori.Storage.Decode.{Snapshot, Codec, DecodedSnapshot, decode_bytes}

-- `restore_file(primary, backup)`
unfoldable pub restore_primary : Io (Unit {0})
restore_primary =
    or_clean
      (do
        bytes ← read backup
        write_synced restore_temporary bytes
        rename restore_temporary primary
        sync_parent)
      (ignore (remove_file restore_temporary))

-- `if target.exists() { fs::remove_file(target)? }`
abbrev pub remove_if : Option Bytes → Io (Unit {0})
remove_if none = pure (ok tt)
remove_if (some _) = remove_file primary

unfoldable pub remove_primary : Io (Unit {0})
remove_primary d = remove_if (at primary d) d

unfoldable pub rollback_primary : Option Bytes → Io (Unit {0})
rollback_primary (some bytes) =
    or_clean
      (do write_synced rollback_temporary bytes; rename rollback_temporary primary; sync_parent)
      (ignore (remove_file rollback_temporary))
rollback_primary none = do remove_primary; sync_parent

abbrev pub undo : Option Bytes → Result (Unit {0}) × Disk → Result (Unit {0}) × Disk
undo previous (ok _, d) = (ok tt, d)
undo previous (err e, d) = (rollback_primary previous >> pure (err e)) d

-- The sync behind the new primary; when it fails, the old one comes back.
unfoldable pub sync_or_rollback : Option Bytes → Io (Unit {0})
sync_or_rollback previous d = undo previous (sync_parent d)

-- `if path.exists() { Some(fs::read(path)?) } else { None }`
abbrev pub read_if : Option Bytes → Io (Option Bytes)
read_if none = pure (ok none)
read_if (some _) = do bytes ← read primary; pure (ok (some bytes))

unfoldable pub read_previous : Io (Option Bytes)
read_previous d = read_if (at primary d) d

abbrev pub is_ok {ℓ} : {A : Type ℓ} → Result A × Disk → Result Bool × Disk
is_ok (ok _, d) = (ok true, d)
is_ok (err _, d) = (ok false, d)

module _ (ext : External) (codec : Codec) where
  -- `decode` of a file
  unfoldable pub decode_file : File → Io DecodedSnapshot
  decode_file f = do bytes ← read f; pure (decode_bytes ext codec bytes)

  -- What a world is saved as.
  unfoldable pub snapshot_bytes : WorldState → Result Bytes
  snapshot_bytes state =
      let snapshot : Snapshot = record {
        version = format_version;
        state_root = root ext state;
        state = state;
      } in
      and_then (ok_or (codec.snapshot_value snapshot) serialization) λ value.
        and_then (validate_current_schema value) λ _. ok_or (codec.print value) serialization

  -- `decode(&self.path).is_ok()`
  unfoldable pub primary_decodes : Io Bool
  primary_decodes d = is_ok (decode_file primary d)

  unfoldable pub backup_primary : Io (Unit {0})
  backup_primary = do
    bytes ← read primary
    write_synced backup_temporary bytes
    rename backup_temporary backup
    sync_parent

  abbrev pub backup_if : Bool → Io (Unit {0})
  backup_if true = backup_primary
  backup_if false = pure (ok tt)

  -- `if previous.is_some() && decode(&self.path).is_ok() { ... }`
  unfoldable pub keep_backup : Option Bytes → Io (Unit {0})
  keep_backup none = pure (ok tt)
  keep_backup (some _) = do good ← primary_decodes; backup_if good

  -- The closure of `save`, and the removals behind its error.
  unfoldable pub replace_primary : Option Bytes → Bytes → Io (Unit {0})
  replace_primary previous bytes =
      or_clean
        (do
          write_synced temporary bytes
          keep_backup previous
          rename temporary primary
          sync_or_rollback previous)
        (do ignore (remove_file temporary); ignore (remove_file backup_temporary))

  unfoldable pub save : WorldState → Io (Unit {0})
  save state = do
    pure (validate ext state)
    previous ← read_previous
    bytes ← pure (snapshot_bytes state)
    replace_primary previous bytes
