-- ===== src/Storage/Recovery.antt =====
-- src/storage.rs: what `load` finds when the program starts again and nothing goes wrong.
use aomori.Prelude.{◌≡◌, true, Option, none, some, [], arith, inl, inr, Option-cases}
use aomori.Result.{Result, ok, err}
use aomori.Model.{WorldState, genesis}
use aomori.External.{External}
use aomori.Storage.Disk.{Bytes, Disk, primary, read, write_synced, rename, sync_parent}
use aomori.Storage.Decode.{Codec, DecodedSnapshot, decode_bytes}
use aomori.Storage.Save.{restore_primary, decode_file}
use aomori.Storage.Load.{load_backup, load_with_status, load}

-- The same files, for a program that starts.
abbrev pub reboot : Disk → Disk
reboot d = record d { faults = []; alive = true }

abbrev pub world_of : Result DecodedSnapshot → Result WorldState
world_of (ok decoded) = ok decoded.world
world_of (err e) = err e

abbrev pub or_else : Result DecodedSnapshot → Result DecodedSnapshot → Result WorldState
or_else (ok decoded) other = ok decoded.world
or_else (err e) other = world_of other

module _ (ext : External) (codec : Codec) where
  unfoldable pub recover : Disk → Result WorldState
  recover d = (load ext codec (reboot d)).0

  -- The world of the primary file if it decodes, else of the backup; the genesis if there is none.
  abbrev pub recoverable : Option Bytes → Option Bytes → Result WorldState
  recoverable none none = ok genesis
  recoverable none (some b) = world_of (decode_bytes ext codec b)
  recoverable (some p) none = world_of (decode_bytes ext codec p)
  recoverable (some p) (some b) = or_else (decode_bytes ext codec p) (decode_bytes ext codec b)

  restores :
      (d : Disk) (b : Bytes) → d.backup_file ≡ some b → (restore_primary (reboot d)).0 ≡ ok tt
  unfolding restore_primary read write_synced rename sync_parent
  restores d b h = ground arith

  load_backup_lem :
      (d : Disk) (b : Bytes)
      → d.backup_file ≡ some b
      → (load_backup ext codec (reboot d)).0 ≡ decode_bytes ext codec b
  unfolding load_backup decode_file read
  load_backup_lem d b h = ground (arith, restores d b h)

  decode_rebooted :
      (d : Disk) (p : Bytes)
      → d.primary_file ≡ some p
      → decode_file ext codec primary (reboot d) ≡ (decode_bytes ext codec p, reboot d)
  unfolding decode_file read
  decode_rebooted d p h = ground arith

  -- A start without faults finds the world of the primary file if it decodes, else that of the
  -- backup, and the genesis only if there is neither; a backup is never used in place of a primary
  -- file that decodes, and a file that does not decode is never taken for the genesis.
  pub recover_lem : (d : Disk) → recover d ≡ recoverable d.primary_file d.backup_file
  unfolding recover load load_with_status
  recover_lem d = elim (Option-cases d.primary_file) [
    | inl no_primary ↦ elim (Option-cases d.backup_file) [
      | inl no_backup ↦ ground (arith, no_primary, no_backup)
      | inr (b, has_b) ↦ ground (arith, no_primary, has_b, load_backup_lem d b has_b)
    ]
    | inr (p, has_p) ↦ elim (Option-cases d.backup_file) [
      | inl no_backup ↦ ground (arith, has_p, no_backup, decode_rebooted d p has_p)
      | inr (b, has_b) ↦
          ground (arith, has_p, has_b, decode_rebooted d p has_p, load_backup_lem d b has_b)
    ]
  ]
