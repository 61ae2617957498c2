-- ===== src/Storage/Progress.antt =====
-- src/storage.rs: a save when nothing goes wrong, and a load when a read goes wrong.
use aomori.Prelude.{◌≡◌, true, Option, none, some, [], ◌∷◌, inl, inr, arith, Option-cases}
use aomori.Result.{Error, ok, err, Result-cases}
use aomori.Model.{WorldState}
use aomori.Model.Validate.{validate}
use aomori.External.{External}
use aomori.Storage.Disk.{Bytes, Disk, fails, read, write_synced, rename, sync_parent}
use aomori.Storage.Decode.{Codec, DecodedSnapshot, decode_bytes}
use aomori.Storage.Save.{
  restore_primary, decode_file, snapshot_bytes, read_previous, primary_decodes, backup_primary,
  keep_backup, sync_or_rollback, replace_primary, save,
}
use aomori.Storage.Load.{load_backup, load_with_status, load}
use aomori.Storage.Recovery.{reboot}

module _ (ext : External) (codec : Codec) where
  keep_backup_good :
      (d : Disk) (q : Bytes) (x : DecodedSnapshot)
      → d.primary_file ≡ some q
      → decode_bytes ext codec q ≡ ok x
      → keep_backup ext codec (some q) (reboot d)
        ≡ (ok tt, reboot (record d { backup_temporary_file = none; backup_file = some q }))
  unfolding keep_backup primary_decodes decode_file read backup_primary write_synced rename
      sync_parent
  keep_backup_good d q x h good = ground (arith, h, good)

  keep_backup_bad :
      (d : Disk) (q : Bytes) (e : Error)
      → d.primary_file ≡ some q
      → decode_bytes ext codec q ≡ err e
      → keep_backup ext codec (some q) (reboot d) ≡ (ok tt, reboot d)
  unfolding keep_backup primary_decodes decode_file read
  keep_backup_bad d q e h bad = ground (arith, h, bad)

  replaces :
      (d : Disk) (n : Bytes) (previous : Option Bytes)
      → d.primary_file ≡ previous
      → (replace_primary ext codec previous n (reboot d)).0 ≡ ok tt
  unfolding replace_primary keep_backup write_synced rename sync_or_rollback sync_parent
  replaces d n none h = ground arith
  replaces d n (some q) h = elim (Result-cases (decode_bytes ext codec q)) [
    | inl (x, good) ↦
        ground (arith, keep_backup_good (record d { temporary_file = some n }) q x h good)
    | inr (e, bad) ↦
        ground (arith, keep_backup_bad (record d { temporary_file = some n }) q e h bad)
  ]

  pub save-succeeds :
      (w : WorldState) (n : Bytes) (d : Disk)
      → validate ext w ≡ ok tt
      → snapshot_bytes ext codec w ≡ ok n
      → (save ext codec w (reboot d)).0 ≡ ok tt
  unfolding save read_previous read
  save-succeeds w n d valid shown = elim (Option-cases d.primary_file) [
    | inl missing ↦ ground (arith, valid, shown, missing, replaces d n none missing)
    | inr (q, there) ↦ ground (arith, valid, shown, there, replaces d n (some q) there)
  ]

  -- If the primary file and a backup that decodes are there and only the first read fails, `load`
  -- answers with the world of the backup and overwrites the primary file with the bytes of the
  -- backup, whether or not the primary file was good.
  pub load-read_error :
      (d : Disk) (p b : Bytes) (x : DecodedSnapshot)
      → d.primary_file ≡ some p
      → d.backup_file ≡ some b
      → decode_bytes ext codec b ≡ ok x
      → ((load ext codec (record d { faults = fails ∷ []; alive = true })).0 ≡ ok x.world)
        × ((load ext codec (record d { faults = fails ∷ []; alive = true })).1.primary_file
            ≡ some b)
  unfolding load load_with_status load_backup restore_primary decode_file read write_synced rename
      sync_parent
  load-read_error d p b x has_p has_b good =
      (ground (arith, has_p, has_b, good), ground (arith, has_p, has_b, good))
