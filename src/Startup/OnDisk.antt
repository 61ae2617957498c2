-- ===== src/Startup/OnDisk.antt =====
-- src/storage.rs: the world that `load_with_status` returns is on the disk.
use aomori.Prelude.{◌≡◌, refl, sym, ap, Bool, Option, none, some, List}
use aomori.Result.{Result, ok, err}
use aomori.External.{External}
use aomori.Storage.Disk.{
  Bytes, File, primary, backup, restore_temporary, at, Fault, Disk, read, write_synced, rename,
}
use aomori.Storage.Decode.{Codec, DecodedSnapshot, decode_bytes}
use aomori.Storage.Save.{restore_primary, decode_file}
use aomori.Storage.Load.{load_backup, load_missing, fall_back, load_from, load_with_status}
use aomori.Storage.Rules.{
  Ends, under, continue-Ends, cleanup-Ends, Ends-map, read-Ends, write_synced-Ends, rename-Ends,
  sync_parent-Ends,
}
use aomori.Storage.Recovery.{recover}
use aomori.Storage.Safety.{recover_files, recover_new}

abbrev pub Anything : Disk → Type 0
Anything d = Unit

restore_primary-Ends :
    (d : Disk) (b : Bytes)
    → d.backup_file ≡ some b
    → Ends (λ _ d'. d'.primary_file ≡ some b) Anything (restore_primary d)
unfolding restore_primary
restore_primary-Ends d b there =
    cleanup-Ends (λ _ d'. d'.primary_file ≡ some b) Anything _ _
      (continue-Ends (λ a _. (a ≡ b) × Unit) (λ _ d'. d'.primary_file ≡ some b) Anything
        (read backup d) _ (read-Ends Anything backup b d there (λ _ _. tt))
        λ a d1 (is_a, _).
          continue-Ends (λ _ d'. d'.restore_file ≡ some a) (λ _ d'. d'.primary_file ≡ some b)
            Anything (write_synced restore_temporary a d1) _
            (write_synced-Ends (λ d'. d'.restore_file ≡ some a) Anything restore_temporary a d1
              (λ _ _. refl) (λ _ _. tt) (λ _ _ _. tt))
            λ _ d2 held.
              continue-Ends (λ _ d'. d'.primary_file ≡ some b) (λ _ d'. d'.primary_file ≡ some b)
                Anything (rename restore_temporary primary d2) _
                (rename-Ends (λ d'. d'.primary_file ≡ some b) Anything restore_temporary primary a
                  d2 held (λ _ _. ap some is_a) (λ _ _. tt))
                λ _ d3 new.
                  sync_parent-Ends (λ d'. d'.primary_file ≡ some b) Anything d3 (λ _ _. new)
                    (λ _ _. tt))
      (λ _ _. tt)

module _ (ext : External) (codec : Codec) where
  abbrev pub OnDisk : DecodedSnapshot → Disk → Type 0
  OnDisk x d = recover ext codec d ≡ ok x.world

  decoded :
      (Same : Disk → Type 0) (b : Bytes) (d : Disk) (r : Result DecodedSnapshot)
      → decode_bytes ext codec b ≡ r
      → Same d
      → Ends (λ x d'. (decode_bytes ext codec b ≡ ok x) × Same d') Same (r, d)
  decoded Same b d (ok x) h same = (h, same)
  decoded Same b d (err e) h same = same

  decode_file-Ends :
      (Same : Disk → Type 0) (f : File) (b : Bytes) (d : Disk)
      → at f d ≡ some b
      → ((faults : List Fault) (alive : Bool) → Same (under d faults alive))
      → Ends (λ x d'. (decode_bytes ext codec b ≡ ok x) × Same d') Same (decode_file ext codec f d)
  unfolding decode_file
  decode_file-Ends Same f b d there same =
      continue-Ends (λ a d'. (a ≡ b) × Same d')
        (λ x d'. (decode_bytes ext codec b ≡ ok x) × Same d') Same (read f d) _
        (read-Ends Same f b d there same)
        λ a d1 (is_a, kept).
          decoded Same b d1 (decode_bytes ext codec a) (ap (decode_bytes ext codec) (sym is_a)) kept

  load_backup-Ends :
      (d : Disk) (b : Bytes)
      → d.backup_file ≡ some b
      → Ends OnDisk Anything (load_backup ext codec d)
  unfolding load_backup
  load_backup-Ends d b there =
      continue-Ends (λ x d'. (decode_bytes ext codec b ≡ ok x) × (d'.backup_file ≡ some b)) OnDisk
        Anything (decode_file ext codec backup d) _
        (Ends-map _ _ (λ d'. d'.backup_file ≡ some b) Anything (decode_file ext codec backup d)
          (λ _ _ h. h) (λ _ _. tt)
          (decode_file-Ends (λ d'. d'.backup_file ≡ some b) backup b d there (λ _ _. there)))
        λ x d1 (good, kept).
          continue-Ends (λ _ d'. d'.primary_file ≡ some b) OnDisk Anything (restore_primary d1) _
            (restore_primary-Ends d1 b kept) λ _ d2 new. recover_new ext codec d2 b x new good

  fall_back-Ends :
      (o : Option Bytes) (x : Result DecodedSnapshot × Disk)
      → Ends OnDisk (λ d'. d'.backup_file ≡ o) x
      → Ends OnDisk Anything (fall_back ext codec o x)
  fall_back-Ends o (ok x, d) h = h
  fall_back-Ends none (err e, d) h = tt
  fall_back-Ends (some b) (err e, d) h = load_backup-Ends d b h

  load_missing-Ends :
      (o : Option Bytes) (d : Disk)
      → d.primary_file ≡ none
      → d.backup_file ≡ o
      → Ends OnDisk Anything (load_missing ext codec o d)
  load_missing-Ends none d missing same = recover_files ext codec d none none missing same
  load_missing-Ends (some b) d missing same = load_backup-Ends d b same

  load_from-Ends :
      (o : Option Bytes) (d : Disk)
      → d.primary_file ≡ o
      → Ends OnDisk Anything (load_from ext codec o d)
  load_from-Ends none d missing = load_missing-Ends d.backup_file d missing refl
  load_from-Ends (some p) d there = fall_back-Ends d.backup_file (decode_file ext codec primary d) (
      Ends-map _ _ Kept (λ d'. d'.backup_file ≡ d.backup_file) (decode_file ext codec primary d)
        (λ x d' (good, (new, _)). recover_new ext codec d' p x new good) (λ _ (_, kept). kept)
        (decode_file-Ends Kept primary p d there (λ _ _. (there, refl))))
    where
      Kept : Disk → Type 0
      Kept d' = (d'.primary_file ≡ some p) × (d'.backup_file ≡ d.backup_file)

  pub load_with_status-Ends : (d : Disk) → Ends OnDisk Anything (load_with_status ext codec d)
  unfolding load_with_status
  load_with_status-Ends d = load_from-Ends d.primary_file d refl
