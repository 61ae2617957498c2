-- ===== src/Storage/Disk.antt =====
-- The file system under src/storage.rs: the files of the data directory, and a schedule of what goes
-- wrong at the next operations. A write may leave any bytes; a rename, a removal and a sync are done
-- whole or not at all; a crash stops the program between or within two operations.
use aomori.Prelude.{ℕ, Bool, true, false, Option, none, some, List, [], ◌∷◌}
use aomori.Result.{Result, ok, err, ok_or, io_failed, crashed}

abbrev pub Bytes : Type 0
Bytes = List ℕ

-- `state.json` and its extensions: `tmp`, `bak.tmp`, `bak`, `restore.tmp` and `rollback.tmp`
pub data File : Type 0 where
  primary temporary backup_temporary backup restore_temporary rollback_temporary : File

pub data Fault : Type 0 where
  fine fails : Fault
  torn : Bytes → Fault
  crashes : Option Bytes → Fault

pub record Disk : Type 0 where
  pub primary_file : Option Bytes
  pub temporary_file : Option Bytes
  pub backup_temporary_file : Option Bytes
  pub backup_file : Option Bytes
  pub restore_file : Option Bytes
  pub rollback_file : Option Bytes
  pub faults : List Fault
  pub alive : Bool

abbrev pub at : File → Disk → Option Bytes
at primary d = d.primary_file
at temporary d = d.temporary_file
at backup_temporary d = d.backup_temporary_file
at backup d = d.backup_file
at restore_temporary d = d.restore_file
at rollback_temporary d = d.rollback_file

abbrev pub put : File → Option Bytes → Disk → Disk
put primary o d = record d { primary_file = o }
put temporary o d = record d { temporary_file = o }
put backup_temporary o d = record d { backup_temporary_file = o }
put backup o d = record d { backup_file = o }
put restore_temporary o d = record d { restore_file = o }
put rollback_temporary o d = record d { rollback_file = o }

-- A program on the disk.
abbrev pub Io {ℓ} : Type ℓ → Type ℓ
Io A = Disk → Result A × Disk

abbrev pub continue {ℓ κ} :
    {A : Type ℓ} {B : Type κ} → Result A × Disk → (A → Io B) → Result B × Disk
continue (err e, d) k = (err e, d)
continue (ok a, d) k = k a d

infixl 5 ◌>>=◌ ◌>>◌
abbrev pub ◌>>=◌ {ℓ κ} : {A : Type ℓ} {B : Type κ} → Io A → (A → Io B) → Io B
◌>>=◌ m k d = continue (m d) k

abbrev pub ◌>>◌ {ℓ κ} : {A : Type ℓ} {B : Type κ} → Io A → Io B → Io B
◌>>◌ m k d = continue (m d) λ _. k

-- A part that does not touch the disk.
abbrev pub pure {ℓ} : {A : Type ℓ} → Result A → Io A
pure r d = (r, d)

-- What a write that goes wrong leaves behind.
abbrev pub Tear : Type 0
Tear = Bytes → Disk → Disk

abbrev pub whole : Tear
whole bytes d = d

abbrev tear_some : Tear → Option Bytes → Disk → Disk
tear_some tear none d = d
tear_some tear (some bytes) d = tear bytes d

abbrev faulted {ℓ} : {A : Type ℓ} → Bool → List Fault → Io A → Tear → Io A
faulted false faults act tear d = (err crashed, d)
faulted true [] act tear d = act d
faulted true (fine ∷ faults) act tear d = act (record d { faults = faults })
faulted true (fails ∷ faults) act tear d = (err io_failed, record d { faults = faults })
faulted true (torn bytes ∷ faults) act tear d =
    (err io_failed, tear bytes (record d { faults = faults }))
faulted true (crashes left ∷ faults) act tear d =
    (err crashed, tear_some tear left (record d { faults = faults; alive = false }))

-- One operation under the schedule.
abbrev pub attempt {ℓ} : {A : Type ℓ} → Io A → Tear → Io A
attempt act tear d = faulted d.alive d.faults act tear d

-- `fs::read`
unfoldable pub read : File → Io Bytes
read f = attempt (λ d. (ok_or (at f d) io_failed, d)) whole

-- `write_synced`
unfoldable pub write_synced : File → Bytes → Io (Unit {0})
write_synced f bytes = attempt (λ d. (ok tt, put f (some bytes) d)) (λ left. put f (some left))

-- `fs::rename`
unfoldable pub rename : File → File → Io (Unit {0})
rename from to =
    attempt
      (λ d. elim (at from d) [
        | none ↦ (err io_failed, d)
        | some bytes ↦ (ok tt, put to (some bytes) (put from none d))
      ])
      whole

-- `fs::remove_file`
unfoldable pub remove_file : File → Io (Unit {0})
remove_file f =
    attempt (λ d. elim (at f d) [ none ↦ (err io_failed, d) | some _ ↦ (ok tt, put f none d) ])
      whole

-- `sync_parent`
unfoldable pub sync_parent : Io (Unit {0})
sync_parent = attempt (λ d. (ok tt, d)) whole

-- `let _ = ...`: the outcome is dropped.
abbrev pub ignore {ℓ} : {A : Type ℓ} → Io A → Io (Unit {0})
ignore m d = (ok tt, (m d).1)

-- `if result.is_err() { cleanup }`, with the result of the first
abbrev pub cleanup_after {ℓ} : {A : Type ℓ} → Result A × Disk → Io (Unit {0}) → Result A × Disk
cleanup_after (ok a, d) clean = (ok a, d)
cleanup_after (err e, d) clean = (err e, (clean d).1)

abbrev pub or_clean {ℓ} : {A : Type ℓ} → Io A → Io (Unit {0}) → Io A
or_clean m clean d = cleanup_after (m d) clean
