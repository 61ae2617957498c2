-- ===== src/Storage/Crash.antt =====
-- src/storage.rs: the files under `save`, whatever goes wrong and wherever it stops.
use aomori.Prelude.{
  ◌≡◌, refl, sym, ap, ◌∙◌, Bool, true, false, Option, none, some, List, ◌⊎◌, inl, inr,
}
use mathlib.Core.Path.{subst}
use aomori.Result.{Result, ok, err}
use aomori.Model.{WorldState}
use aomori.Model.Validate.{validate}
use aomori.External.{External}
use aomori.Storage.Disk.{
  Bytes, Fault, Disk, File, put, primary, temporary, backup_temporary, backup, rollback_temporary,
  ignore, continue, read, write_synced, rename, remove_file, sync_parent,
}
use aomori.Storage.Decode.{Codec, DecodedSnapshot, decode_bytes}
use aomori.Storage.Save.{
  decode_file, snapshot_bytes, read_if, remove_if, remove_primary, rollback_primary, undo,
  sync_or_rollback, read_previous, primary_decodes, backup_primary, is_ok, backup_if, keep_backup,
  replace_primary, save,
}
use aomori.Storage.Rules.{
  Ends, under, continue-Ends, cleanup-Ends, Ends-always, Ends-map, read-Ends, write_synced-Ends,
  rename-Ends, sync_parent-Ends, remove_file-Ends,
}

-- The primary file and the backup before a save, and the bytes that it writes.
module _ (ext : External) (codec : Codec) (p b : Option Bytes) (n : Bytes) where
  -- The backup is the old one, or a primary file that decodes.
  pub data KeptBackup (o : Option Bytes) : Type 0 where
    old : o ≡ b → KeptBackup o
    copied :
        (q : Bytes) (x : DecodedSnapshot)
        → p ≡ some q
        → o ≡ some q
        → decode_bytes ext codec q ≡ ok x
        → KeptBackup o

  abbrev pub Stays : Disk → Type 0
  Stays d = (d.primary_file ≡ p) × KeptBackup d.backup_file

  abbrev Ready : Disk → Type 0
  Ready d = (d.primary_file ≡ p) × KeptBackup d.backup_file × (d.temporary_file ≡ some n)

  abbrev pub Moved : Disk → Type 0
  Moved d = (d.primary_file ≡ some n) × KeptBackup d.backup_file

  abbrev pub Safe : Disk → Type 0
  Safe d = ((d.primary_file ≡ p) ⊎ (d.primary_file ≡ some n)) × KeptBackup d.backup_file

  write_temporary : (d : Disk) → Stays d → Ends (λ _. Ready) Stays (write_synced temporary n d)
  write_temporary d (same, kept) =
      write_synced-Ends Ready Stays temporary n d (λ _ _. (same, kept, refl)) (λ _ _. (same, kept))
        (λ _ _ _. (same, kept))

  backup_primary-Ends :
      (q : Bytes) (x : DecodedSnapshot) (d : Disk)
      → p ≡ some q
      → decode_bytes ext codec q ≡ ok x
      → Ready d
      → Ends (λ _. Ready) Ready (backup_primary ext codec d)
  unfolding backup_primary
  backup_primary-Ends q x d is_q good (same, kept, temp) =
      continue-Ends (λ a d'. (a ≡ q) × Ready d') (λ _. Ready) Ready (read primary d) _
        (read-Ends Ready primary q d (same ∙ is_q) (λ _ _. (same, kept, temp)))
        λ a d1 (is_a, (s1, k1, t1)).
          continue-Ends (λ _ d'. Ready d' × (d'.backup_temporary_file ≡ some a)) (λ _. Ready) Ready
            (write_synced backup_temporary a d1) _
            (write_synced-Ends (λ d'. Ready d' × (d'.backup_temporary_file ≡ some a)) Ready
              backup_temporary a d1 (λ _ _. ((s1, k1, t1), refl)) (λ _ _. (s1, k1, t1))
              (λ _ _ _. (s1, k1, t1)))
            λ _ d2 ((s2, k2, t2), held).
              continue-Ends (λ _. Ready) (λ _. Ready) Ready (rename backup_temporary backup d2) _
                (rename-Ends Ready Ready backup_temporary backup a d2 held
                  (λ _ _. (s2, copied q x is_q (ap some is_a) good, t2)) (λ _ _. (s2, k2, t2)))
                λ _ d3 (s3, k3, t3).
                  sync_parent-Ends Ready Ready d3 (λ _ _. (s3, k3, t3)) (λ _ _. (s3, k3, t3))

  -- What the test of the primary file has found out.
  Tested : Bytes → Bool → Disk → Type 0
  Tested q true d = Ready d × ((x : DecodedSnapshot) × (decode_bytes ext codec q ≡ ok x))
  Tested q false d = Ready d

  is_ok-Tested :
      (q : Bytes) (x : Result DecodedSnapshot × Disk)
      → Ends (λ a d. Ready d × (decode_bytes ext codec q ≡ ok a)) Ready x
      → Ends (Tested q) Ready (is_ok x)
  unfolding Tested
  is_ok-Tested q (ok a, d) (ready, good) = (ready, (a, good))
  is_ok-Tested q (err e, d) h = h

  decode_result :
      (q : Bytes) (d : Disk) (r : Result DecodedSnapshot)
      → decode_bytes ext codec q ≡ r
      → Ready d
      → Ends (λ a d'. Ready d' × (decode_bytes ext codec q ≡ ok a)) Ready (r, d)
  decode_result q d (ok a) h ready = (ready, h)
  decode_result q d (err e) h ready = ready

  primary_decodes-Ends :
      (q : Bytes) (d : Disk)
      → p ≡ some q
      → Ready d
      → Ends (Tested q) Ready (primary_decodes ext codec d)
  unfolding primary_decodes decode_file
  primary_decodes-Ends q d is_q (same, kept, temp) =
      is_ok-Tested q (decode_file ext codec primary d) (
        continue-Ends (λ a d'. (a ≡ q) × Ready d')
          (λ a d'. Ready d' × (decode_bytes ext codec q ≡ ok a)) Ready (read primary d) _
          (read-Ends Ready primary q d (same ∙ is_q) (λ _ _. (same, kept, temp)))
          λ a d1 (is_a, ready).
            decode_result q d1 (decode_bytes ext codec a) (ap (decode_bytes ext codec) (sym is_a))
              ready)

  backup_if-Ends :
      (q : Bytes) (good : Bool) (d : Disk)
      → p ≡ some q
      → Tested q good d
      → Ends (λ _. Ready) Ready (backup_if ext codec good d)
  unfolding Tested
  backup_if-Ends q true d is_q (ready, (x, good)) = backup_primary-Ends q x d is_q good ready
  backup_if-Ends q false d is_q ready = ready

  keep_backup-Ends :
      (previous : Option Bytes) (d : Disk)
      → previous ≡ p
      → Ready d
      → Ends (λ _. Ready) Ready (keep_backup ext codec previous d)
  unfolding keep_backup
  keep_backup-Ends none d h ready = ready
  keep_backup-Ends (some q) d h ready =
      continue-Ends (Tested q) (λ _. Ready) Ready (primary_decodes ext codec d) _
        (primary_decodes-Ends q d (sym h) ready) (λ good d1. backup_if-Ends q good d1 (sym h))

  pub Moved-Safe : (d : Disk) → Moved d → Safe d
  Moved-Safe d (new, kept) = (inr new, kept)

  Ready-Safe : (d : Disk) → Ready d → Safe d
  Ready-Safe d (same, kept, temp) = (inl same, kept)

  keep_removed :
      (f : File) (d : Disk)
      → ((faults : List Fault) (alive : Bool) → Safe (put f none (under d faults alive)))
      → Safe d
      → Safe (ignore (remove_file f) d).1
  keep_removed f d gone safe =
      Ends-always Safe (remove_file f d) (remove_file-Ends Safe f d gone (λ _ _. safe))

  restore_bytes-Ends :
      (q : Bytes) (d : Disk)
      → p ≡ some q
      → Moved d
      → Ends (λ _. Safe) Safe (rollback_primary (some q) d)
  unfolding rollback_primary
  restore_bytes-Ends q d is_q (new, kept) =
      cleanup-Ends (λ _. Safe) Safe _ (ignore (remove_file rollback_temporary))
        (continue-Ends (λ _ d'. Safe d' × (d'.rollback_file ≡ some q)) (λ _. Safe) Safe
          (write_synced rollback_temporary q d) _
          (write_synced-Ends (λ d'. Safe d' × (d'.rollback_file ≡ some q)) Safe rollback_temporary q
            d (λ _ _. ((inr new, kept), refl)) (λ _ _. (inr new, kept)) (λ _ _ _. (inr new, kept)))
          λ _ d1 ((s1, k1), held).
            continue-Ends (λ _. Safe) (λ _. Safe) Safe (rename rollback_temporary primary d1) _
              (rename-Ends Safe Safe rollback_temporary primary q d1 held
                (λ _ _. (inl (sym is_q), k1)) (λ _ _. (s1, k1)))
              λ _ d2 safe. sync_parent-Ends Safe Safe d2 (λ _ _. safe) (λ _ _. safe))
        (λ d' safe. keep_removed rollback_temporary d' (λ _ _. safe) safe)

  remove_if-Ends :
      (o : Option Bytes) (d : Disk) → p ≡ none → Moved d → Ends (λ _. Safe) Safe (remove_if o d)
  remove_if-Ends none d is_none (new, kept) = (inr new, kept)
  remove_if-Ends (some q) d is_none (new, kept) =
      remove_file-Ends Safe primary d (λ _ _. (inl (sym is_none), kept)) (λ _ _. (inr new, kept))

  rollback_primary-Ends :
      (previous : Option Bytes) (d : Disk)
      → previous ≡ p
      → Moved d
      → Ends (λ _. Safe) Safe (rollback_primary previous d)
  unfolding rollback_primary remove_primary
  rollback_primary-Ends (some q) d h moved = restore_bytes-Ends q d (sym h) moved
  rollback_primary-Ends none d h moved =
      continue-Ends (λ _. Safe) (λ _. Safe) Safe (remove_primary d) _
        (remove_if-Ends d.primary_file d (sym h) moved)
        λ _ d1 safe. sync_parent-Ends Safe Safe d1 (λ _ _. safe) (λ _ _. safe)

  undo-Ends :
      (previous : Option Bytes) (x : Result (Unit {0}) × Disk)
      → previous ≡ p
      → Ends (λ _. Moved) Moved x
      → Ends (λ _. Moved) Safe (undo previous x)
  undo-Ends previous (ok _, d) h moved = moved
  undo-Ends previous (err e, d) h moved =
      continue-Ends (λ _. Safe) (λ _. Moved) Safe (rollback_primary previous d) _
        (rollback_primary-Ends previous d h moved) (λ _ _ safe. safe)

  sync_or_rollback-Ends :
      (previous : Option Bytes) (d : Disk)
      → previous ≡ p
      → Moved d
      → Ends (λ _. Moved) Safe (sync_or_rollback previous d)
  unfolding sync_or_rollback
  sync_or_rollback-Ends previous d h moved =
      undo-Ends previous (sync_parent d) h
        (sync_parent-Ends Moved Moved d (λ _ _. moved) (λ _ _. moved))

  replace_body-Ends :
      (previous : Option Bytes) (d : Disk)
      → previous ≡ p
      → Stays d
      → Ends
          (λ _. Moved)
          Safe
          (continue (write_synced temporary n d) λ _ d1.
            continue
              (keep_backup ext codec previous d1)
              λ _ d2. continue (rename temporary primary d2) λ _. sync_or_rollback previous)
  replace_body-Ends previous d h stays =
      continue-Ends (λ _. Ready) (λ _. Moved) Safe (write_synced temporary n d) _
        (Ends-map (λ _. Ready) (λ _. Ready) Stays Safe _ (λ _ _ ready. ready)
          (λ _ (same, kept). (inl same, kept)) (write_temporary d stays))
        λ _ d1 ready1.
          continue-Ends (λ _. Ready) (λ _. Moved) Safe (keep_backup ext codec previous d1) _
            (Ends-map (λ _. Ready) (λ _. Ready) Ready Safe _ (λ _ _ ready. ready) Ready-Safe
              (keep_backup-Ends previous d1 h ready1))
            λ _ d2 (s2, k2, t2).
              continue-Ends (λ _. Moved) (λ _. Moved) Safe (rename temporary primary d2) _
                (rename-Ends Moved Safe temporary primary n d2 t2 (λ _ _. (refl, k2))
                  (λ _ _. (inl s2, k2)))
                (λ _ d3. sync_or_rollback-Ends previous d3 h)

  pub replace_primary-Ends :
      (previous : Option Bytes) (d : Disk)
      → previous ≡ p
      → Stays d
      → Ends (λ _. Moved) Safe (replace_primary ext codec previous n d)
  unfolding replace_primary
  replace_primary-Ends previous d h stays =
      cleanup-Ends (λ _. Moved) Safe _ _ (replace_body-Ends previous d h stays)
        λ d1 safe.
          keep_removed backup_temporary _ (λ _ _. keep_removed temporary d1 (λ _ _. safe) safe)
            (keep_removed temporary d1 (λ _ _. safe) safe)

  Held : Option Bytes → Disk → Type 0
  Held o d = (o ≡ p) × Stays d

  read_if-Ends :
      (o : Option Bytes) (d : Disk) → d.primary_file ≡ o → Stays d → Ends Held Stays (read_if o d)
  unfolding Held
  read_if-Ends none d h (same, kept) = (sym h ∙ same, (same, kept))
  read_if-Ends (some q) d h (same, kept) =
      continue-Ends (λ a d'. (a ≡ q) × Stays d') Held Stays (read primary d) _
        (read-Ends Stays primary q d h (λ _ _. (same, kept)))
        (λ a d1 (is_a, stays). (ap some is_a ∙ sym h ∙ same, stays))

  read_previous-Ends : (d : Disk) → Stays d → Ends Held Stays (read_previous d)
  unfolding read_previous
  read_previous-Ends d stays = read_if-Ends d.primary_file d refl stays

  Stays-Safe : (d : Disk) → Stays d → Safe d
  Stays-Safe d (same, kept) = (inl same, kept)

  read_then :
      (w : WorldState)
      → snapshot_bytes ext codec w ≡ ok n
      → (previous : Option Bytes) (d : Disk) → Held previous d
      → Ends
          (λ _. Moved)
          Safe
          (continue
            (snapshot_bytes ext codec w, d)
            λ bytes. replace_primary ext codec previous bytes)
  unfolding Held
  read_then w h previous d (is_p, stays) =
      subst
        (λ r.
          Ends (λ _. Moved) Safe
            (continue (r, d) λ bytes. replace_primary ext codec previous bytes))
        (sym h) (replace_primary-Ends previous d is_p stays)

  checked_save-Ends :
      (w : WorldState) (d : Disk) (r : Result (Unit {0}))
      → snapshot_bytes ext codec w ≡ ok n
      → Stays d
      → Ends
          (λ _. Moved)
          Safe
          (continue
            (r, d)
            λ _ d0. continue (read_previous d0) λ previous d1.
              continue
                (snapshot_bytes ext codec w, d1)
                λ bytes. replace_primary ext codec previous bytes)
  checked_save-Ends w d (err e) h stays = Stays-Safe d stays
  checked_save-Ends w d (ok _) h stays =
      continue-Ends Held (λ _. Moved) Safe (read_previous d) _
        (Ends-map Held Held Stays Safe (read_previous d) (λ _ _ r. r) Stays-Safe
          (read_previous-Ends d stays))
        (read_then w h)

-- After a save, whatever fails, tears or stops on the way, the primary file holds the bytes it held
-- or those of the new snapshot, the latter if the save reports success; the backup is the old one or
-- a primary file that decodes.
pub save-Ends :
    (ext : External) (codec : Codec) (w : WorldState) (n : Bytes) (d : Disk)
    → snapshot_bytes ext codec w ≡ ok n
    → Ends
        (λ _. Moved ext codec d.primary_file d.backup_file n)
        (Safe ext codec d.primary_file d.backup_file n)
        (save ext codec w d)
unfolding save
save-Ends ext codec w n d h =
    checked_save-Ends ext codec d.primary_file d.backup_file n w d (validate ext w) h
      (refl, old refl)
