-- ===== src/Storage/Store.antt =====
-- src/storage.rs: what the rest of the program relies on in `SnapshotStore::save`, as an interface
-- that the save on the disk fills.
use aomori.Prelude.{ℕ, ◌≡◌, inl, inr}
use aomori.Result.{Result, ok, Result-cases}
use aomori.Model.{WorldState}
use aomori.Model.Validate.{validate}
use aomori.External.{External}
use aomori.Storage.Disk.{Disk}
use aomori.Storage.Decode.{Codec}
use aomori.Storage.Save.{save as save_on_disk}

module _ (ext : External) where
  -- The n-th attempt to save a world, and the law that a world that was saved is valid.
  pub record SnapshotStore : Type 0 where
    pub save : ℕ → WorldState → Result (Unit {0})
    pub save-valid : (n : ℕ) (w : WorldState) → save n w ≡ ok tt → validate ext w ≡ ok tt

  pub save-validate :
      (codec : Codec) (w : WorldState) (d : Disk)
      → (save_on_disk ext codec w d).0 ≡ ok tt
      → validate ext w ≡ ok tt
  unfolding save_on_disk
  save-validate codec w d saved = elim (Result-cases (validate ext w)) [
    | inl (_, valid) ↦ valid
    | inr (e, refused) ↦ cc
  ]

  -- The n-th attempt finds the disk `disk_at n`.
  abbrev pub disk_store : Codec → (ℕ → Disk) → SnapshotStore
  disk_store codec disk_at = record {
    save = λ n w. (save_on_disk ext codec w (disk_at n)).0;
    save-valid = λ n w. save-validate codec w (disk_at n);
  }
