-- ===== src/Tests/Storage.antt =====
-- Saves and loads of the town.
use aomori.Prelude.{◌≡◌, ◌⊎◌, refl, none, some, [], ◌∷◌}
use aomori.Result.{ok}
use aomori.Model.{genesis}
use aomori.Storage.Disk.{Disk, fine, crashes, fails}
use aomori.Storage.Decode.{decode_bytes}
use aomori.Storage.Save.{snapshot_bytes, save}
use aomori.Storage.Load.{load}
use aomori.Storage.Recovery.{reboot, recover, recoverable, recover_lem}
use aomori.Storage.Safety.{
  written, loaded, decode_written, snapshot_bytes_lem, save-recover, save-recover_ok,
}
use aomori.Storage.Progress.{save-succeeds, load-read_error}
use aomori.Tests.Data.{crypto, town, codec, stored, disk_with}
use aomori.Tests.Model.{town-validate}

-- A file that does not decode.
abbrev garbage : Disk
garbage = disk_with (some []) (some (2 ∷ [])) (fine ∷ fine ∷ fine ∷ crashes none ∷ [])

pub stored-fits : aomori.Storage.Schema.validate_current_schema stored ≡ ok tt
unfolding aomori.Storage.Schema.require_present aomori.Storage.Schema.require_known
    aomori.Storage.Schema.require_object_fields aomori.Storage.Schema.require_each_member
    aomori.Storage.Schema.require_map_entry_fields aomori.Storage.Schema.require_each_item
    aomori.Storage.Schema.require_array_entry_fields
    aomori.Storage.Schema.actors_contain_legacy_inventory
    aomori.Storage.Schema.validate_entry_schemas aomori.Storage.Schema.validate_current_schema
stored-fits = refl

recover_lem_example :
    recover crypto codec garbage ≡ recoverable crypto codec (some []) (some (2 ∷ []))
recover_lem_example = recover_lem crypto codec garbage

-- The machine stops at the sync behind the new primary file.
abbrev stopped : Disk
stopped = disk_with none none (fine ∷ fine ∷ crashes none ∷ [])

stopped-recovers : recover crypto codec stopped ≡ ok genesis
stopped-recovers = recover_lem crypto codec stopped

pub town-snapshot : codec.snapshot_of stored ≡ some (written crypto codec town)
unfolding aomori.Model.Validate.root
town-snapshot = refl

save-recover_example :
    (recover crypto codec (save crypto codec town stopped).1 ≡ ok genesis)
    ⊎ (recover crypto codec (save crypto codec town stopped).1 ≡ ok town)
save-recover_example =
    save-recover crypto codec town (1 ∷ []) stored refl refl refl refl town-snapshot stopped genesis
      town-validate stored-fits stopped-recovers

town-bytes : snapshot_bytes crypto codec town ≡ ok (1 ∷ [])
town-bytes =
    snapshot_bytes_lem crypto codec town (1 ∷ []) stored refl refl refl refl town-snapshot
      stored-fits

save-recover_ok_example : recover crypto codec (save crypto codec town (reboot stopped)).1 ≡ ok town
save-recover_ok_example =
    save-recover_ok crypto codec town (1 ∷ []) stored refl refl refl refl town-snapshot
      (reboot stopped) town-validate stored-fits
      (save-succeeds crypto codec town (1 ∷ []) stopped town-validate town-bytes)

abbrev both : Disk
both = disk_with (some (1 ∷ [])) (some (2 ∷ [])) []

backup-decodes : decode_bytes crypto codec (2 ∷ []) ≡ ok (loaded crypto codec town)
backup-decodes =
    decode_written crypto codec town (2 ∷ []) stored town-validate stored-fits refl refl
      town-snapshot

load-read_error_example :
    let r = load crypto codec (record both { faults = fails ∷ [] }) in
    (r.0 ≡ ok town) × (r.1.primary_file ≡ some (2 ∷ []))
load-read_error_example =
    load-read_error crypto codec both (1 ∷ []) (2 ∷ []) (loaded crypto codec town) refl refl
      backup-decodes
