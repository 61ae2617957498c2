-- ===== src/Startup.antt =====
-- src/main.rs: `load_world`, what the server does with its data directory before it listens.
pub mod OnDisk
pub mod Loaded
use aomori.Prelude.{String, Bool, true, false, ◌||◌, Option, none, some}
use aomori.Result.{Error, Result, ok, err, ◌>>=◌ as and_then, ◌>>◌ as and_check}
use aomori.Model.{WorldState}
use aomori.Model.Validate.{validate}
use aomori.External.{External}
use aomori.Runtime.{Outcome}
use aomori.Migration.{migrate_legacy_inventories}
use aomori.Demo.Upgrade.{ensure_current}
use aomori.Storage.Disk.{Disk, Io, ◌>>=◌, ◌>>◌, pure}
use aomori.Storage.Decode.{Codec, DecodedSnapshot}
use aomori.Storage.Load.{load_with_status}
use aomori.Storage.Save.{save}

-- An operation on the world that is being loaded, which is dropped after an error.
abbrev pub on_loaded {ℓ} : {A : Type ℓ} → Outcome A → Result (A × WorldState)
on_loaded (ok a, s) = ok (a, s)
on_loaded (err e, s) = err e

module _ (ext : External) (codec : Codec) (source : String) where
  -- `demo && aomori::demo::ensure_current(&mut world)?`
  abbrev pub ensure_demo : Bool → WorldState → Result (Bool × WorldState)
  ensure_demo true w = on_loaded (ensure_current ext source w)
  ensure_demo false w = ok (false, w)

  -- The world that was loaded, migrated and checked, and whether it has to be saved.
  unfoldable pub prepare_world : Bool → DecodedSnapshot → Result (Bool × WorldState)
  prepare_world demo loaded =
      and_then (on_loaded (migrate_legacy_inventories loaded.world))
        λ (inventory_migrated, migrated).
          and_then (ensure_demo demo migrated) λ (demo_changed, world).
            and_check (validate ext world)
              (ok ((loaded.needs_rewrite || inventory_migrated) || demo_changed, world))

  abbrev pub save_if : Bool → WorldState → Io (Unit {0})
  save_if true world = save ext codec world
  save_if false world = pure (ok tt)

  unfoldable pub load_world : Bool → Io WorldState
  load_world demo = do
    loaded ← load_with_status ext codec
    (needs_save, world) ← pure (prepare_world demo loaded)
    save_if needs_save world
    pure (ok world)
