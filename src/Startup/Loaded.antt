-- ===== src/Startup/Loaded.antt =====
-- src/main.rs and src/storage.rs: the world that `load_world` returns is on the disk.
use aomori.Prelude.{
  ◌≡◌, refl, sym, ap, ◌∙◌, String, Bool, true, false, some, inl, inr, and_then, arith,
}
use mathlib.Core.Path.{subst}
use aomori.Json.{Value, get_field, as_u64}
use aomori.Result.{Result, ok, err}
use aomori.Model.{WorldState}
use aomori.Model.Validate.{validate}
use aomori.External.{External}
use aomori.Storage.Disk.{Bytes, Disk, continue}
use aomori.Storage.Schema.{validate_current_schema}
use aomori.Storage.Formats.{format_version}
use aomori.Storage.Decode.{Codec, DecodedSnapshot}
use aomori.Storage.Save.{save}
use aomori.Storage.Load.{load_with_status}
use aomori.Storage.Rules.{Ends, continue-Ends}
use aomori.Storage.Recovery.{recover}
use aomori.Storage.Safety.{written, save-recover_ok}
use aomori.Migration.Sound.{migrate_legacy_inventories-cases}
use aomori.Startup.OnDisk.{Anything, load_with_status-Ends}
use aomori.Startup.{prepare_world, save_if, load_world}

module _ (ext : External) (codec : Codec) (source : String) where
  reported :
      (P : Disk → Type 0) (o : Result (Unit {0}) × Disk)
      → (o.0 ≡ ok tt → P o.1)
      → Ends (λ _. P) Anything o
  reported P (ok _, d) h = h refl
  reported P (err e, d) h = tt

  prepare_world-valid :
      (demo : Bool) (x : DecodedSnapshot) (needs : Bool) (w : WorldState)
      → prepare_world ext codec source demo x ≡ ok (needs, w)
      → validate ext w ≡ ok tt
  unfolding prepare_world
  prepare_world-valid demo x needs w h = ground arith

  prepare_world-kept :
      (x : DecodedSnapshot) (w : WorldState)
      → prepare_world ext codec source false x ≡ ok (false, w)
      → w ≡ x.world
  unfolding prepare_world
  prepare_world-kept x w h = elim (migrate_legacy_inventories-cases x.world) [
    | inl (e, failed) ↦ ground (arith, failed)
    | inr (inl (same, _)) ↦ ground (arith, same)
    | inr (inr (moved, _)) ↦ ground (arith, moved)
  ]

  -- A world whose snapshot serde reads back.
  module _ (w : WorldState) (n : Bytes) (value : Value)
      (shown : codec.snapshot_value (written ext codec w) ≡ some value)
      (printed : codec.print value ≡ some n) (parsed : codec.parse n ≡ some value)
      (version : and_then (get_field "format_version" value) as_u64 ≡ some format_version)
      (back : codec.snapshot_of value ≡ some (written ext codec w)) where
    Settled : WorldState → Disk → Type 0
    Settled w' d = w' ≡ w → (validate ext w ≡ ok tt) × (recover ext codec d ≡ ok w)

    save_if-Ends :
        (needs : Bool) (x : DecodedSnapshot) (w' : WorldState) (d : Disk)
        → prepare_world ext codec source false x ≡ ok (needs, w')
        → recover ext codec d ≡ ok x.world
        → validate_current_schema value ≡ ok tt
        → Ends (λ _. Settled w') Anything (save_if ext codec source needs w' d)
    unfolding Settled
    save_if-Ends false x w' d prepared before fits = λ is_w.
        let same : w' ≡ x.world = prepare_world-kept x w' prepared in
        (
          subst (λ v. validate ext v ≡ ok tt) is_w (prepare_world-valid false x false w' prepared),
          before ∙ ap ok (sym same ∙ is_w),
        )
    save_if-Ends true x w' d prepared before fits =
        reported (λ d'. Settled w' d') (save ext codec w' d)
          λ done is_w.
            let valid : validate ext w ≡ ok tt =
              subst (λ v. validate ext v ≡ ok tt) is_w
                (prepare_world-valid false x true w' prepared) in
            (
              valid,
              ap (λ v. recover ext codec (save ext codec v d).1) is_w
                  ∙ save-recover_ok ext codec w n value shown printed parsed version back d valid
                      fits (ap (λ v. (save ext codec v d).0) (sym is_w) ∙ done),
            )

    prepared-Ends :
        (x : DecodedSnapshot) (d : Disk) (r : Result (Bool × WorldState))
        → prepare_world ext codec source false x ≡ r
        → recover ext codec d ≡ ok x.world
        → validate_current_schema value ≡ ok tt
        → Ends Settled Anything (
            continue
              (r, d)
              λ (needs, w') d1. continue (save_if ext codec source needs w' d1) λ _ d2. (ok w', d2))
    prepared-Ends x d (err e) prepared before fits = tt
    prepared-Ends x d (ok (needs, w')) prepared before fits =
        continue-Ends (λ _. Settled w') Settled Anything (save_if ext codec source needs w' d) _
          (save_if-Ends needs x w' d prepared before fits) λ _ _ here. here

    load_world-Settled :
        (d : Disk)
        → validate_current_schema value ≡ ok tt
        → Ends Settled Anything (load_world ext codec source false d)
    unfolding load_world
    load_world-Settled d fits =
        continue-Ends (λ x d'. recover ext codec d' ≡ ok x.world) Settled Anything
          (load_with_status ext codec d) _ (load_with_status-Ends ext codec d)
          λ x d1 before.
            prepared-Ends x d1 (prepare_world ext codec source false x) refl before fits

    returned :
        (o : Result WorldState × Disk)
        → Ends Settled Anything o
        → o.0 ≡ ok w
        → (validate ext w ≡ ok tt) × (recover ext codec o.1 ≡ ok w)
    unfolding Settled
    returned (ok w', d) h same = h (ground (arith, same))
    returned (err e, d) h same = cc

    -- A start without the demo that returns a world has checked it, and the world is on the disk: the
    -- next start recovers the same world, whether the files were read as they were, restored from the
    -- backup, or migrated and saved, and whatever failed on the way; the snapshot of the world fits
    -- the schema and is read back by serde as it was written.
    pub load_world-recover :
        (d : Disk)
        → validate_current_schema value ≡ ok tt
        → (load_world ext codec source false d).0 ≡ ok w
        → (validate ext w ≡ ok tt)
          × (recover ext codec (load_world ext codec source false d).1 ≡ ok w)
    load_world-recover d fits done =
        returned (load_world ext codec source false d) (load_world-Settled d fits) done
