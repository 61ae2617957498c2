-- ===== src/Storage/Safety.antt =====
-- src/storage.rs: a save and the load that follows it, with whatever goes wrong in between.
use aomori.Prelude.{
  ◌≡◌, refl, sym, ap, ◌∙◌, false, Option, none, some, [], ◌⊎◌, inl, inr, arith, and_then, ≟_refl,
  text_key, Option-cases,
}
use aomori.Json.{Value, get_field, as_u64}
use aomori.Result.{Result, ok, err}
use aomori.Model.{WorldState}
use aomori.Model.Validate.{validate, root}
use aomori.External.{External}
use aomori.Storage.Disk.{Bytes, Disk}
use aomori.Storage.Schema.{validate_current_schema}
use aomori.Storage.Formats.{format_version, format_migration_path-cases}
use aomori.Storage.Decode.{
  Snapshot, Codec, DecodedSnapshot, check_snapshot, decode_versioned, decode_value, decode_bytes,
}
use aomori.Storage.Save.{snapshot_bytes, save}
use aomori.Storage.Crash.{KeptBackup, old, copied, Moved, Safe, Moved-Safe, save-Ends}
use aomori.Storage.Rules.{Ends, Ends-always, Ends-map}
use aomori.Storage.Recovery.{world_of, or_else, recover, recoverable, recover_lem}

module _ (ext : External) (codec : Codec) where
  abbrev pub written : WorldState → Snapshot
  written w = record { version = format_version; state_root = root ext w; state = w }

  pub recover_files :
      (d : Disk) (p b : Option Bytes)
      → d.primary_file ≡ p
      → d.backup_file ≡ b
      → recover ext codec d ≡ recoverable ext codec p b
  recover_files d p b is_p is_b =
      recover_lem ext codec d
      ∙ ap (λ o. recoverable ext codec o d.backup_file) is_p
      ∙ ap (recoverable ext codec p) is_b

  -- A primary file that decodes makes the backup irrelevant.
  pub recover_new :
      (d : Disk) (n : Bytes) (x : DecodedSnapshot)
      → d.primary_file ≡ some n
      → decode_bytes ext codec n ≡ ok x
      → recover ext codec d ≡ ok x.world
  recover_new d n x is_n good = elim (Option-cases d.backup_file) [
    | inl missing ↦ recover_files d (some n) none is_n missing ∙ ap world_of good
    | inr (b, kept) ↦
        recover_files d (some n) (some b) is_n kept
        ∙ ap (λ r. or_else r (decode_bytes ext codec b)) good
  ]

  -- The old primary file with the backup that was kept beside it.
  recover_old :
      (d d' : Disk) (p : Option Bytes) (w : WorldState) (n : Bytes)
      → d.primary_file ≡ p
      → d'.primary_file ≡ p
      → KeptBackup ext codec p d.backup_file n d'.backup_file
      → recover ext codec d ≡ ok w
      → recover ext codec d' ≡ ok w
  recover_old d d' p w n h h' (old same) before =
      recover_files d' p d.backup_file h' same
      ∙ sym (recover_files d p d.backup_file h refl)
      ∙ before
  recover_old d d' p w n h h' (copied q x is_q kept good) before =
      recover_new d' q x (h' ∙ is_q) good ∙ sym (recover_new d q x (h ∙ is_q) good) ∙ before

  check_written :
      (w : WorldState) (value : Value)
      → validate ext w ≡ ok tt
      → check_snapshot ext codec value (written w) ≡ ok tt
  unfolding check_snapshot
  check_written w value valid = simp (≟_refl (root ext w), valid)

  abbrev pub loaded : WorldState → DecodedSnapshot
  loaded w = record {
    world = w;
    source_format_version = some format_version;
    format_migrations = [];
    needs_rewrite = false;
  }

  decode_versioned-written :
      (w : WorldState) (value : Value)
      → validate ext w ≡ ok tt
      → validate_current_schema value ≡ ok tt
      → and_then (get_field "format_version" value) as_u64 ≡ some format_version
      → codec.snapshot_of value ≡ some (written w)
      → decode_versioned ext codec value ≡ ok (loaded w)
  unfolding decode_versioned
  decode_versioned-written w value valid fits version back =
      simp (version, fits, back, check_written w value valid, format_migration_path-cases)

  decode_value_written :
      (w : WorldState) (value : Value)
      → and_then (get_field "format_version" value) as_u64 ≡ some format_version
      → decode_versioned ext codec value ≡ ok (loaded w)
      → decode_value ext codec value ≡ ok (loaded w)
  unfolding decode_value
  decode_value_written w value version read =
      elim (Option-cases (get_field "format_version" value)) [
        | inl missing ↦ ground (arith, missing)
        | inr (v, there) ↦ simp (decode_value, there, read)
      ]

  -- The bytes of a snapshot are read back as its world, if serde gives the snapshot back.
  pub decode_written :
      (w : WorldState) (n : Bytes) (value : Value)
      → validate ext w ≡ ok tt
      → validate_current_schema value ≡ ok tt
      → codec.parse n ≡ some value
      → and_then (get_field "format_version" value) as_u64 ≡ some format_version
      → codec.snapshot_of value ≡ some (written w)
      → decode_bytes ext codec n ≡ ok (loaded w)
  unfolding decode_bytes
  decode_written w n value valid fits parsed version back = rw parsed (
      decode_value_written w value version
        (decode_versioned-written w value valid fits version back))

-- A snapshot whose serialization is read back: the value, its bytes, and what serde makes of them.
module _ (ext : External) (codec : Codec) (w : WorldState) (n : Bytes) (value : Value)
    (shown : codec.snapshot_value (written ext codec w) ≡ some value)
    (printed : codec.print value ≡ some n) (parsed : codec.parse n ≡ some value)
    (version : and_then (get_field "format_version" value) as_u64 ≡ some format_version)
    (back : codec.snapshot_of value ≡ some (written ext codec w)) where
  pub snapshot_bytes_lem : validate_current_schema value ≡ ok tt → snapshot_bytes ext codec w ≡ ok n
  unfolding snapshot_bytes
  snapshot_bytes_lem fits = simp (shown, fits, printed)

  Safe-recover :
      (d d' : Disk) (w0 : WorldState)
      → validate ext w ≡ ok tt
      → validate_current_schema value ≡ ok tt
      → recover ext codec d ≡ ok w0
      → Safe ext codec d.primary_file d.backup_file n d'
      → (recover ext codec d' ≡ ok w0) ⊎ (recover ext codec d' ≡ ok w)
  Safe-recover d d' w0 valid fits before (inl same, kept) =
      inl (recover_old ext codec d d' d.primary_file w0 n refl same kept before)
  Safe-recover d d' w0 valid fits before (inr new, kept) = inr (
      recover_new ext codec d' n (loaded ext codec w) new
        (decode_written ext codec w n value valid fits parsed version back))

  saved_Ends :
      (d : Disk)
      → validate_current_schema value ≡ ok tt
      → Ends
          (λ _. Moved ext codec d.primary_file d.backup_file n)
          (Safe ext codec d.primary_file d.backup_file n)
          (save ext codec w d)
  saved_Ends d fits = save-Ends ext codec w n d (snapshot_bytes_lem fits)

  -- A save that may fail anywhere, tear any of its writes, or stop with the machine, starting on a
  -- disk from which the world `w0` is recovered, leaves a disk from which the next start recovers
  -- `w0` or the world that was saved, provided that world is valid, fits the schema, and its snapshot
  -- is read back by serde as it was written.
  pub save-recover :
      (d : Disk) (w0 : WorldState)
      → validate ext w ≡ ok tt
      → validate_current_schema value ≡ ok tt
      → recover ext codec d ≡ ok w0
      → (recover ext codec (save ext codec w d).1 ≡ ok w0)
        ⊎ (recover ext codec (save ext codec w d).1 ≡ ok w)
  save-recover d w0 valid fits before = Safe-recover d (save ext codec w d).1 w0 valid fits before (
      Ends-always (Safe ext codec d.primary_file d.backup_file n) (save ext codec w d) (
        Ends-map _ _ _ _ (save ext codec w d)
          (λ _ d'. Moved-Safe ext codec d.primary_file d.backup_file n d') (λ _ safe. safe)
          (saved_Ends d fits)))

  reported_Ends :
      (Q E : Disk → Type 0) (x : Result (Unit {0}) × Disk) → x.0 ≡ ok tt → Ends (λ _. Q) E x → Q x.1
  reported_Ends Q E (ok _, d) h ends = ends
  reported_Ends Q E (err e, d) h ends = cc

  -- A save that reports success has put the world on the disk: the next start recovers it, whatever
  -- went wrong during the save, provided the world is valid, fits the schema, and its snapshot is read
  -- back by serde as it was written.
  pub save-recover_ok :
      (d : Disk)
      → validate ext w ≡ ok tt
      → validate_current_schema value ≡ ok tt
      → (save ext codec w d).0 ≡ ok tt
      → recover ext codec (save ext codec w d).1 ≡ ok w
  save-recover_ok d valid fits done =
      recover_new ext codec (save ext codec w d).1 n (loaded ext codec w)
        (reported_Ends _ _ (save ext codec w d) done (saved_Ends d fits)).0
        (decode_written ext codec w n value valid fits parsed version back)
