-- ===== src/Storage/Rules.antt =====
-- Rules for programs on the disk of src/storage.rs: an assertion for each of the two ways to end.
use aomori.Prelude.{
  ◌≡◌, refl, ◌∙◌, inl, inr, Option-cases, Bool, true, false, none, some, List, [], ◌∷◌,
}
use aomori.Result.{Result, ok, err}
use aomori.Storage.Disk.{
  Bytes, Fault, fine, fails, torn, crashes, Disk, Io, File, primary, at, put, continue, Tear,
  attempt, read, write_synced, rename, remove_file, sync_parent, cleanup_after,
}

-- `Q` after a success, `E` after an error or a crash.
abbrev pub Ends {ℓ} :
    {A : Type ℓ} → (A → Disk → Type 0) → (Disk → Type 0) → Result A × Disk → Type 0
Ends Q E (ok a, d) = Q a d
Ends Q E (err e, d) = E d

-- The same files under another schedule.
abbrev pub under : Disk → List Fault → Bool → Disk
under d faults alive = record d { faults = faults; alive = alive }

module _ {ℓ} {A : Type ℓ} where
  pub continue-Ends {κ} :
      {B : Type κ} (Q : A → Disk → Type 0) (R : B → Disk → Type 0) (E : Disk → Type 0)
      (x : Result A × Disk) (k : A → Io B)
      → Ends Q E x
      → ((a : A) (d : Disk) → Q a d → Ends R E (k a d))
      → Ends R E (continue x k)
  continue-Ends Q R E (ok a, d) k h next = next a d h
  continue-Ends Q R E (err e, d) k h next = h

  pub cleanup-Ends :
      (Q : A → Disk → Type 0) (E : Disk → Type 0) (x : Result A × Disk) (clean : Io (Unit {0}))
      → Ends Q E x
      → ((d : Disk) → E d → E (clean d).1)
      → Ends Q E (cleanup_after x clean)
  cleanup-Ends Q E (ok a, d) clean h keep = h
  cleanup-Ends Q E (err e, d) clean h keep = keep d h

  -- What always holds at the end holds of the disk that is left.
  pub Ends-always : (E : Disk → Type 0) (x : Result A × Disk) → Ends (λ _. E) E x → E x.1
  Ends-always E (ok a, d) h = h
  Ends-always E (err e, d) h = h

  pub Ends-map :
      (Q R : A → Disk → Type 0) (E F : Disk → Type 0) (x : Result A × Disk)
      → ((a : A) (d : Disk) → Q a d → R a d)
      → ((d : Disk) → E d → F d)
      → Ends Q E x
      → Ends R F x
  Ends-map Q R E F (ok a, d) f g h = f a d h
  Ends-map Q R E F (err e, d) f g h = g d h

  -- One operation: what it does when nothing goes wrong, the disk untouched, and torn.
  faulted-Ends :
      (Q : A → Disk → Type 0) (E : Disk → Type 0) (act : Io A) (tear : Tear) (d : Disk)
      → ((faults : List Fault) (alive : Bool) → Ends Q E (act (under d faults alive)))
      → ((faults : List Fault) (alive : Bool) → E (under d faults alive))
      → ((left : Bytes) (faults : List Fault) (alive : Bool) → E (tear left (under d faults alive)))
      → (alive : Bool) (faults : List Fault) → Ends Q E (attempt act tear (under d faults alive))
  faulted-Ends Q E act tear d done same broken false faults = same faults false
  faulted-Ends Q E act tear d done same broken true [] = done [] true
  faulted-Ends Q E act tear d done same broken true (fine ∷ faults) = done faults true
  faulted-Ends Q E act tear d done same broken true (fails ∷ faults) = same faults true
  faulted-Ends Q E act tear d done same broken true (torn left ∷ faults) = broken left faults true
  faulted-Ends Q E act tear d done same broken true (crashes none ∷ faults) = same faults false
  faulted-Ends Q E act tear d done same broken true (crashes (some left) ∷ faults) =
      broken left faults false

  pub attempt-Ends :
      (Q : A → Disk → Type 0) (E : Disk → Type 0) (act : Io A) (tear : Tear) (d : Disk)
      → ((faults : List Fault) (alive : Bool) → Ends Q E (act (under d faults alive)))
      → ((faults : List Fault) (alive : Bool) → E (under d faults alive))
      → ((left : Bytes) (faults : List Fault) (alive : Bool) → E (tear left (under d faults alive)))
      → Ends Q E (attempt act tear d)
  attempt-Ends Q E act tear d done same broken =
      faulted-Ends Q E act tear d done same broken d.alive d.faults

pub write_synced-Ends :
    (Q E : Disk → Type 0) (f : File) (bytes : Bytes) (d : Disk)
    → ((faults : List Fault) (alive : Bool) → Q (put f (some bytes) (under d faults alive)))
    → ((faults : List Fault) (alive : Bool) → E (under d faults alive))
    → ((left : Bytes) (faults : List Fault) (alive : Bool)
        → E (put f (some left) (under d faults alive)))
    → Ends (λ _. Q) E (write_synced f bytes d)
unfolding write_synced
write_synced-Ends Q E f bytes d done same broken = attempt-Ends (λ _. Q) E _ _ d done same broken

under_at :
    (f : File) (d : Disk) (faults : List Fault) (alive : Bool)
    → at f (under d faults alive) ≡ at f d
under_at primary d faults alive = refl
under_at File.temporary d faults alive = refl
under_at File.backup_temporary d faults alive = refl
under_at File.backup d faults alive = refl
under_at File.restore_temporary d faults alive = refl
under_at File.rollback_temporary d faults alive = refl

pub read-Ends :
    (E : Disk → Type 0) (f : File) (bytes : Bytes) (d : Disk)
    → at f d ≡ some bytes
    → ((faults : List Fault) (alive : Bool) → E (under d faults alive))
    → Ends (λ a d'. (a ≡ bytes) × E d') E (read f d)
unfolding read
read-Ends E f bytes d there same =
    attempt-Ends (λ a d'. (a ≡ bytes) × E d') E _ _ d
      (λ faults alive. rw (under_at f d faults alive ∙ there) (refl, same faults alive)) same
      (λ _. same)

pub rename-Ends :
    (Q E : Disk → Type 0) (from to : File) (bytes : Bytes) (d : Disk)
    → at from d ≡ some bytes
    → ((faults : List Fault) (alive : Bool)
        → Q (put to (some bytes) (put from none (under d faults alive))))
    → ((faults : List Fault) (alive : Bool) → E (under d faults alive))
    → Ends (λ _. Q) E (rename from to d)
unfolding rename
rename-Ends Q E from to bytes d there done same =
    attempt-Ends (λ _. Q) E _ _ d
      (λ faults alive. rw (under_at from d faults alive ∙ there) (done faults alive)) same
      (λ _. same)

pub sync_parent-Ends :
    (Q E : Disk → Type 0) (d : Disk)
    → ((faults : List Fault) (alive : Bool) → Q (under d faults alive))
    → ((faults : List Fault) (alive : Bool) → E (under d faults alive))
    → Ends (λ _. Q) E (sync_parent d)
unfolding sync_parent
sync_parent-Ends Q E d done same = attempt-Ends (λ _. Q) E _ _ d done same (λ _. same)

-- A removal, of a file that may be missing.
pub remove_file-Ends :
    (Q : Disk → Type 0) (f : File) (d : Disk)
    → ((faults : List Fault) (alive : Bool) → Q (put f none (under d faults alive)))
    → ((faults : List Fault) (alive : Bool) → Q (under d faults alive))
    → Ends (λ _. Q) Q (remove_file f d)
unfolding remove_file
remove_file-Ends Q f d done same =
    attempt-Ends (λ _. Q) Q _ _ d
      (λ faults alive. elim (Option-cases (at f (under d faults alive))) [
        | inl missing ↦ rw missing (same faults alive)
        | inr (bytes, there) ↦ rw there (done faults alive)
      ])
      same (λ _. same)
