-- ===== src/Rpc/Atomic.antt =====
-- src/rpc.rs: the outcomes of `mutate_and_save` and of the methods built on it.
use mathlib.Core.List.{append-nil}
use aomori.Prelude.{
  ◌≡◌, refl, sym, ap, ◌∙◌, List, [], ◌++◌, length, drop, ◌⊎◌, inl, inr, wrapping_add, drop-append,
}
use aomori.Result.{Error, Result, ok, err, Result-cases}
use aomori.Model.{WorldState, WorldEvent}
use aomori.Model.Validate.{validate}
use aomori.External.{External}
use aomori.Storage.Store.{SnapshotStore}
use aomori.Runtime.{Outcome}
use aomori.Runtime.Execute.Growth.{Grown}
use aomori.Rpc.{AppState, Answer, Answered, save_outcome, mutate_and_save, publish_new_events}
use aomori.Rpc.Methods.{answer, with_params}

pub record Served (ext : External) (s : AppState) (r : Answered Answer) : Type 0 where
  pub failed : (e : Error) → r.0 ≡ err e → (r.1.world ≡ s.world) × (r.1.events ≡ s.events)
  pub valid : (r.1.world ≡ s.world) ⊎ (validate ext r.1.world ≡ ok tt)
  pub new : List WorldEvent
  pub appended : r.1.world.events ≡ s.world.events ++ new
  pub sent : r.1.events ≡ s.events ++ new
  pub settings :
      (r.1.admin_token ≡ s.admin_token)
      × (r.1.allow_unsigned_commands ≡ s.allow_unsigned_commands)
      × (r.1.lua_limits ≡ s.lua_limits)

-- A method that leaves the world, the sent events and the settings.
pub still-Served :
    (ext : External) (s t : AppState) (r : Result Answer)
    → t.world ≡ s.world
    → t.events ≡ s.events
    → (t.admin_token ≡ s.admin_token)
      × (t.allow_unsigned_commands ≡ s.allow_unsigned_commands)
      × (t.lua_limits ≡ s.lua_limits)
    → Served ext s (r, t)
still-Served ext s t r same quiet settings = record {
  failed = λ e _. (same, quiet);
  valid = inl same;
  new = [];
  appended = ap (λ w. w.events) same ∙ sym (append-nil s.world.events);
  sent = quiet ∙ sym (append-nil s.events);
  settings = settings;
}

pub with_params-Served {ℓ} :
    {A : Type ℓ} (ext : External) (s : AppState) (r : Result A) (k : A → Answered Answer)
    → ((a : A) → Served ext s (k a))
    → Served ext s (with_params s r k)
with_params-Served ext s (ok a) k h = h a
with_params-Served ext s (err e) k h = still-Served ext s s (err e) refl refl (refl, refl, refl)

-- The state behind a save that went well.
abbrev pub saved : AppState → WorldState → AppState
saved s w = record s { snapshot_saves = wrapping_add s.snapshot_saves 1; world = w }

-- The state behind a save that failed.
abbrev pub unsaved : AppState → AppState
unsaved s = record s {
  snapshot_saves = wrapping_add s.snapshot_saves 1;
  snapshot_failures = wrapping_add s.snapshot_failures 1;
}

module _ {ℓ} {ext : External} (store : SnapshotStore ext) {A : Type ℓ} where
  -- A mutation either fails, or is not saved, or is saved and valid.
  save_outcome-cases :
      (s : AppState) (o : Outcome A)
      → ((e : Error) × (t : AppState) × (save_outcome store s o ≡ (err e, t))
          × (t.world ≡ s.world)
          × (t.events ≡ s.events)
          × (t.admin_token ≡ s.admin_token)
          × (t.allow_unsigned_commands ≡ s.allow_unsigned_commands)
          × (t.lua_limits ≡ s.lua_limits))
        ⊎ ((a : A) × (w : WorldState) × (o ≡ (ok a, w))
            × (save_outcome store s o ≡ (ok a, saved s w))
            × (validate ext w ≡ ok tt))
  unfolding save_outcome
  save_outcome-cases s (err e, w) = inl (e, s, refl, refl, refl, refl, refl, refl)
  save_outcome-cases s (ok a, w) = elim (Result-cases (store.save s.snapshot_saves w)) [
    | inl (_, h) ↦
        inr (a, w, refl, rw (h, save_outcome) refl, store.save-valid s.snapshot_saves w h)
    | inr (e, h) ↦ inl (e, unsaved s, rw (h, save_outcome) refl, refl, refl, refl, refl, refl)
  ]

  -- `mutate_and_save` is atomic: after an error the world is the one before the mutation, also when
  -- the mutation wrote to it or the save failed; after a success it is the world of the mutation,
  -- which returned that value, and it passes the validation.
  pub mutate_and_save-atomic :
      (s : AppState) (f : WorldState → Outcome A)
      → let r = mutate_and_save store s f in
        ((e : Error) × (r.0 ≡ err e) × (r.1.world ≡ s.world))
        ⊎ ((a : A) × (r.0 ≡ ok a)
            × (f s.world ≡ (ok a, r.1.world))
            × (validate ext r.1.world ≡ ok tt))
  unfolding mutate_and_save
  mutate_and_save-atomic s f = elim (save_outcome-cases s (f s.world)) [
    | inl (e, t, h, same, _, _, _, _) ↦ inl (e, ap (λ r. r.0) h, ap (λ r. r.1.world) h ∙ same)
    | inr (a, w, ran, h, valid) ↦ inr (
      a,
      ap (λ r. r.0) h,
      ran ∙ ap (λ v. (ok a, v)) (sym (ap (λ r. r.1.world) h)),
      ap (λ r. validate ext r.1.world) h ∙ valid,
    )
  ]

  -- The methods that send no events: their mutation appends none.
  pub silent-Served :
      (s : AppState) (f : WorldState → Outcome A) (g : A → AppState → Answer)
      → ((a : A) (w : WorldState) → f s.world ≡ (ok a, w) → w.events ≡ s.world.events)
      → Served ext s (answer (λ a t. (g a t, t)) (mutate_and_save store s f))
  unfolding mutate_and_save
  silent-Served s f g quiet = elim (save_outcome-cases s (f s.world)) [
    | inl (e, t, h, same, still, token, allowed, limits) ↦
        rw h (still-Served ext s t (err e) same still (token, allowed, limits))
    | inr (a, w, ran, h, valid) ↦ rw h (record {
      failed = λ e bad. cc;
      valid = inr valid;
      new = [];
      appended = quiet a w ran ∙ sym (append-nil s.world.events);
      sent = sym (append-nil s.events);
      settings = (refl, refl, refl);
    })
  ]

  -- The methods that send the events that their mutation appended.
  pub loud-Served :
      (s : AppState) (f : WorldState → Outcome A) (g : A → AppState → Answer)
      → ((a : A) (w : WorldState) → f s.world ≡ (ok a, w) → Grown s.world w)
      → Served ext s (
          answer
            (λ a t. (g a t, publish_new_events t (length s.world.events)))
            (mutate_and_save store s f))
  unfolding mutate_and_save publish_new_events
  loud-Served s f g grown = elim (save_outcome-cases s (f s.world)) [
    | inl (e, t, h, same, still, token, allowed, limits) ↦
        rw h (still-Served ext s t (err e) same still (token, allowed, limits))
    | inr (a, w, ran, h, valid) ↦ rw h (record {
      failed = λ e bad. cc;
      valid = inr valid;
      new = (grown a w ran).new;
      appended = (grown a w ran).appended;
      sent =
          ap (λ es. s.events ++ drop (length s.world.events) es) (grown a w ran).appended
          ∙ ap (λ es. s.events ++ es) (drop-append s.world.events (grown a w ran).new);
      settings = (refl, refl, refl);
    })
  ]
