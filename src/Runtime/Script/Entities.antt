-- ===== src/Runtime/Script/Entities.antt =====
-- src/runtime.rs: the entities under the host functions of `install`.
use aomori.Prelude.{
  ℕ, ◌≡◌, refl, ap, String, Option, none, some, Bool, true, false, arith, nat_key, text_key, ◌≟◌,
  ≟_iff, Bool-cases, inl, inr, if◌then◌else◌,
}
use aomori.Map.{BTreeMap, get, insert, remove, get-insert, get-remove}
use aomori.Model.{WorldState, Entity, EntityId}
use aomori.Runtime.Host.Call.{call_host}
use aomori.Runtime.Host.Steps.{call_host-HostStep}
use aomori.Runtime.Host.{HostCall, Context}
use aomori.Runtime.Host.Effects.{
  HostStep, idle, walked, relocated, taken, dropped, dropped_missing, transferred, spawned, updated,
  emitted, accepted_quest, completed_quest, credited,
}

-- An entity before and after a step by a caller with a given owner: if it is still there, its id,
-- kind, owner and contract are the same, and its data too unless the caller's owner owns it.
abbrev pub EntityKept : String → Option Entity → Option Entity → Type 0
EntityKept owner none o = Unit {0}
EntityKept owner (some e) none = Unit {0}
EntityKept owner (some e) (some f) =
    (f.id ≡ e.id)
    × (f.kind ≡ e.kind)
    × (f.owner ≡ e.owner)
    × (f.contract ≡ e.contract)
    × (((owner ≟ e.owner) ≡ false) → f.attributes ≡ e.attributes)

EntityKept-refl : (owner : String) (o : Option Entity) → EntityKept owner o o
EntityKept-refl owner none = tt
EntityKept-refl owner (some e) = (refl, refl, refl, refl, λ _. refl)

EntityKept-remove : (owner : String) (o : Option Entity) → EntityKept owner o none
EntityKept-remove owner none = tt
EntityKept-remove owner (some e) = tt

module _ (m : BTreeMap EntityId Entity) {n : BTreeMap EntityId Entity} (owner : String) where
  same_entities : n ≡ m → (id : EntityId) → EntityKept owner (get id m) (get id n)
  same_entities e id = rw e (EntityKept-refl owner (get id m))

  -- One entity is written, and what is written keeps it.
  written_entity :
      (k : EntityId) (f : Entity)
      → EntityKept owner (get k m) (some f)
      → n ≡ insert k f m
      → (id : EntityId) → EntityKept owner (get id m) (get id n)
  written_entity k f kept e id =
      rw (e, get-insert)
        (elim (Bool-cases (k ≟ id)) [
          | inl same ↦ rw (same, ← (≟_iff k id).0 same) kept
          | inr other ↦ rw other (EntityKept-refl owner (get id m))
        ])

  -- One entity is removed, or none.
  removed_entity :
      (b : Bool) (k : EntityId)
      → n ≡ (if b then remove k m else m)
      → (id : EntityId) → EntityKept owner (get id m) (get id n)
  removed_entity false k e id = same_entities e id
  removed_entity true k e id =
      rw (e, get-remove)
        (elim (Bool-cases (k ≟ id)) [
          | inl same ↦ rw same (EntityKept-remove owner (get id m))
          | inr other ↦ rw other (EntityKept-refl owner (get id m))
        ])

-- A change of the location alone.
EntityKept-place :
    (owner : String) {o : Option Entity} {e : Entity} (location : EntityId)
    → o ≡ some e
    → EntityKept owner o (some (record e { location = some location }))
EntityKept-place owner {o} {e} location h = rw h (refl, refl, refl, refl, λ _. refl)

-- The test of `update_entity_data` compares with the owner of the caller.
updated_owner :
    {o : Option Entity} {a b : Entity} (name : String)
    → o ≡ some a
    → o ≡ some b
    → (b.owner ≟ name) ≡ true
    → (a.owner ≟ name) ≡ false
    → ⊥
updated_owner name e f same other = ground arith

-- A step by an entity, where the id for a new entity is free.
HostStep-EntityKept :
    {ctx : Context} {s t : WorldState} {a : Entity}
    → get ctx.entity_id s.entities ≡ some a
    → get s.next_entity_id s.entities ≡ none
    → HostStep ctx s t
    → (id : EntityId) → EntityKept a.owner (get id s.entities) (get id t.entities)
HostStep-EntityKept {ctx} {s} {a = a} caller free (idle e) =
    same_entities s.entities a.owner (ap (λ v. v.entities) e)
HostStep-EntityKept {ctx} {s} {a = a} caller free (walked id _ w) =
    written_entity s.entities a.owner id (record (w.0) { location = some w.1.id })
      (EntityKept-place a.owner w.1.id w.3) (ap (λ v. v.entities) w.7)
HostStep-EntityKept {ctx} {s} {a = a} caller free (relocated id location w) =
    written_entity s.entities a.owner id (record (w.0) { location = some location })
      (EntityKept-place a.owner location w.3) (ap (λ v. v.entities) w.6)
HostStep-EntityKept {ctx} {s} {a = a} caller free (taken id w) =
    written_entity s.entities a.owner id (record (w.0) { location = some ctx.entity_id })
      (EntityKept-place a.owner ctx.entity_id w.3) (ap (λ v. v.entities) w.7)
HostStep-EntityKept {ctx} {s} {a = a} caller free (dropped id w) =
    written_entity s.entities a.owner id (record (w.3) { location = some w.1 })
      (EntityKept-place a.owner w.1 w.8) (ap (λ v. v.entities) w.9)
HostStep-EntityKept {ctx} {s} {a = a} caller free (dropped_missing _ w) =
    same_entities s.entities a.owner (ap (λ v. v.entities) w.6)
HostStep-EntityKept {ctx} {s} {a = a} caller free (transferred id target w) =
    written_entity s.entities a.owner id (record (w.1) { location = some target })
      (EntityKept-place a.owner target w.11) (ap (λ v. v.entities) w.14)
HostStep-EntityKept {ctx} {s} {a = a} caller free (spawned kind location _ w) =
    written_entity s.entities a.owner s.next_entity_id
      (record {
        id = s.next_entity_id;
        kind = w.0;
        owner = w.3.owner;
        location = location;
        contract = none;
        attributes = w.2;
      })
      (rw free tt) (ap (λ v. v.entities) w.9)
HostStep-EntityKept {ctx} {s} {a = a} caller free (updated id key _ w) =
    written_entity s.entities a.owner id
      (record (w.1) { attributes = insert key w.0 w.1.attributes })
      (rw w.5
        (refl, refl, refl, refl, λ other. absurd (updated_owner w.1.owner caller w.3.1 w.6 other)))
      (ap (λ v. v.entities) w.7)
HostStep-EntityKept {ctx} {s} {a = a} caller free (emitted _ _ _ w) =
    same_entities s.entities a.owner (ap (λ v. v.entities) w.5)
HostStep-EntityKept {ctx} {s} {a = a} caller free (accepted_quest _ w) =
    same_entities s.entities a.owner (ap (λ v. v.entities) w.5)
HostStep-EntityKept {ctx} {s} {a = a} caller free (completed_quest _ w) =
    removed_entity s.entities a.owner w.0.consume_required_item w.3 (ap (λ v. v.entities) w.12)
HostStep-EntityKept {ctx} {s} {a = a} caller free (credited _ w) =
    same_entities s.entities a.owner (ap (λ v. v.entities) w.5)

-- One host call by an entity that is there, when the id for a new entity is free: every entity that
-- is still there after it keeps its id, kind, owner and contract, and an entity of another owner
-- keeps its data.
pub call_host-EntityKept :
    (f64_of : ℕ → ℕ) (ctx : Context) (s : WorldState) (c : HostCall) {a : Entity}
    → get ctx.entity_id s.entities ≡ some a
    → get s.next_entity_id s.entities ≡ none
    → (id : EntityId)
    → EntityKept a.owner (get id s.entities) (get id (call_host f64_of ctx s c).1.entities)
call_host-EntityKept f64_of ctx s c caller free id =
    HostStep-EntityKept caller free (call_host-HostStep f64_of ctx s c) id
