-- ===== src/Demo/Steps.antt =====
-- src/demo.rs: what the steps of `initialize` and `ensure_current` leave of the entities.
use aomori.Prelude.{
  ℕ, ◌+◌, ◌%◌, ◌^◌, ◌==◌, wrapping_add, ◌≡◌, refl, ap, ◌∙◌, String, Bool, true, false, Option, none,
  some, [], ◌∷◌, text_key, nat_key, arith,
}
use aomori.Map.{BTreeMap, get, insert, contains_key}
use aomori.Text.{contract_key}
use aomori.Runtime.World.{deploy_version}
use aomori.Result.{
  ◌>>◌ as ◌then◌, Error, refuse_if, Result, ok, err, version_zero, contract_version_exists,
}
use aomori.Model.{WorldState, Entity, EntityId, Contract, published, is_actor, is_item, actor, item}
use aomori.External.{External}
use aomori.Runtime.{Outcome, commit}
use aomori.Migration.Ids.{IdsKept}
use aomori.Demo.{map_of, character, rowan_dialogue, Act, continue, find_named, find_named_entity}
use aomori.Demo.Initialize.{create}
use aomori.Demo.Upgrade.{
  current_contract, retarget, upgrade_actors, ensure_rowan, ensure_tablet, demo_version,
  newest_with,
}
use aomori.Demo.Named.{HasRoom, Staged, Ends, create_entity-Ends, made-extra, made-rowan}
use aomori.Demo.Quests.{continue-Ends}

pub HasRoom-IdsKept :
    {count : ℕ} {s t : WorldState} → IdsKept s t → HasRoom count s → HasRoom count t
HasRoom-IdsKept {count} {s} {t} kept h = record {
  free = λ k above. kept.still_free k (h.free k (omega (arith, kept.next_id, above)));
  room = omega (arith, kept.next_id, h.room);
}

pub Ends-world {ℓ} :
    {A : Type ℓ} (P : WorldState → Type 0) (o : Outcome A) → P o.1 → Ends (λ _. P) o
Ends-world P (ok a, s) h = h
Ends-world P (err e, s) h = tt

-- What is read from a world that holds `P`.
read-Ends :
    {A : Type 0} (P : WorldState → Type 0) (r : Result A) (s : WorldState)
    → P s
    → Ends (λ a t. (r ≡ ok a) × P t) (r, s)
read-Ends P (ok a) s h = (refl, h)
read-Ends P (err e) s h = tt

-- A check of a world that holds `P`, and what follows it.
pub checked {κ} :
    {A : Type 0} {B : Type κ} (P : WorldState → Type 0) (Q : B → WorldState → Type 0) (r : Result A)
    (s : WorldState) (k : A → Act B)
    → P s
    → ((a : A) (t : WorldState) → r ≡ ok a → P t → Ends Q (k a t))
    → Ends Q (continue (r, s) k)
checked P Q r s k here next =
    continue-Ends (λ a t. (r ≡ ok a) × P t) Q (r, s) k (read-Ends P r s here)
      λ a t (is_a, h). next a t is_a h

-- The same entities, and the same next id.
pub record SameEntities (s t : WorldState) : Type 0 where
  entities : t.entities ≡ s.entities
  next_id : t.next_entity_id ≡ s.next_entity_id

pub SameEntities-IdsKept : {s t : WorldState} → SameEntities s t → IdsKept s t
SameEntities-IdsKept same = record {
  next_id = same.next_id;
  still_free = λ k free. ap (get k) same.entities ∙ free;
}

pub Staged-SameEntities :
    {count : ℕ} {mira rowan : Option EntityId} {s t : WorldState}
    → SameEntities s t
    → Staged count mira rowan s
    → Staged count mira rowan t
unfolding find_named_entity
Staged-SameEntities same (room, cast) = (
  HasRoom-IdsKept (SameEntities-IdsKept same) room,
  record {
    is_mira = ap (find_named is_actor "Mira") same.entities ∙ cast.is_mira;
    is_rowan = ap (find_named is_actor "Rowan") same.entities ∙ cast.is_rowan;
  },
)

refused :
    (P : WorldState → Type 0) (s t : WorldState) (a b : Bool) (e f : Error)
    → P t
    → Ends {A = Unit {0}}
        (λ _. P)
        (commit s (◌then◌ (refuse_if a e) (◌then◌ (refuse_if b f) (ok (tt, t)))))
refused P s t true b e f h = tt
refused P s t false true e f h = tt
refused P s t false false e f h = h

pub deploy_version-Ends :
    (hash_text : String → String) (s : WorldState) (name : String) (version : ℕ) (source : String)
    → Ends (λ _. SameEntities s) (deploy_version hash_text s name version source)
unfolding deploy_version
deploy_version-Ends hash_text s name version source =
    refused (SameEntities s) s
      (record s {
        contracts =
            insert (contract_key name version)
              (record {
                name = name;
                version = version;
                source = source;
                source_hash = hash_text source;
                status = published;
              })
              s.contracts;
        head = wrapping_add s.head 1;
      })
      (version == 0) (contains_key (contract_key name version) s.contracts) version_zero
      contract_version_exists (record { entities = refl; next_id = refl })

pub current_contract-Ends :
    (ext : External) (source : String) (s : WorldState)
    → Ends (λ _. SameEntities s) (current_contract ext source s)
unfolding current_contract
current_contract-Ends ext source s = newest (newest_with _ s.contracts)
  where
    version : ℕ
    version = (demo_version s.contracts + 1) % (2 ^ 32)

    newest :
        (o : Option (String × Contract))
        → Ends
            (λ _. SameEntities s)
            (elim o as (λ _. Outcome (String × Bool)) [
              | some (key, _) ↦ (ok (key, false), s)
              | none ↦
                  continue
                    (deploy_version ext.hash_text s "demo" version source)
                    (λ _ t. (ok (contract_key "demo" version, true), t))
            ])
    newest (some (key, _)) = record { entities = refl; next_id = refl }
    newest none =
        continue-Ends (λ _. SameEntities s) (λ _. SameEntities s)
          (deploy_version ext.hash_text s "demo" version source) _
          (deploy_version-Ends ext.hash_text s "demo" version source) λ _ t same. same

retarget-free :
    (contracts : BTreeMap String Contract) (target : String) (m : BTreeMap EntityId Entity)
    (k : EntityId)
    → get k m ≡ none
    → get k (retarget contracts target m).0 ≡ none
unfolding retarget get
retarget-free contracts target [] k free = refl
retarget-free contracts target ((j, e) ∷ m) k free =
    ground (arith, retarget-free contracts target m k)

pub upgrade_actors-Ends :
    (target : String) (s : WorldState) → Ends (λ _. IdsKept s) (upgrade_actors target s)
unfolding upgrade_actors
upgrade_actors-Ends target s = record {
  next_id = refl;
  still_free = retarget-free s.contracts target s.entities;
}

fewer :
    {count : ℕ} {mira rowan : Option EntityId} {s : WorldState}
    → Staged (count + 1) mira rowan s
    → Staged count mira rowan s
fewer (room, cast) = (record { free = room.free; room = omega (arith, room.room) }, cast)

-- Rowan is found behind `ensure_rowan`, under the id that it returns, and so is Mira, as before.
pub ensure_rowan-Ends :
    (target : String) (village mira : EntityId) (s : WorldState)
    → HasRoom 2 s
    → find_named_entity s is_actor "Mira" ≡ some mira
    → Ends (λ r. Staged 1 (some mira) (some r.0)) (ensure_rowan target village s)
unfolding ensure_rowan get
ensure_rowan-Ends target village mira s room is_mira =
    rowan (find_named_entity s is_actor "Rowan") refl
  where
    rowan :
        (o : Option EntityId)
        → find_named_entity s is_actor "Rowan" ≡ o
        → Ends
            (λ r. Staged 1 (some mira) (some r.0))
            (elim o as (λ _. Outcome (EntityId × Bool)) [
              | some id ↦ (ok (id, false), s)
              | none ↦
                  continue
                    (create actor (some target) village (character "Rowan" rowan_dialogue) s)
                    (λ id t. (ok (id, true), t))
            ])
    rowan (some id) is_rowan = fewer (room, record { is_mira = is_mira; is_rowan = is_rowan })
    rowan none missing =
        continue-Ends (λ id. Staged 1 (some mira) (some id)) (λ r. Staged 1 (some mira) (some r.0))
          (create actor (some target) village (character "Rowan" rowan_dialogue) s) _
          (create_entity-Ends (λ id. Staged 1 (some mira) (some id)) s actor "admin" (some target)
            (some village) (character "Rowan" rowan_dialogue)
            (made-rowan 1 (some mira) _ s refl refl
              (room, record { is_mira = is_mira; is_rowan = missing })))
          λ id t staged. staged

pub ensure_tablet-Ends :
    (ruins : EntityId) (mira rowan : Option EntityId) (s : WorldState)
    → Staged 1 mira rowan s
    → Ends (λ _. Staged 0 mira rowan) (ensure_tablet ruins s)
unfolding ensure_tablet get
ensure_tablet-Ends ruins mira rowan s staged = tablet (find_named_entity s is_item "stone tablet")
  where
    tablet :
        (o : Option EntityId)
        → Ends
            (λ _. Staged 0 mira rowan)
            (elim o as (λ _. Outcome Bool) [
              | some id ↦ (ok false, s)
              | none ↦
                  continue
                    (create item none ruins (map_of "name" "stone tablet") s)
                    (λ id t. (ok true, t))
            ])
    tablet (some id) = fewer staged
    tablet none =
        continue-Ends (λ _. Staged 0 mira rowan) (λ _. Staged 0 mira rowan)
          (create item none ruins (map_of "name" "stone tablet") s) _
          (create_entity-Ends (λ _. Staged 0 mira rowan) s item "admin" none (some ruins)
            (map_of "name" "stone tablet") (made-extra 0 mira rowan _ s refl refl staged))
          λ id t after. after
