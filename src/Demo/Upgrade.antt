-- ===== src/Demo/Upgrade.antt =====
-- src/demo.rs: `ensure_current`
use aomori.Prelude.{
  ℕ, ◌+◌, ◌^◌, ◌%◌, String, Bool, true, false, not, ◌&&◌, ◌||◌, Option, none, some, List, [], ◌∷◌,
  leb, ◌==◌, nat_key, text_key, ◌≟◌, and_then, wrapping_add, if◌then◌else◌,
}
use aomori.Map.{BTreeMap, get, insert, contains_key}
use aomori.Json.{as_str}
use aomori.Result.{
  ok, require, ok_or, demo_contract_missing, demo_village_missing, demo_ruins_missing,
  demo_mira_missing,
}
use aomori.Model.{
  WorldState, Contract, Entity, EntityId, actor, item, is_actor, is_zone, is_item, QuestDefinition,
  QuestProgress, QuestStatus, accepted, completed,
}
use aomori.Model.Validate.{validate}
use aomori.External.{External}
use aomori.Text.{contract_key, quest_progress_key}
use aomori.Runtime.World.{deploy_version}
use aomori.Migration.{migrate_legacy_inventories}
use aomori.Demo.{
  Act, ◌>>=◌, ◌>>◌, reading, writing, is_named, find_named_entity, lost_key_quest,
  ruins_tablet_quest, open_shrine_quest, map_of, character, rowan_dialogue,
}
use aomori.Demo.Initialize.{is_nonempty, create, insert_quest, initialize}

abbrev is_demo : Contract → Bool
is_demo contract = contract.name ≟ "demo"

abbrev pub any_demo : BTreeMap String Contract → Bool
any_demo [] = false
any_demo ((_, contract) ∷ contracts) = is_demo contract || any_demo contracts

-- `.max_by_key(...)`: the last of the greatest version.
abbrev newer : String × Contract → Option (String × Contract) → Option (String × Contract)
newer (key, contract) none = some (key, contract)
newer (key, contract) (some (k, c)) =
    if leb contract.version c.version then some (k, c) else some (key, contract)

unfoldable pub newest_with :
    (Contract → Bool) → BTreeMap String Contract → Option (String × Contract)
newest_with test [] = none
newest_with test ((key, contract) ∷ contracts) =
    let rest = newest_with test contracts in
    if test contract then newer (key, contract) rest else rest

-- `.max().unwrap_or(0)` over the versions of the demo
unfoldable pub demo_version : BTreeMap String Contract → ℕ
demo_version contracts = elim (newest_with is_demo contracts) [
  | none ↦ 0
  | some (_, contract) ↦ contract.version
]

abbrev deploy_next : External → String → Act (String × Bool)
deploy_next ext source s =
    let version = (demo_version s.contracts + 1) % (2 ^ 32) in
    (do
      λ s1. deploy_version ext.hash_text s1 "demo" version source
      reading λ _. ok (contract_key "demo" version, true))
      s

-- The key of the newest demo contract with this source, which is deployed if there is none.
unfoldable pub current_contract : External → String → Act (String × Bool)
current_contract ext source s =
    let is_current : Contract → Bool =
      λ contract. is_demo contract && (contract.source_hash ≟ ext.hash_text source) in
    elim (newest_with is_current s.contracts) [
      | some (key, _) ↦ (ok (key, false), s)
      | none ↦ deploy_next ext source s
    ]

abbrev is_demo_key : BTreeMap String Contract → String → Bool
is_demo_key contracts key = elim (get key contracts) [ none ↦ false | some c ↦ is_demo c ]

abbrev has_demo_contract : BTreeMap String Contract → Option String → Bool
has_demo_contract contracts none = false
has_demo_contract contracts (some key) = is_demo_key contracts key

abbrev is_demo_actor : BTreeMap String Contract → Entity → Bool
is_demo_actor contracts entity =
    has_demo_contract contracts entity.contract || (is_actor entity.kind && is_named "Mira" entity)

abbrev legacy_status : String → Option QuestStatus
legacy_status status =
    if status ≟ "accepted"
    then some accepted
    else if status ≟ "completed"
    then some completed
    else none

-- `entity.data.get("quest")`, as a status that the old contract wrote
abbrev old_progress : Entity → Option QuestStatus
old_progress entity = and_then (and_then (get "quest" entity.attributes) as_str) legacy_status

abbrev note :
    EntityId → Option QuestStatus → List (EntityId × QuestStatus) → List (EntityId × QuestStatus)
note id none found = found
note id (some status) found = (id, status) ∷ found

abbrev names : String → Option String → Bool
names target none = false
names target (some key) = key ≟ target

-- What the loop over the entities leaves: the entities, the old progress, and whether one changed.
abbrev Retargeted : Type 0
Retargeted = BTreeMap EntityId Entity × List (EntityId × QuestStatus) × Bool

unfoldable pub retarget : BTreeMap String Contract → String → BTreeMap EntityId Entity → Retargeted
retarget contracts target [] = ([], [], false)
retarget contracts target ((key, entity) ∷ entities) =
    let (rest, found, changed) = retarget contracts target entities in
    if is_demo_actor contracts entity
    then (
      (key, record entity { contract = some target }) ∷ rest,
      note entity.id (old_progress entity) found,
      not (names target entity.contract) || changed,
    )
    else ((key, entity) ∷ rest, found, changed)

-- The loop over the old progress: an entry that is there stays.
unfoldable pub adopt_progress :
    List (EntityId × QuestStatus)
    → BTreeMap String QuestProgress
    → BTreeMap String QuestProgress × Bool
adopt_progress [] progress = (progress, false)
adopt_progress ((actor_id, status) ∷ found) progress =
    let key = quest_progress_key actor_id "lost_key" in
    let entry : QuestProgress = record {
      quest_id = "lost_key";
      actor_id = actor_id;
      status = status;
    } in
    let kept = adopt_progress found progress in
    let (added, _) = adopt_progress found (insert key entry progress) in
    if contains_key key progress then kept else (added, true)

abbrev pub eq_texts : List String → List String → Bool
eq_texts [] [] = true
eq_texts (a ∷ as_) (b ∷ bs) = (a ≟ b) && eq_texts as_ bs
eq_texts [] (b ∷ bs) = false
eq_texts (a ∷ as_) [] = false

abbrev pub same_bool : Bool → Bool → Bool
same_bool true b = b
same_bool false b = not b

-- `QuestDefinition: PartialEq`
unfoldable pub eq_quest : QuestDefinition → QuestDefinition → Bool
eq_quest a b =
    (a.id ≟ b.id)
    && ((a.title ≟ b.title)
        && ((a.giver_entity_id == b.giver_entity_id)
            && (eq_texts a.prerequisite_quest_ids b.prerequisite_quest_ids
                && ((a.required_item ≟ b.required_item)
                    && ((a.completion_zone ≟ b.completion_zone)
                        && ((a.reward_balance == b.reward_balance)
                            && same_bool a.consume_required_item b.consume_required_item))))))

abbrev pub is_quest : QuestDefinition → Option QuestDefinition → Bool
is_quest definition none = false
is_quest definition (some found) = eq_quest found definition

-- `if state.quests.get(&definition.id) != Some(&definition) { ... }`, and whether it was written.
unfoldable pub ensure_quest : QuestDefinition → Act Bool
ensure_quest definition s =
    if is_quest definition (get definition.id s.quests)
    then (ok false, s)
    else (ok true, insert_quest definition s)

-- The contract of the actors of the demo, and the progress that their data held.
unfoldable pub upgrade_actors : String → Act Bool
upgrade_actors target s =
    let (entities, found, retargeted) = retarget s.contracts target s.entities in
    let (progress, added) = adopt_progress found s.quest_progress in
    (ok (retargeted || added), record s { entities = entities; quest_progress = progress })

-- Rowan, who is created if he is missing.
unfoldable pub ensure_rowan : String → EntityId → Act (EntityId × Bool)
ensure_rowan target village s = elim (find_named_entity s is_actor "Rowan") [
  | some id ↦ (ok (id, false), s)
  | none ↦
      (do
        id ← create actor (some target) village (character "Rowan" rowan_dialogue)
        reading λ _. ok (id, true))
        s
]

unfoldable pub ensure_tablet : EntityId → Act Bool
ensure_tablet ruins s = elim (find_named_entity s is_item "stone tablet") [
  | some id ↦ (ok false, s)
  | none ↦ (do id ← create item none ruins (map_of "name" "stone tablet"); reading λ _. ok true) s
]

unfoldable pub ensure_quests : EntityId → EntityId → Act Bool
ensure_quests mira rowan = do
  first ← ensure_quest (lost_key_quest mira)
  second ← ensure_quest (ruins_tablet_quest rowan)
  third ← ensure_quest (open_shrine_quest rowan)
  reading λ _. ok (first || (second || third))

abbrev pub raise_if : Bool → WorldState → WorldState
raise_if true s = record s { head = wrapping_add s.head 1 }
raise_if false s = s

unfoldable pub upgrade : External → String → Act Bool
upgrade ext source = do
  reading λ s. require (any_demo s.contracts) demo_contract_missing
  inventory_migrated ← migrate_legacy_inventories
  (target, deployed) ← current_contract ext source
  moved ← upgrade_actors target
  village ← reading λ s. ok_or (find_named_entity s is_zone "Village") demo_village_missing
  ruins ← reading λ s. ok_or (find_named_entity s is_zone "Ruins") demo_ruins_missing
  mira ← reading λ s. ok_or (find_named_entity s is_actor "Mira") demo_mira_missing
  (rowan, rowan_created) ← ensure_rowan target village
  tablet_created ← ensure_tablet ruins
  quests_changed ← ensure_quests mira rowan
  reading (validate ext)
  let changed = deployed || (moved || (rowan_created || (tablet_created || quests_changed)))
  writing (raise_if changed)
  reading λ _. ok (changed || inventory_migrated)

unfoldable pub ensure_current : External → String → Act Bool
ensure_current ext source s =
    if is_nonempty s.entities || is_nonempty s.contracts
    then upgrade ext source s
    else (do player ← initialize ext source; reading λ _. ok true) s
