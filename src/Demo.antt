-- ===== src/Demo.antt =====
-- src/demo.rs: chains of operations on the world, the quests of the demo, and its small helpers.
pub mod Initialize
pub mod Upgrade
pub mod Named
pub mod Quests
pub mod Steps
pub mod Upgraded
pub mod Current
use aomori.Prelude.{
  ℕ, String, Bool, true, false, ◌&&◌, Option, none, some, List, [], ◌∷◌, text_key, ◌≟◌,
  if◌then◌else◌, and_then,
}
use aomori.Map.{BTreeMap, get}
use aomori.Json.{Value, text, as_str}
use aomori.Result.{Result, ok, err}
use aomori.Model.{
  WorldState, Entity, EntityId, EntityKind, QuestDefinition, actor, zone, item, is_actor, is_zone,
  is_item,
}
use aomori.Runtime.{Outcome}

-- An operation on the world; `?` leaves what was written before it.
abbrev pub Act {ℓ} : Type ℓ → Type ℓ
Act A = WorldState → Outcome A

abbrev pub continue {ℓ κ} : {A : Type ℓ} {B : Type κ} → Outcome A → (A → Act B) → Outcome B
continue (err e, s) k = (err e, s)
continue (ok a, s) k = k a s

infixl 5 ◌>>=◌ ◌>>◌
abbrev pub ◌>>=◌ {ℓ κ} : {A : Type ℓ} {B : Type κ} → Act A → (A → Act B) → Act B
◌>>=◌ m k s = continue (m s) k

abbrev pub ◌>>◌ {ℓ κ} : {A : Type ℓ} {B : Type κ} → Act A → Act B → Act B
◌>>◌ m k s = continue (m s) λ _. k

-- What only reads the world, and what only writes it.
abbrev pub reading {ℓ} : {A : Type ℓ} → (WorldState → Result A) → Act A
reading f s = (f s, s)

abbrev pub writing : (WorldState → WorldState) → Act (Unit {0})
writing f s = (ok tt, f s)

-- `entity.data.get("name").and_then(|value| value.as_str()) == Some(name)`
abbrev pub is_named : String → Entity → Bool
is_named name entity = elim (and_then (get "name" entity.attributes) as_str) [
  | none ↦ false
  | some found ↦ found ≟ name
]

-- `state.entities.values().find_map(...)`, with the test of the kind
unfoldable pub find_named :
    (EntityKind → Bool) → String → BTreeMap EntityId Entity → Option EntityId
find_named is_kind name [] = none
find_named is_kind name ((_, entity) ∷ entities) =
    if is_kind entity.kind && is_named name entity
    then some entity.id
    else find_named is_kind name entities

unfoldable pub find_named_entity : WorldState → (EntityKind → Bool) → String → Option EntityId
find_named_entity s is_kind name = find_named is_kind name s.entities

abbrev pub lost_key_quest : ℕ → QuestDefinition
lost_key_quest giver_entity_id = record {
  id = "lost_key";
  title = "The Lost Key";
  giver_entity_id = giver_entity_id;
  prerequisite_quest_ids = [];
  required_item = "brass key";
  completion_zone = "Village";
  reward_balance = 10;
  consume_required_item = true;
}

abbrev pub ruins_tablet_quest : ℕ → QuestDefinition
ruins_tablet_quest giver_entity_id = record {
  id = "ruins_tablet";
  title = "Echoes in Stone";
  giver_entity_id = giver_entity_id;
  prerequisite_quest_ids = [];
  required_item = "stone tablet";
  completion_zone = "Village";
  reward_balance = 6;
  consume_required_item = false;
}

abbrev pub open_shrine_quest : ℕ → QuestDefinition
open_shrine_quest giver_entity_id = record {
  id = "open_shrine";
  title = "The Open Shrine";
  giver_entity_id = giver_entity_id;
  prerequisite_quest_ids = "lost_key" ∷ [];
  required_item = "stone tablet";
  completion_zone = "Ruins";
  reward_balance = 4;
  consume_required_item = false;
}

-- `map(key, value)`
abbrev pub map_of : String → String → BTreeMap String Value
map_of key value = (key, text value) ∷ []

-- The data of a character, in the order of the keys.
abbrev pub character : String → String → BTreeMap String Value
character name dialogue = ("dialogue", text dialogue) ∷ ("name", text name) ∷ []

abbrev pub rowan_dialogue : String
rowan_dialogue = "A stone tablet in the ruins may preserve the old road."
