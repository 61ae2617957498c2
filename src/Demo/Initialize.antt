-- ===== src/Demo/Initialize.antt =====
-- src/demo.rs: `initialize`
use aomori.Prelude.{
  String, Bool, true, false, ◌||◌, Option, none, some, List, [], ◌∷◌, nat_key, text_key,
}
use aomori.Map.{BTreeMap, get, insert, replace}
use aomori.Json.{Value, text, number, integer, pos, object, field, end}
use aomori.Result.{ok, err, refuse_if, panicked, demo_requires_an_empty_world}
use aomori.Model.{WorldState, EntityId, EntityKind, actor, zone, item, QuestDefinition}
use aomori.Model.Validate.{validate}
use aomori.External.{External}
use aomori.Runtime.World.{deploy, create_entity}
use aomori.Demo.{
  Act, ◌>>=◌, ◌>>◌, reading, writing, lost_key_quest, ruins_tablet_quest, open_shrine_quest, map_of,
  character, rowan_dialogue,
}

abbrev pub is_nonempty {ℓ} : {A : Type ℓ} → List A → Bool
is_nonempty [] = false
is_nonempty (x ∷ xs) = true

-- `zone(state, name, description, exits)`
unfoldable pub create_zone : String → String → Value → Act EntityId
create_zone name description exits s =
    create_entity s zone "admin" none none
      (("description", text description) ∷ ("exits", exits) ∷ ("name", text name) ∷ [])

abbrev pub create : EntityKind → Option String → EntityId → BTreeMap String Value → Act EntityId
create kind contract location attributes s =
    create_entity s kind "admin" contract (some location) attributes

abbrev exit_to : EntityId → Value
exit_to id = number (integer (pos id))

-- `state.entities.get_mut(&village).unwrap().data.insert("exits".into(), ...)`
unfoldable pub set_exits : EntityId → Value → Act (Unit {0})
set_exits id exits s = elim (get id s.entities) [
  | none ↦ (err panicked, s)
  | some entity ↦ (
    ok tt,
    record s {
      entities =
          replace id (record entity { attributes = insert "exits" exits entity.attributes })
            s.entities;
    },
  )
]

abbrev pub insert_quest : QuestDefinition → WorldState → WorldState
insert_quest definition s = record s { quests = insert definition.id definition s.quests }

-- `source` is the text of contracts/demo.lua.
unfoldable pub initialize : External → String → Act EntityId
initialize ext source = do
  reading λ s.
      refuse_if (is_nonempty s.entities || is_nonempty s.contracts) demo_requires_an_empty_world
  λ s. deploy ext.hash_text s "demo" source
  village ←
      create_zone "Village" "A warm village at the edge of an old forest."
        (object (field "east" (exit_to 2) end))
  forest ←
      create_zone "Forest" "Tall trees hide a path toward the ruins."
        (object (field "east" (exit_to 3) (field "west" (exit_to village) end)))
  ruins ←
      create_zone "Ruins" "Broken stones surround a locked shrine."
        (object (field "west" (exit_to forest) end))
  set_exits village (object (field "east" (exit_to forest) end))
  player ← create actor (some "demo") village []
  _ ← create item none forest (map_of "name" "brass key")
  mira ← create actor (some "demo") village (character "Mira" "The ruins remember every traveler.")
  rowan ← create actor (some "demo") village (character "Rowan" rowan_dialogue)
  _ ← create item none ruins (map_of "name" "stone tablet")
  writing (insert_quest (lost_key_quest mira))
  writing (insert_quest (ruins_tablet_quest rowan))
  writing (insert_quest (open_shrine_quest rowan))
  reading (validate ext)
  reading λ _. ok player
