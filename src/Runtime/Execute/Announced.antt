-- ===== src/Runtime/Execute/Announced.antt =====
-- src/runtime.rs: the world and the events behind a command, as `execute_internal` writes them.
use aomori.Prelude.{
  ℕ, String, Bool, false, ◌||◌, Option, none, some, List, [], ◌∷◌, ◌++◌, wrapping_add, text_key,
  nat_key, Key, ◌≟◌,
}
use aomori.Map.{BTreeMap, get}
use aomori.Json.{Value, text, object, field, end}
use aomori.Model.{WorldState, WorldEvent, Entity, EntityId, QuestProgress}
use aomori.Runtime.Changes.{change_name, status_name}

-- The kind, the entity and the payload of an event.
abbrev pub Note : Type 0
Note = String × Option EntityId × Value

-- Events with one head and consecutive ids, and the id behind them.
abbrev pub numbered : ℕ → ℕ → List Note → List WorldEvent
numbered id head [] = []
numbered id head ((kind, entity_id, payload) ∷ notes) =
    record { id = id; head = head; kind = kind; entity_id = entity_id; payload = payload }
    ∷ numbered (wrapping_add id 1) head notes

abbrev pub id_behind : ℕ → List Note → ℕ
id_behind id [] = id
id_behind id (note ∷ notes) = id_behind (wrapping_add id 1) notes

abbrev pub announce : WorldState → List Note → WorldState
announce s notes = record s {
  next_event_id = id_behind s.next_event_id notes;
  events = s.events ++ numbered s.next_event_id s.head notes;
}

abbrev pub entity_note : BTreeMap EntityId Entity → BTreeMap EntityId Entity → EntityId → Note
entity_note before now id = (
  "entity_changed",
  some id,
  object (field "change" (text (change_name (get id before) (get id now))) end),
)

abbrev pub quest_note : Option QuestProgress → List Note
quest_note none = []
quest_note (some progress) =
    (
      "quest_progress_changed",
      some progress.actor_id,
      object (
          field "quest_id" (text progress.quest_id)
            (field "status" (text (status_name progress.status)) end)),
    )
    ∷ []

abbrev pub quest_notes : BTreeMap String QuestProgress → List String → List Note
quest_notes now [] = []
quest_notes now (key ∷ keys) = quest_note (get key now) ++ quest_notes now keys

abbrev pub command_note : EntityId → String → Note
command_note id action = ("command_executed", some id, object (field "action" (text action) end))

-- Whether a key is in a list.
abbrev pub mentions {ℓ} : {K : Type ℓ} ⦃o : Key K⦄ → K → List K → Bool
mentions k [] = false
mentions k (j ∷ js) = j ≟ k || mentions k js
