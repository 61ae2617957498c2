-- ===== src/Rpc/Reads.antt =====
-- src/rpc.rs: the methods of `dispatch` that only read the world.
use aomori.Prelude.{
  ℕ, String, Bool, true, Option, none, some, List, [], ◌∷◌, map, length, take, ltb, text_key,
  nat_key, ◌≟◌, if◌then◌else◌,
}
use aomori.Map.{BTreeMap, get}
use aomori.Json.{Value}
use aomori.Result.{Result, ok, ◌>>=◌, ok_or, parameter_required}
use aomori.Model.{
  WorldState, Entity, EntityId, EntityKind, actor, zone, item, QuestDefinition, QuestStatus,
  accepted, completed, WorldEvent,
}
use aomori.Model.Inventories.{located_at}
use aomori.Model.Validate.{root}
use aomori.External.{External}
use aomori.Text.{quest_progress_key}
use aomori.Runtime.Script.{LuaLimits}
use aomori.Runtime.Host.Quests.{all_completed}
use aomori.Rpc.{
  Answer, Page, account_found, receipt_found, entities_listed, quests_listed, events_page,
  info_answer, entity_found,
}
use aomori.Rpc.Requests.{text_param, number_param, unwrap_or}

abbrev pub filter {ℓ} : {A : Type ℓ} → (A → Bool) → List A → List A
filter test [] = []
filter test (x ∷ xs) = if test x then x ∷ filter test xs else filter test xs

abbrev pub values {ℓ κ} : {K : Type ℓ} {V : Type κ} → BTreeMap K V → List V
values [] = []
values ((k, v) ∷ m) = v ∷ values m

-- `list.last().map(|event| event.id).unwrap_or(default)`
abbrev pub last_id : ℕ → List WorldEvent → ℕ
last_id default [] = default
last_id default (e ∷ es) = last_id e.id es

unfoldable pub get_account : WorldState → Value → Result Answer
get_account w p = do
  name ← ok_or (text_param "name" p) parameter_required
  ok (account_found (get name w.accounts))

unfoldable pub get_receipt : WorldState → Value → Result Answer
get_receipt w p = do
  tx_id ← ok_or (text_param "tx_id" p) parameter_required
  ok (receipt_found (get tx_id w.receipts))

-- `format!("{:?}", entity.kind).to_lowercase()`
abbrev pub kind_name : EntityKind → String
kind_name actor = "actor"
kind_name zone = "zone"
kind_name item = "item"

abbrev pub at_location : Option EntityId → Entity → Bool
at_location none entity = true
at_location (some id) entity = located_at id entity.location

abbrev pub of_kind : Option String → Entity → Bool
of_kind none entity = true
of_kind (some kind) entity = kind_name entity.kind ≟ kind

unfoldable pub list_entities : WorldState → Value → Result Answer
list_entities w p = ok (
    entities_listed (
      filter (of_kind (text_param "kind" p))
        (filter (at_location (number_param "location" p)) (values w.entities))))

abbrev pub status_text : QuestStatus → String
status_text accepted = "accepted"
status_text completed = "completed"

-- The status of a quest: of its progress, or by whether its prerequisites are completed.
unfoldable pub quest_status : Option EntityId → WorldState → QuestDefinition → String
quest_status none w quest = "available"
quest_status (some id) w quest = elim (get (quest_progress_key id quest.id) w.quest_progress) [
  | some progress ↦ status_text progress.status
  | none ↦ if all_completed id w quest.prerequisite_quest_ids then "available" else "locked"
]

unfoldable pub get_quests : WorldState → Value → Result Answer
get_quests w p = ok (
    quests_listed
      (map (λ quest. (quest, quest_status (number_param "actor_id" p) w quest)) (values w.quests)))

-- The page of events behind `since`.
unfoldable pub page_after : ℕ → ℕ → List WorldEvent → Page
page_after since limit events =
    let page = take limit (filter (λ e. ltb since e.id) events) in
    record { page_events = page; next = last_id since page; latest = last_id 0 events }

unfoldable pub get_events : WorldState → Value → Result Answer
get_events w p =
    let limit = unwrap_or 100 (number_param "limit" p) in
    ok (
      events_page (
        page_after (unwrap_or 0 (number_param "since" p)) (if ltb limit 500 then limit else 500)
          w.events))

unfoldable pub get_entity : WorldState → Value → Result Answer
get_entity w p = do
  id ← ok_or (number_param "entity_id" p) parameter_required
  ok (entity_found (get id w.entities))

unfoldable pub get_info : External → LuaLimits → WorldState → Result Answer
get_info ext limits w = ok (
    info_answer (record {
      head = w.head;
      state_root = root ext w;
      account_count = length w.accounts;
      entity_count = length w.entities;
      contract_count = length w.contracts;
      receipt_count = length w.receipts;
      quest_count = length w.quests;
      quest_progress_count = length w.quest_progress;
      event_count = length w.events;
      lua_instruction_limit = limits.instruction_limit;
      lua_memory_limit = limits.memory_limit;
    }))
