-- ===== src/Runtime/Host/Quests.antt =====
-- src/runtime.rs: the host functions `accept_quest` and `complete_quest`
use aomori.Prelude.{
  String, Bool, true, false, ◌&&◌, Option, none, some, List, [], ◌∷◌, ◌==◌, text_key, nat_key, ◌≟◌,
  checked_add, and_then, if◌then◌else◌,
}
use aomori.Map.{get, contains_key, insert, remove}
use aomori.Json.{as_str}
use aomori.Result.{
  Result, ok, err, ◌>>=◌, ◌>>◌, require, refuse_if, ok_or, quest_not_found,
  quest_giver_does_not_match, quest_prerequisite_is_not_completed, caller_entity_has_no_location,
  quest_giver_not_found, quest_giver_is_not_here, quest_already_accepted, quest_already_completed,
  quest_is_not_accepted, return_to_complete_the_quest, required_item_is_missing,
  owner_account_not_found, balance_overflow,
}
use aomori.Model.{WorldState, EntityId, QuestProgress, accepted, completed, is_actor, is_completed}
use aomori.Model.Inventories.{located_at}
use aomori.Text.{quest_progress_key}
use aomori.Runtime.{Outcome, commit}
use aomori.Runtime.Host.{Context, Reply, word, amount, require_command, caller, inventory_of}

abbrev pub is_completed_at : EntityId → WorldState → String → Bool
is_completed_at actor_id s quest_id =
    elim (get (quest_progress_key actor_id quest_id) s.quest_progress) [
      | none ↦ false
      | some progress ↦ is_completed progress.status
    ]

-- No prerequisite is missing.
abbrev pub all_completed : EntityId → WorldState → List String → Bool
all_completed actor_id s [] = true
all_completed actor_id s (q ∷ qs) = is_completed_at actor_id s q && all_completed actor_id s qs

unfoldable pub accept_quest : Context → WorldState → String → EntityId → Outcome Reply
accept_quest ctx s quest_id giver_entity_id = commit s (do
  require_command ctx
  quest ← ok_or (get quest_id s.quests) quest_not_found
  require (quest.giver_entity_id == giver_entity_id) quest_giver_does_not_match
  require (all_completed ctx.entity_id s quest.prerequisite_quest_ids)
      quest_prerequisite_is_not_completed
  actor_location ←
      ok_or (and_then (get ctx.entity_id s.entities) λ e. e.location) caller_entity_has_no_location
  giver ← ok_or (get giver_entity_id s.entities) quest_giver_not_found
  require (is_actor giver.kind && located_at actor_location giver.location) quest_giver_is_not_here
  let key = quest_progress_key ctx.entity_id quest_id
  refuse_if (contains_key key s.quest_progress) quest_already_accepted
  let progress : QuestProgress = record {
    quest_id = quest_id;
    actor_id = ctx.entity_id;
    status = accepted;
  }
  ok (word "accepted", record s { quest_progress = insert key progress s.quest_progress }))

-- `entity.data.get("name").and_then(Value::as_str)` of the entity with an id
abbrev pub name_at : EntityId → WorldState → Option String
name_at id s = and_then (get id s.entities) λ e. and_then (get "name" e.attributes) as_str

abbrev pub is_named : String → Option String → Bool
is_named name none = false
is_named name (some n) = n ≟ name

-- The first item of a list that has the name.
abbrev pub find_item : String → WorldState → List EntityId → Option EntityId
find_item name s [] = none
find_item name s (id ∷ ids) = if is_named name (name_at id s) then some id else find_item name s ids

-- `.retain(|id| *id != item_id)`
abbrev pub retain_ne : EntityId → List EntityId → List EntityId
retain_ne id [] = []
retain_ne id (x ∷ xs) = let rest = retain_ne id xs in if x == id then rest else x ∷ rest

-- The item is used up: it leaves the inventory and the world.
abbrev pub consume : EntityId → EntityId → WorldState → WorldState
consume actor_id item_id s = record s {
  inventories = insert actor_id (retain_ne item_id (inventory_of actor_id s)) s.inventories;
  entities = remove item_id s.entities;
}

-- The progress of an actor in a quest, which must be accepted.
abbrev pub accepted_progress : Option QuestProgress → Result QuestProgress
accepted_progress none = err quest_is_not_accepted
accepted_progress (some progress) = elim progress.status [
  | accepted ↦ ok progress
  | completed ↦ err quest_already_completed
]

unfoldable pub complete_quest : Context → WorldState → String → Outcome Reply
complete_quest ctx s quest_id = commit s (do
  require_command ctx
  quest ← ok_or (get quest_id s.quests) quest_not_found
  let key = quest_progress_key ctx.entity_id quest_id
  progress ← accepted_progress (get key s.quest_progress)
  actor ← caller ctx s
  require (is_named quest.completion_zone (and_then actor.location λ id. name_at id s))
      return_to_complete_the_quest
  item_id ←
      ok_or (find_item quest.required_item s (inventory_of ctx.entity_id s))
        required_item_is_missing
  account ← ok_or (get actor.owner s.accounts) owner_account_not_found
  balance ← ok_or (checked_add account.balance quest.reward_balance) balance_overflow
  let paid = record s {
    accounts = insert actor.owner (record account { balance = balance }) s.accounts;
  }
  let used = if quest.consume_required_item then consume ctx.entity_id item_id paid else paid
  ok (
    amount quest.reward_balance,
    record used {
      quest_progress = insert key (record progress { status = completed }) s.quest_progress;
    },
  ))
