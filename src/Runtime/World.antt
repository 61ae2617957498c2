-- ===== src/Runtime/World.antt =====
-- `deploy`, `deploy_version`, `create_entity` and `push_event`
use aomori.Prelude.{
  ℕ, String, true, Option, none, some, [], ◌∷◌, ◌++◌, ◌==◌, text_key, nat_key, wrapping_add,
}
use aomori.Map.{BTreeMap, contains_key, insert}
use aomori.Json.{Value}
use aomori.Result.{
  ok, ◌>>◌, require, refuse_if, version_zero, contract_version_exists, account_not_found,
  contract_not_found,
}
use aomori.Model.{WorldState, Contract, published, Entity, EntityId, EntityKind, WorldEvent}
use aomori.Text.{contract_key}
use aomori.Runtime.{Outcome, commit}

unfoldable pub deploy_version :
    (String → String) → WorldState → String → ℕ → String → Outcome (Unit {0})
deploy_version hash_text state name version source = commit state (do
  refuse_if (version == 0) version_zero
  let key = contract_key name version
  refuse_if (contains_key key state.contracts) contract_version_exists
  let contract : Contract = record {
    name = name;
    version = version;
    source = source;
    source_hash = hash_text source;
    status = published;
  }
  ok (
    tt,
    record state {
      contracts = insert key contract state.contracts;
      head = wrapping_add state.head 1;
    },
  ))

unfoldable pub deploy : (String → String) → WorldState → String → String → Outcome (Unit {0})
unfolding deploy_version
deploy hash_text state name source = deploy_version hash_text state name 1 source

unfoldable pub create_entity :
    WorldState
    → EntityKind
    → String
    → Option String
    → Option EntityId
    → BTreeMap String Value
    → Outcome EntityId
create_entity state kind owner contract location attributes = commit state (do
  require (contains_key owner state.accounts) account_not_found
  require (elim contract [ none ↦ true | some c ↦ contains_key c state.contracts ])
      contract_not_found
  let id = state.next_entity_id
  let entity : Entity = record {
    id = id;
    kind = kind;
    owner = owner;
    location = location;
    contract = contract;
    attributes = attributes;
  }
  ok (
    id,
    record state {
      next_entity_id = wrapping_add state.next_entity_id 1;
      entities = insert id entity state.entities;
      head = wrapping_add state.head 1;
    },
  ))

unfoldable pub push_event : WorldState → String → Option EntityId → Value → WorldState
push_event state kind entity_id payload =
    let event : WorldEvent = record {
      id = state.next_event_id;
      head = state.head;
      kind = kind;
      entity_id = entity_id;
      payload = payload;
    } in
    record state {
      next_event_id = wrapping_add state.next_event_id 1;
      events = state.events ++ event ∷ [];
    }
