-- ===== src/Model.antt =====
-- The data model of src/model.rs. A `u64` is a natural number below `u64_mod`.
pub mod Events
pub mod References
pub mod Locations
pub mod Inventories
pub mod Quests
pub mod Validate
pub mod Sound
use aomori.Prelude.{ℕ, String, Option, none, Bool, List, [], text_key, nat_key}
use aomori.Map.{BTreeMap, insert}
use aomori.Json.{Value}

abbrev pub EntityId : Type 0
EntityId = ℕ

pub data EntityKind : Type 0 where
  actor zone item : EntityKind

abbrev pub is_actor : EntityKind → Bool
is_actor actor = Bool.true
is_actor _ = Bool.false

abbrev pub is_zone : EntityKind → Bool
is_zone zone = Bool.true
is_zone _ = Bool.false

abbrev pub is_item : EntityKind → Bool
is_item item = Bool.true
is_item _ = Bool.false

-- `attributes` is the field `data` of the source.
pub record Entity : Type 0 where
  pub id : EntityId
  pub kind : EntityKind
  pub owner : String
  pub location : Option EntityId
  pub contract : Option String
  pub attributes : BTreeMap String Value

pub data ContractStatus : Type 0 where
  published deprecated : ContractStatus

pub record Contract : Type 0 where
  pub name : String
  pub version : ℕ
  pub source : String
  pub source_hash : String
  pub status : ContractStatus

pub record Account : Type 0 where
  pub name : String
  pub public_key : Option String
  pub nonce : ℕ
  pub balance : ℕ

pub record Transaction : Type 0 where
  pub from : String
  pub nonce : ℕ
  pub entity_id : EntityId
  pub action : String
  pub args : Value
  pub signature : Option String

-- `succeeded` is the field `ok` of the source.
pub record Receipt : Type 0 where
  pub tx_id : String
  pub from : String
  pub nonce : ℕ
  pub succeeded : Bool
  pub messages : List String
  pub result : Value
  pub state_root : String

pub data QuestStatus : Type 0 where
  accepted completed : QuestStatus

abbrev pub is_completed : QuestStatus → Bool
is_completed completed = Bool.true
is_completed accepted = Bool.false

pub record QuestDefinition : Type 0 where
  pub id : String
  pub title : String
  pub giver_entity_id : EntityId
  pub prerequisite_quest_ids : List String
  pub required_item : String
  pub completion_zone : String
  pub reward_balance : ℕ
  pub consume_required_item : Bool

pub record QuestProgress : Type 0 where
  pub quest_id : String
  pub actor_id : EntityId
  pub status : QuestStatus

-- `payload` is the field `data` of the source.
pub record WorldEvent : Type 0 where
  pub id : ℕ
  pub head : ℕ
  pub kind : String
  pub entity_id : Option EntityId
  pub payload : Value

pub record WorldState : Type 0 where
  pub accounts : BTreeMap String Account
  pub entities : BTreeMap EntityId Entity
  pub contracts : BTreeMap String Contract
  pub receipts : BTreeMap String Receipt
  pub quests : BTreeMap String QuestDefinition
  pub quest_progress : BTreeMap String QuestProgress
  pub inventories : BTreeMap EntityId (List EntityId)
  pub events : List WorldEvent
  pub next_event_id : ℕ
  pub next_entity_id : EntityId
  pub head : ℕ

-- `WorldState::genesis`
abbrev pub genesis : WorldState
unfolding insert
genesis = record {
  accounts =
      insert "admin" (record { name = "admin"; public_key = none; nonce = 0; balance = 0 }) [];
  entities = [];
  contracts = [];
  receipts = [];
  quests = [];
  quest_progress = [];
  inventories = [];
  events = [];
  next_event_id = 1;
  next_entity_id = 1;
  head = 0;
}
