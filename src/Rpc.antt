-- ===== src/Rpc.antt =====
-- src/rpc.rs: the state of the server as far as its methods read or write it, the answers of the
-- methods, and `mutate_and_save` and `publish_new_events`.
pub mod Requests
pub mod Methods
pub mod Reads
pub mod Dispatch
pub mod Atomic
pub mod Signed
pub mod Authority
pub mod Paging
pub mod Client
pub mod Stream
pub mod Delivery
pub mod Valid
use aomori.Prelude.{ℕ, String, Bool, Option, List, ◌++◌, length, drop, wrapping_add}
use aomori.Json.{Value}
use aomori.Result.{Error, Result, ok, err}
use aomori.Model.{WorldState, Account, Entity, EntityId, Receipt, QuestDefinition, WorldEvent}
use aomori.External.{External}
use aomori.Storage.Store.{SnapshotStore}
use aomori.Runtime.{Outcome}
use aomori.Runtime.Script.{LuaLimits}

-- `events` is the channel: every event that was sent to it so far, in order.
pub record AppState : Type 0 where
  pub world : WorldState
  pub events : List WorldEvent
  pub lua_limits : LuaLimits
  pub admin_token : Option String
  pub allow_unsigned_commands : Bool
  pub snapshot_saves : ℕ
  pub snapshot_failures : ℕ

pub record Page : Type 0 where
  pub page_events : List WorldEvent
  pub next : ℕ
  pub latest : ℕ

pub record Info : Type 0 where
  pub head : ℕ
  pub state_root : String
  pub account_count : ℕ
  pub entity_count : ℕ
  pub contract_count : ℕ
  pub receipt_count : ℕ
  pub quest_count : ℕ
  pub quest_progress_count : ℕ
  pub event_count : ℕ
  pub lua_instruction_limit : ℕ
  pub lua_memory_limit : ℕ

-- The answers of the methods, before they are written as JSON.
pub data Answer : Type 0 where
  account_found : Option Account → Answer
  account_created : String → String → Answer
  receipt_found : Option Receipt → Answer
  command_receipt : Receipt → Answer
  entities_listed : List Entity → Answer
  quests_listed : List (QuestDefinition × String) → Answer
  events_page : Page → Answer
  info_answer : Info → Answer
  entity_found : Option Entity → Answer
  contract_deployed : String → ℕ → String → String → Answer
  entity_created : EntityId → String → Answer

-- What a method returns, and the state behind it.
abbrev pub Answered {ℓ} : Type ℓ → Type ℓ
Answered A = Result A × AppState

-- `publish_new_events`
unfoldable pub publish_new_events : AppState → ℕ → AppState
publish_new_events state previous_count = record state {
  events = state.events ++ drop previous_count state.world.events;
}

module _ {ext : External} (store : SnapshotStore ext) where
  -- What `mutate_and_save` does with the outcome of the mutation.
  unfoldable pub save_outcome {ℓ} : {A : Type ℓ} → AppState → Outcome A → Answered A
  save_outcome state (err e, w) = (err e, state)
  save_outcome state (ok v, w) =
      let counted = record state { snapshot_saves = wrapping_add state.snapshot_saves 1 } in
      elim (store.save state.snapshot_saves w) [
        | ok _ ↦ (ok v, record counted { world = w })
        | err e ↦
            (err e, record counted { snapshot_failures = wrapping_add state.snapshot_failures 1 })
      ]

  unfoldable pub mutate_and_save {ℓ} :
      {A : Type ℓ} → AppState → (WorldState → Outcome A) → Answered A
  mutate_and_save state mutate = save_outcome state (mutate state.world)
