-- ===== src/Ledger/Data.antt =====
-- src/ledger.rs: the records of the protocol.
use aomori.Prelude.{ℕ, String, Bool, Option, List}
use aomori.Json.{Value}

pub record LedgerTransaction : Type 0 where
  pub protocol_version : ℕ
  pub chain_id : String
  pub genesis_hash : String
  pub from : String
  pub nonce : ℕ
  pub entity_id : ℕ
  pub action : String
  pub args : Value
  pub signature : String

pub record GenesisManifest : Type 0 where
  pub protocol_version : ℕ
  pub chain_id : String
  pub runtime_rules_version : ℕ
  pub encoding_version : ℕ
  pub initial_world : Value
  pub execution_limits : Value

pub record BlockHeader : Type 0 where
  pub protocol_version : ℕ
  pub chain_id : String
  pub genesis_hash : String
  pub runtime_rules_version : ℕ
  pub height : ℕ
  pub parent_hash : String
  pub tx_count : ℕ
  pub transactions_digest : String
  pub results_digest : String
  pub post_state_digest : String

-- `ok` is a constructor here, so the field of that name is `succeeded`.
pub record ExecutionResult : Type 0 where
  pub tx_id : String
  pub from : String
  pub nonce : ℕ
  pub succeeded : Bool
  pub messages : List String
  pub result : Value
  pub first_event_id : Option ℕ
  pub last_event_id : Option ℕ
  pub events_digest : String

pub record LedgerBlock : Type 0 where
  pub header : BlockHeader
  pub transactions : List LedgerTransaction
  pub execution_results : List ExecutionResult

-- src/ledger_runtime.rs
pub record ExecutionLimits : Type 0 where
  pub instruction_limit : ℕ
  pub memory_limit : ℕ
