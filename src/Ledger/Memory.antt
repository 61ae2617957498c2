-- ===== src/Ledger/Memory.antt =====
-- src/ledger_runtime.rs: `MemoryLedger` and `MemoryLedger::new`
use aomori.Prelude.{String, Bool, ◌&&◌, List, [], ◌∷◌, text_key, ◌≟◌, ◌==◌, leb, length}
use aomori.Json.{array, nil}
use aomori.Result.{
  Result, ok, ◌>>=◌, ◌>>◌, require, ok_or, for_each, serialization, world_not_readable,
  genesis_history_not_empty, genesis_key_required, not_hex, invalid_genesis_key,
  noncanonical_genesis_key, invalid_public_key, genesis_nonce_not_zero, invalid_instruction_limit,
  invalid_memory_limit,
}
use aomori.Model.{WorldState, Account}
use aomori.Model.Validate.{validate}
use aomori.External.{External}
use aomori.Runtime.Script.{LuaLimits}
use aomori.Ledger.Data.{GenesisManifest, BlockHeader, LedgerBlock}
use aomori.Ledger.Digest.{Wire, Domain, hash, hash_of}
use aomori.Ledger.Transaction.{genesis_hash_of}
use aomori.Ledger.Block.{genesis_parent, header_hash, validate_commitments}

pub record MemoryLedger : Type 0 where
  pub world : WorldState
  pub genesis : GenesisManifest
  pub genesis_hash : String
  pub tip : BlockHeader
  pub blocks : List LedgerBlock
  pub limits : LuaLimits

abbrev is_empty {ℓ} : {A : Type ℓ} → List A → Bool
is_empty xs = length xs == 0

module _ (ext : External) (wire : Wire) where
  unfoldable pub state_digest : WorldState → Result String
  state_digest world = hash_of wire Domain.state (wire.world_value (record world { receipts = [] }))

  unfoldable pub check_genesis_account : String × Account → Result (Unit {0})
  check_genesis_account (_, account) = do
    public_key ← ok_or account.public_key genesis_key_required
    bytes ← ok_or (ext.hex_decode public_key) not_hex
    require (length bytes == 32) invalid_genesis_key
    require (wire.hex_encode bytes ≟ public_key) noncanonical_genesis_key
    require (ext.is_key bytes) invalid_public_key
    require (account.nonce == 0) genesis_nonce_not_zero

  unfoldable pub genesis_world : GenesisManifest → Result WorldState
  genesis_world genesis = do
    world ← ok_or (wire.world_of genesis.initial_world) world_not_readable
    validate ext world
    require (is_empty world.receipts && (is_empty world.events && (world.next_event_id == 1)))
        genesis_history_not_empty
    for_each world.accounts check_genesis_account
    ok world

  unfoldable pub genesis_limits : GenesisManifest → Result LuaLimits
  genesis_limits genesis = do
    config ← ok_or (wire.limits_of genesis.execution_limits) serialization
    require (leb 1000 config.instruction_limit && leb config.instruction_limit 10000000)
        invalid_instruction_limit
    require (leb 1048576 config.memory_limit && leb config.memory_limit 67108864)
        invalid_memory_limit
    ok (record { instruction_limit = config.instruction_limit; memory_limit = config.memory_limit })

  unfoldable pub genesis_tip : GenesisManifest → String → WorldState → Result BlockHeader
  genesis_tip genesis genesis_hash world = do
    transactions_digest ← hash wire Domain.transactions (array nil)
    results_digest ← hash wire Domain.results (array nil)
    post_state_digest ← state_digest world
    ok (record {
      protocol_version = 1;
      chain_id = genesis.chain_id;
      genesis_hash = genesis_hash;
      runtime_rules_version = 1;
      height = 0;
      parent_hash = genesis_parent;
      tx_count = 0;
      transactions_digest = transactions_digest;
      results_digest = results_digest;
      post_state_digest = post_state_digest;
    })

  abbrev pub initial_block : BlockHeader → LedgerBlock
  initial_block tip = record { header = tip; transactions = []; execution_results = [] }

  unfoldable pub new_ledger : GenesisManifest → Result MemoryLedger
  new_ledger genesis = do
    genesis_hash ← genesis_hash_of wire genesis
    world ← genesis_world genesis
    limits ← genesis_limits genesis
    tip ← genesis_tip genesis genesis_hash world
    _ ← validate_commitments ext wire (initial_block tip)
    ok (record {
      world = world;
      genesis = genesis;
      genesis_hash = genesis_hash;
      tip = tip;
      blocks = initial_block tip ∷ [];
      limits = limits;
    })

  unfoldable pub tip_hash : MemoryLedger → Result String
  tip_hash l = header_hash ext wire l.tip
