-- ===== src/Ledger/Candidate.antt =====
-- src/ledger_runtime.rs: `MemoryLedger::execute_candidate` and `propose`
use aomori.Prelude.{
  ℕ, suc, String, true, ◌&&◌, Option, none, some, List, [], ◌∷◌, ◌++◌, text_key, nat_key, ◌≟◌, ◌==◌,
  ltb, drop, length, u64_mod, if◌then◌else◌,
}
use aomori.Map.{get, replace}
use aomori.Json.{Value, text, number, integer, pos, object, field, end, array, cons, nil}
use aomori.Result.{
  Result, ok, err, ◌>>=◌, ◌>>◌, require, ok_or, panicked, account_not_found, invalid_nonce,
  entity_not_found, not_the_entity_owner, execution_counter_exhausted, execution_failed,
  nonce_overflow, event_overflow, height_overflow,
}
use aomori.Model.{WorldState, Account, Receipt, WorldEvent}
use aomori.Model.Validate.{validate}
use aomori.External.{External}
use aomori.Runtime.{Outcome}
use aomori.Runtime.Script.{Engine}
use aomori.Runtime.Execute.{execute_ledger_command}
use aomori.Ledger.Canonical.{max_integer}
use aomori.Ledger.Data.{LedgerTransaction, BlockHeader, ExecutionResult, LedgerBlock}
use aomori.Ledger.Digest.{Wire, Domain, hash, hash_of}
use aomori.Ledger.Transaction.{verify_transaction, tx_id_of}
use aomori.Ledger.Block.{header_hash, validate_commitments}
use aomori.Ledger.Memory.{MemoryLedger, state_digest}

-- `n.checked_add(1)` on a `u64`
abbrev pub checked_next : ℕ → Option ℕ
checked_next n = if ltb (suc n) u64_mod then some (suc n) else none

-- `json!({"tx_id":tx_id,"from":tx.from,"nonce":tx.nonce})`, in the order of the keys
abbrev pub ledger_payload : String → LedgerTransaction → Value
ledger_payload tx_id tx = object (
    field "from" (text tx.from)
      (field "nonce" (number (integer (pos tx.nonce))) (field "tx_id" (text tx_id) end)))

abbrev first_id : List WorldEvent → Option ℕ
first_id [] = none
first_id (e ∷ es) = some e.id

abbrev last_id : List WorldEvent → Option ℕ
last_id [] = none
last_id (e ∷ []) = some e.id
last_id (e ∷ f ∷ es) = last_id (f ∷ es)

-- A command on a copy of the world, which is dropped after an error.
abbrev pub on_copy {ℓ} : {A : Type ℓ} → Outcome A → Result (A × WorldState)
on_copy (ok a, s) = ok (a, s)
on_copy (err e, s) = err e

-- The candidate with the next nonce of the sender and the event of the transaction.
unfoldable pub settle_candidate : LedgerTransaction → String → ℕ → WorldState → Result WorldState
settle_candidate tx tx_id account_nonce candidate = do
  nonce ← ok_or (checked_next account_nonce) nonce_overflow
  account ← ok_or (get tx.from candidate.accounts) panicked
  next_event_id ← ok_or (checked_next candidate.next_event_id) event_overflow
  ok (record candidate {
    accounts = replace tx.from (record account { nonce = nonce }) candidate.accounts;
    next_event_id = next_event_id;
    events =
        candidate.events
        ++ (record {
          id = candidate.next_event_id;
          head = candidate.head;
          kind = "ledger_transaction_executed";
          entity_id = some tx.entity_id;
          payload = ledger_payload tx_id tx;
        }
            ∷ []);
  })

-- `engine` stands for one execution of Lua: nothing makes two executions of a command agree.
module _ (ext : External) (wire : Wire) (engine : Engine) where
  -- The checks in front of the execution: the account of the sender.
  unfoldable pub check_ledger_transaction : MemoryLedger → LedgerTransaction → Result Account
  check_ledger_transaction l tx = do
    account ← ok_or (get tx.from l.world.accounts) account_not_found
    public_key ← ok_or account.public_key panicked
    verify_transaction ext wire tx public_key l.genesis.chain_id l.genesis_hash
    require (tx.nonce == account.nonce) invalid_nonce
    entity ← ok_or (get tx.entity_id l.world.entities) entity_not_found
    require (entity.owner ≟ tx.from) not_the_entity_owner
    require (ltb l.world.head max_integer && ltb l.world.next_event_id max_integer)
        execution_counter_exhausted
    ok account

  unfoldable pub execution_result :
      LedgerTransaction → String → Receipt → List WorldEvent → Result ExecutionResult
  execution_result tx tx_id receipt events = do
    events_digest ← hash_of wire Domain.events (wire.events_value events)
    ok (record {
      tx_id = tx_id;
      from = tx.from;
      nonce = tx.nonce;
      succeeded = true;
      messages = receipt.messages;
      result = receipt.result;
      first_event_id = first_id events;
      last_event_id = last_id events;
      events_digest = events_digest;
    })

  unfoldable pub next_header :
      MemoryLedger → String → ExecutionResult → WorldState → Result BlockHeader
  next_header l tx_id result candidate = do
    height ← ok_or (checked_next l.tip.height) height_overflow
    parent_hash ← header_hash ext wire l.tip
    transactions_digest ← hash wire Domain.transactions (array (cons (text tx_id) nil))
    results_digest ← hash_of wire Domain.results (wire.results_value (result ∷ []))
    post_state_digest ← state_digest ext wire candidate
    ok (record {
      protocol_version = 1;
      chain_id = l.genesis.chain_id;
      genesis_hash = l.genesis_hash;
      runtime_rules_version = 1;
      height = height;
      parent_hash = parent_hash;
      tx_count = 1;
      transactions_digest = transactions_digest;
      results_digest = results_digest;
      post_state_digest = post_state_digest;
    })

  -- What follows the execution: the candidate is validated and its block made and checked.
  unfoldable pub seal_block :
      MemoryLedger
      → LedgerTransaction
      → String
      → Receipt
      → WorldState
      → Result (WorldState × LedgerBlock)
  seal_block l tx tx_id receipt candidate = do
    validate ext candidate
    result ← execution_result tx tx_id receipt (drop (length l.world.events) candidate.events)
    header ← next_header l tx_id result candidate
    let block : LedgerBlock = record {
      header = header;
      transactions = tx ∷ [];
      execution_results = result ∷ [];
    }
    _ ← validate_commitments ext wire block
    ok (candidate, block)

  unfoldable pub execute_candidate :
      MemoryLedger → LedgerTransaction → Result (WorldState × LedgerBlock)
  execute_candidate l tx = do
    account ← check_ledger_transaction l tx
    tx_id ← tx_id_of ext wire tx
    (receipt, ran) ←
        on_copy (execute_ledger_command ext engine l.world tx.entity_id tx.action tx.args l.limits)
    require receipt.succeeded execution_failed
    candidate ← settle_candidate tx tx_id account.nonce ran
    seal_block l tx tx_id receipt candidate

  unfoldable pub propose : MemoryLedger → LedgerTransaction → Result LedgerBlock
  propose l tx = execute_candidate l tx >>= λ produced. ok produced.1
