-- ===== src/Ledger/Repeats.antt =====
-- src/ledger_runtime.rs: two executions of one command. Nothing in the source makes two runs of Lua
-- agree: what follows says what a candidate depends on.
use aomori.Prelude.{◌≡◌, refl, ap, ◌∙◌, String, Bool, true, []}
use aomori.Json.{Value}
use aomori.Lua.{json_to_lua}
use aomori.Result.{Result, ok, err, ◌>>=◌, ◌>>◌, require, execution_failed}
use aomori.Model.{WorldState, EntityId, Receipt}
use aomori.External.{External}
use aomori.Runtime.{Outcome}
use aomori.Runtime.Host.{Context}
use aomori.Runtime.Script.{Script, LuaLimits, Engine, Ran, run_script}
use aomori.Runtime.Execute.{
  contract_source, function_name, finish, execute_internal, execute_ledger_command,
}
use aomori.Ledger.Data.{LedgerTransaction}
use aomori.Ledger.Digest.{Wire}
use aomori.Ledger.Transaction.{tx_id_of}
use aomori.Ledger.Memory.{MemoryLedger}
use aomori.Ledger.Candidate.{
  on_copy, settle_candidate, check_ledger_transaction, execution_result, next_header, seal_block,
  execute_candidate,
}

-- The run of one command in the ledger's sandbox, whatever the source of the contract.
abbrev pub ledger_run : Engine → LuaLimits → EntityId → String → Value → String → Script
ledger_run engine limits entity_id action args source =
    engine.run limits true source (function_name true action) entity_id
      (json_to_lua engine.f64_of args)

module _ (ext : External) (one two : Engine) where
  finish_agrees :
      (s : WorldState) (id : EntityId) (action : String) (command : Bool) (r : Ran)
      → finish ext one s id action command r ≡ finish ext two s id action command r
  unfolding finish aomori.Runtime.Execute.receipt_of
  finish_agrees s id action command (ok v, t, messages) = refl
  finish_agrees s id action command (err e, t, messages) = refl

  finish_source :
      (s : WorldState) (id : EntityId) (action : String) (args : Value) (limits : LuaLimits)
      → one.f64_of ≡ two.f64_of
      → (source : String)
      → ledger_run one limits id action args source ≡ ledger_run two limits id action args source
      → let ctx : Context = record { entity_id = id; command = true } in
        finish ext one s id action true
          (run_script one.f64_of ctx (ledger_run one limits id action args source) s [])
        ≡ finish ext two s id action true
            (run_script two.f64_of ctx (ledger_run two limits id action args source) s [])
  finish_source s id action args limits same source h =
      let ctx : Context = record { entity_id = id; command = true } in
      ap
        (λ f.
          finish ext one s id action true
            (run_script f ctx (ledger_run one limits id action args source) s []))
        same
      ∙ (ap (λ x. finish ext one s id action true (run_script two.f64_of ctx x s [])) h
          ∙ finish_agrees s id action true _)

  from_source :
      (s : WorldState) (id : EntityId) (action : String) (args : Value) (limits : LuaLimits)
      → one.f64_of ≡ two.f64_of
      → ((source : String)
          → ledger_run one limits id action args source
            ≡ ledger_run two limits id action args source)
      → execute_ledger_command ext one s id action args limits
        ≡ execute_ledger_command ext two s id action args limits
  unfolding execute_ledger_command execute_internal
  from_source s id action args limits same h = either (contract_source s id)
    where
      run_of : Engine → String → Outcome Receipt
      run_of engine source = finish ext engine s id action true (
          run_script engine.f64_of (record { entity_id = id; command = true })
            (ledger_run engine limits id action args source) s [])

      either :
          (r : Result String)
          → elim r as (λ _. Outcome Receipt) [ ok source ↦ run_of one source | err e ↦ (err e, s) ]
            ≡ elim r as (λ _. Outcome Receipt) [
              | ok source ↦ run_of two source
              | err e ↦ (err e, s)
            ]
      either (ok source) = finish_source s id action args limits same source (h source)
      either (err e) = refl

-- Two executions that run the command of a transaction alike make the same candidate.
module _ (ext : External) (wire : Wire) (one two : Engine) where
  checks_agree :
      (l : MemoryLedger) (tx : LedgerTransaction)
      → check_ledger_transaction ext wire one l tx ≡ check_ledger_transaction ext wire two l tx
  unfolding check_ledger_transaction
  checks_agree l tx = refl

  seal_agrees :
      (l : MemoryLedger) (tx : LedgerTransaction) (id : String) (r : Receipt) (w : WorldState)
      → seal_block ext wire one l tx id r w ≡ seal_block ext wire two l tx id r w
  unfolding seal_block execution_result next_header
  seal_agrees l tx id r w = refl

  pub execute_candidate_agrees :
      (l : MemoryLedger) (tx : LedgerTransaction)
      → one.f64_of ≡ two.f64_of
      → ((source : String)
          → ledger_run one l.limits tx.entity_id tx.action tx.args source
            ≡ ledger_run two l.limits tx.entity_id tx.action tx.args source)
      → execute_candidate ext wire one l tx ≡ execute_candidate ext wire two l tx
  unfolding execute_candidate check_ledger_transaction seal_block execution_result next_header
  execute_candidate_agrees l tx same h =
      ap
        (λ o. do
          account ← check_ledger_transaction ext wire two l tx
          tx_id ← tx_id_of ext wire tx
          (receipt, ran) ← on_copy o
          require receipt.succeeded execution_failed
          candidate ← settle_candidate tx tx_id account.nonce ran
          seal_block ext wire two l tx tx_id receipt candidate)
        (from_source ext one two l.world tx.entity_id tx.action tx.args l.limits same h)
