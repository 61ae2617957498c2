-- ===== src/Rpc/Methods.antt =====
-- src/rpc.rs: the methods of `dispatch` that write the world, and `aomori_query`, which runs a
-- contract.
use aomori.Prelude.{
  ℕ, String, Bool, true, false, not, ◌&&◌, Option, none, some, ◌%◌, ◌^◌, length, text_key,
  wrapping_add, is_some,
}
use aomori.Map.{BTreeMap, get, contains_key, insert}
use aomori.Json.{Value, object, end, get_field}
use aomori.Result.{
  Result, ok, err, ◌>>=◌, ◌>>◌, require, refuse_if, ok_or, parameter_required, invalid_parameter,
  account_already_exists, unsigned_transactions_disabled, unsigned_commands_disabled,
}
use aomori.Model.{WorldState, Account, EntityId, EntityKind, Transaction, Receipt}
use aomori.Model.Validate.{root}
use aomori.External.{External}
use aomori.Storage.Store.{SnapshotStore}
use aomori.Text.{contract_key}
use aomori.Runtime.{Outcome, commit}
use aomori.Runtime.World.{deploy_version, create_entity}
use aomori.Runtime.Script.{Engine}
use aomori.Runtime.Execute.{execute_with_limits}
use aomori.Runtime.Transaction.{execute_transaction_with_limits}
use aomori.Rpc.{
  AppState, Answer, Answered, account_created, command_receipt, contract_deployed, entity_created,
  mutate_and_save, publish_new_events,
}
use aomori.Rpc.Requests.{Derived, text_param, number_param, unwrap_or, object_param}

-- What is done with the value of a mutation that was saved.
abbrev pub answer {ℓ} :
    {A : Type ℓ} → (A → AppState → Answer × AppState) → Answered A → Answered Answer
answer f (err e, state) = (err e, state)
answer f (ok a, state) = let (b, state') = f a state in (ok b, state')

-- A method of which the parameters are read before the state is touched.
abbrev pub with_params {ℓ} :
    {A : Type ℓ} → AppState → Result A → (A → Answered Answer) → Answered Answer
with_params state (err e) k = (err e, state)
with_params state (ok a) k = k a

-- The mutation of `aomori_create_account`.
unfoldable pub open_account : String → Option String → ℕ → WorldState → Outcome (Unit {0})
open_account name public_key balance world = commit world (do
  refuse_if (contains_key name world.accounts) account_already_exists
  let account : Account = record {
    name = name;
    public_key = public_key;
    nonce = 0;
    balance = balance;
  }
  ok (
    tt,
    record world {
      accounts = insert name account world.accounts;
      head = wrapping_add world.head 1;
    },
  ))

-- No account of the transaction's sender, or one that has a key.
abbrev pub keyed_or_missing : Option Account → Bool
keyed_or_missing none = true
keyed_or_missing (some account) = is_some account.public_key

-- The transaction's receipt goes to the receipts of the world.
abbrev pub store_receipt : Outcome Receipt → Outcome Receipt
store_receipt (err e, w) = (err e, w)
store_receipt (ok receipt, w) =
    (ok receipt, record w { receipts = insert receipt.tx_id receipt w.receipts })

module _ (ext : External) (store : SnapshotStore ext) (engine : Engine) (derived : Derived) where
  unfoldable pub create_account : AppState → Value → Answered Answer
  create_account s p = with_params s (ok_or (text_param "name" p) parameter_required) λ name.
      answer (λ _ t. (account_created name (root ext t.world), t))
        (mutate_and_save store s
          (open_account name (text_param "public_key" p) (unwrap_or 0 (number_param "balance" p))))

  -- The check of `aomori_submit_transaction` and its mutation.
  unfoldable pub submitted : Value → AppState → Result Transaction
  submitted p s = do
    tx ← ok_or (derived.transaction p) invalid_parameter
    refuse_if
        (not s.allow_unsigned_commands && not (keyed_or_missing (get tx.from s.world.accounts)))
        unsigned_transactions_disabled
    ok tx

  unfoldable pub submit_transaction : AppState → Value → Answered Answer
  submit_transaction s p = with_params s (submitted p s) λ tx.
      answer (λ receipt t. (command_receipt receipt, publish_new_events t (length s.world.events)))
        (mutate_and_save store s
          λ world. store_receipt (execute_transaction_with_limits ext engine world tx s.lua_limits))

  -- The parameters of `aomori_deploy`; `version as u32` keeps the low 32 bits.
  unfoldable pub deploy_params : Value → Result (String × ℕ × String)
  deploy_params p = do
    name ← ok_or (text_param "name" p) parameter_required
    let version = unwrap_or 1 (number_param "version" p) % (2 ^ 32)
    source ← ok_or (text_param "source" p) parameter_required
    ok (name, version, source)

  unfoldable pub deploy_contract : AppState → Value → Answered Answer
  deploy_contract s p = with_params s (deploy_params p) λ (name, version, source).
      answer
        (λ _ t. (contract_deployed name version (contract_key name version) (root ext t.world), t))
        (mutate_and_save store s λ world. deploy_version ext.hash_text world name version source)

  unfoldable pub entity_params :
      Value → Result (EntityKind × String × Option String × Option EntityId × BTreeMap String Value)
  entity_params p = do
    value ← ok_or (get_field "kind" p) parameter_required
    kind ← ok_or (derived.entity_kind value) invalid_parameter
    attributes ← object_param (unwrap_or (object end) (get_field "data" p))
    ok (
      kind,
      unwrap_or "admin" (text_param "owner" p),
      text_param "contract" p,
      number_param "location" p,
      attributes,
    )

  unfoldable pub add_entity : AppState → Value → Answered Answer
  add_entity s p = with_params s (entity_params p) λ (kind, owner, contract, location, attributes).
      answer (λ id t. (entity_created id (root ext t.world), t))
        (mutate_and_save store s
          λ world. create_entity world kind owner contract location attributes)

  -- The parameters of `aomori_query` and `aomori_command`.
  unfoldable pub call_params : Value → Result (EntityId × String × Value)
  call_params p = do
    id ← ok_or (number_param "entity_id" p) parameter_required
    action ← ok_or (text_param "action" p) parameter_required
    ok (id, action, unwrap_or (object end) (get_field "args" p))

  -- A query runs on the world of the server itself.
  abbrev pub queried : AppState → Outcome Receipt → Answered Answer
  queried s (err e, w) = (err e, record s { world = w })
  queried s (ok receipt, w) = (ok (command_receipt receipt), record s { world = w })

  unfoldable pub run_query : AppState → Value → Answered Answer
  run_query s p = with_params s (call_params p) λ (id, action, args).
      queried s (execute_with_limits ext engine s.world id action args false s.lua_limits)

  unfoldable pub command_params : Value → AppState → Result (EntityId × String × Value)
  command_params p s = require s.allow_unsigned_commands unsigned_commands_disabled >> call_params p

  unfoldable pub run_command : AppState → Value → Answered Answer
  run_command s p = with_params s (command_params p s) λ (id, action, args).
      answer (λ receipt t. (command_receipt receipt, publish_new_events t (length s.world.events)))
        (mutate_and_save store s
          λ world. execute_with_limits ext engine world id action args true s.lua_limits)
