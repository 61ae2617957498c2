-- ===== src/Runtime/Transaction.antt =====
-- `execute_transaction_with_limits`, `verify_signature` and `transaction_signing_bytes`
pub mod Replay
use aomori.Prelude.{
  ℕ, String, Bool, true, false, Option, none, some, List, [], ◌∷◌, ◌==◌, nat_key, text_key, ◌≟◌,
  length, wrapping_add, if◌then◌else◌,
}
use aomori.Map.{BTreeMap, get, insert}
use aomori.Json.{Value, text, number, integer, pos, object, end, field}
use aomori.Result.{
  Error, Result, ok, err, ◌>>=◌, ◌>>◌, require, refuse_if, ok_or, account_not_found, invalid_nonce,
  signature_required, signature_without_public_key, entity_not_found, not_the_entity_owner,
  public_key_not_32_byte_hex, invalid_public_key, signature_not_64_byte_hex,
  invalid_transaction_signature, serialization,
}
use aomori.Model.{WorldState, Account, Entity, Transaction, Receipt}
use aomori.Model.Validate.{root}
use aomori.External.{External}
use aomori.Runtime.{Outcome}
use aomori.Runtime.World.{push_event}
use aomori.Runtime.Script.{LuaLimits, Engine, default_limits}
use aomori.Runtime.Execute.{execute_with_limits}

-- The data of the event of a transaction.
abbrev pub transaction_payload : String → Transaction → Value
transaction_payload tx_id tx = object (
    field "from" (text tx.from)
      (field "nonce" (number (integer (pos tx.nonce))) (field "tx_id" (text tx_id) end)))

module _ (ext : External) where
  open ext use {hex_decode, is_key, is_signature, verify, transaction_bytes}

  -- The transaction without its signature.
  unfoldable pub transaction_signing_bytes : Transaction → Result (List ℕ)
  transaction_signing_bytes tx =
      ok_or (transaction_bytes (record tx { signature = none })) serialization

  unfoldable pub verify_signature : String → String → Transaction → Result (Unit {0})
  verify_signature public_key encoded_signature tx = do
    key ← ok_or (hex_decode public_key) public_key_not_32_byte_hex
    require (length key == 32) public_key_not_32_byte_hex
    require (is_key key) invalid_public_key
    signature ← ok_or (hex_decode encoded_signature) signature_not_64_byte_hex
    require (is_signature signature) signature_not_64_byte_hex
    payload ← transaction_signing_bytes tx
    require (verify key payload signature) invalid_transaction_signature

  -- By whether the account has a key and the transaction a signature.
  unfoldable pub check_signature : Option String → Option String → Transaction → Result (Unit {0})
  check_signature (some public_key) (some signature) tx = verify_signature public_key signature tx
  check_signature (some public_key) none tx = err signature_required
  check_signature none (some signature) tx = err signature_without_public_key
  check_signature none none tx = ok tt

  -- What is checked before the contract runs.
  unfoldable pub check_transaction : WorldState → Transaction → Result (Unit {0})
  check_transaction s tx = do
    account ← ok_or (get tx.from s.accounts) account_not_found
    require (account.nonce == tx.nonce) invalid_nonce
    check_signature account.public_key tx.signature tx
    entity ← ok_or (get tx.entity_id s.entities) entity_not_found
    require (entity.owner ≟ tx.from) not_the_entity_owner

  -- What is left to do with the receipt of the run: the nonce, the id, and the event.
  unfoldable pub settle : Transaction → Receipt → WorldState → Outcome Receipt
  settle tx receipt s = elim (get tx.from s.accounts) [
    | none ↦ (err account_not_found, s)
    | some account ↦
        let bumped = record account { nonce = wrapping_add account.nonce 1 } in
        let s1 = record s { accounts = insert tx.from bumped s.accounts } in
        elim (transaction_bytes tx) [
          | none ↦ (err serialization, s1)
          | some bytes ↦
              let tx_id = ext.hash_bytes bytes in
              let s2 =
                push_event s1 "transaction_executed" (some tx.entity_id)
                  (transaction_payload tx_id tx) in
              (
                ok (record receipt {
                  tx_id = tx_id;
                  from = tx.from;
                  nonce = tx.nonce;
                  state_root = root ext s2;
                }),
                s2,
              )
        ]
  ]

  unfoldable pub settle_result : Transaction → Outcome Receipt → Outcome Receipt
  settle_result tx (err e, s) = (err e, s)
  settle_result tx (ok receipt, s) = settle tx receipt s

  unfoldable pub execute_transaction_with_limits :
      Engine → WorldState → Transaction → LuaLimits → Outcome Receipt
  execute_transaction_with_limits engine s tx limits = elim (check_transaction s tx) [
    | err e ↦ (err e, s)
    | ok _ ↦
        settle_result tx
          (execute_with_limits ext engine s tx.entity_id tx.action tx.args true limits)
  ]

  unfoldable pub execute_transaction : Engine → WorldState → Transaction → Outcome Receipt
  execute_transaction engine s tx = execute_transaction_with_limits engine s tx default_limits
