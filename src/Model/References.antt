-- ===== src/Model/References.antt =====
-- src/model.rs: `WorldState::validate_references` and `validate_hash`
use aomori.Prelude.{
  String, Bool, Option, none, some, [], ◌∷◌, leb, ◌==◌, text_key, nat_key, ◌≟◌, length,
}
use aomori.Map.{BTreeMap, get, contains_key}
use aomori.Result.{
  Result, ok, ◌>>=◌, ◌>>◌, require, refuse_if, ok_or, for_each, not_hex, wrong_length,
  account_key_mismatch, account_name_empty, public_key_not_hex, public_key_length,
  contract_name_empty, contract_version_zero, contract_key_mismatch, source_hash_mismatch,
  entity_key_mismatch, entity_owner_missing, entity_contract_missing, next_entity_id_not_greater,
  quest_progress_key_mismatch, quest_progress_actor_missing, quest_progress_not_actor,
  quest_progress_definition_missing, receipt_key_mismatch, receipt_account_missing,
}
use aomori.Model.{WorldState, Account, Contract, Entity, EntityId, QuestProgress, Receipt, is_actor}
use aomori.External.{External}
use aomori.Text.{contract_key, quest_progress_key}

-- The largest key, the last in the order: `map.keys().next_back()`.
abbrev pub last_key {ℓ κ} : {K : Type ℓ} {V : Type κ} → BTreeMap K V → Option K
last_key [] = none
last_key ((k, v) ∷ []) = some k
last_key (e ∷ f ∷ m) = last_key (f ∷ m)

abbrev check_each {ℓ} : {A : Type ℓ} → Option A → (A → Result (Unit {0})) → Result (Unit {0})
check_each none f = ok tt
check_each (some a) f = f a

-- `next_entity_id` is not above the largest id.
abbrev pub id_exhausted : WorldState → Bool
id_exhausted s = elim (last_key s.entities) [
  | none ↦ s.next_entity_id == 0
  | some id ↦ leb s.next_entity_id id
]

module _ (ext : External) where
  open ext use {hex_decode, hash_text}

  unfoldable pub validate_hash : String → Result (Unit {0})
  validate_hash value = do
    bytes ← ok_or (hex_decode value) not_hex
    require (length bytes == 32) wrong_length

  unfoldable pub check_public_key : String → Result (Unit {0})
  check_public_key public_key = do
    bytes ← ok_or (hex_decode public_key) public_key_not_hex
    require (length bytes == 32) public_key_length

  unfoldable pub check_account : String × Account → Result (Unit {0})
  check_account (key, account) = do
    require (key ≟ account.name) account_key_mismatch
    refuse_if (account.name ≟ "") account_name_empty
    check_each account.public_key check_public_key

  unfoldable pub check_contract : String × Contract → Result (Unit {0})
  check_contract (key, contract) = do
    refuse_if (contract.name ≟ "") contract_name_empty
    refuse_if (contract.version == 0) contract_version_zero
    require (key ≟ contract_key contract.name contract.version) contract_key_mismatch
    require (contract.source_hash ≟ hash_text contract.source) source_hash_mismatch

  unfoldable pub check_entity : WorldState → EntityId × Entity → Result (Unit {0})
  check_entity s (key, entity) = do
    require (key ≟ entity.id) entity_key_mismatch
    require (contains_key entity.owner s.accounts) entity_owner_missing
    check_each entity.contract λ c. require (contains_key c s.contracts) entity_contract_missing

  unfoldable pub check_progress : WorldState → String × QuestProgress → Result (Unit {0})
  check_progress s (key, progress) = do
    require (key ≟ quest_progress_key progress.actor_id progress.quest_id)
        quest_progress_key_mismatch
    actor ← ok_or (get progress.actor_id s.entities) quest_progress_actor_missing
    require (is_actor actor.kind) quest_progress_not_actor
    require (contains_key progress.quest_id s.quests) quest_progress_definition_missing

  unfoldable pub check_receipt : WorldState → String × Receipt → Result (Unit {0})
  check_receipt s (key, receipt) = do
    require (key ≟ receipt.tx_id) receipt_key_mismatch
    require (contains_key receipt.from s.accounts) receipt_account_missing
    validate_hash receipt.tx_id
    validate_hash receipt.state_root

  unfoldable pub validate_references : WorldState → Result (Unit {0})
  unfolding check_account check_contract check_entity check_progress check_receipt
  validate_references s = do
    for_each s.accounts check_account
    for_each s.contracts check_contract
    for_each s.entities (check_entity s)
    refuse_if (id_exhausted s) next_entity_id_not_greater
    for_each s.quest_progress (check_progress s)
    for_each s.receipts (check_receipt s)
