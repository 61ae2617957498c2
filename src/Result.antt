-- ===== src/Result.antt =====
-- `anyhow::Result` and `mlua::Result`: an error is named for its message, without the values that
-- the message shows.
use aomori.Prelude.{
  ◌≡◌, refl, Bool, true, false, Option, none, some, List, [], ◌∷◌, All, ◌↔◌, arith, ◌⊎◌, inl, inr,
}

pub data Error : Type 0 where
  -- src/model.rs
  not_hex wrong_length : Error
  event_ids_not_increasing event_head_exceeds_world_head event_kind_empty : Error
  transaction_event_missing_tx_id transaction_event_missing_from : Error
  transaction_event_missing_nonce transaction_event_receipt_missing : Error
  transaction_event_receipt_mismatch duplicate_transaction_event : Error
  entity_changed_missing_entity_id entity_changed_invalid_change : Error
  quest_progress_missing_actor quest_progress_missing_quest_id : Error
  quest_progress_invalid_status command_event_missing_entity_id : Error
  command_event_missing_action next_event_id_not_greater : Error
  account_key_mismatch account_name_empty public_key_not_hex public_key_length : Error
  contract_name_empty contract_version_zero contract_key_mismatch source_hash_mismatch : Error
  entity_key_mismatch entity_owner_missing entity_contract_missing : Error
  next_entity_id_not_greater : Error
  quest_progress_key_mismatch quest_progress_actor_missing quest_progress_not_actor : Error
  quest_progress_definition_missing : Error
  receipt_key_mismatch receipt_account_missing : Error
  zone_has_location location_missing actor_location_not_zone : Error
  item_location_neither_zone_nor_actor : Error
  inventory_owner_missing inventory_owner_not_actor inventory_duplicate_item : Error
  inventory_item_missing inventory_entity_not_item item_held_by_multiple_actors : Error
  item_location_mismatch item_missing_from_inventory : Error
  quest_key_mismatch quest_id_empty quest_giver_missing quest_giver_not_actor : Error
  quest_requires_itself duplicate_prerequisite prerequisite_missing prerequisite_cycle : Error
  -- src/runtime.rs
  version_zero contract_version_exists account_not_found contract_not_found : Error
  entity_not_found entity_has_no_contract action_not_found : Error
  lua_memory lua_limit lua_load lua_execution lua_string lua_table_key : Error
  query_is_read_only target_zone_not_found target_is_not_a_zone actor_not_found : Error
  entity_is_not_an_actor caller_entity_not_found item_not_found item_is_not_here : Error
  item_already_in_an_inventory actor_has_no_location item_is_not_in_inventory : Error
  cannot_transfer_to_self target_actor_not_found transfer_target_not_an_actor : Error
  target_actor_is_not_here inventory_item_location_inconsistent : Error
  caller_is_not_the_entity_owner location_not_found unknown_entity_kind : Error
  entity_data_must_be_an_object event_kind_must_not_be_empty event_kind_is_reserved : Error
  event_entity_not_found quest_not_found quest_giver_does_not_match : Error
  quest_prerequisite_is_not_completed caller_entity_has_no_location quest_giver_not_found : Error
  quest_giver_is_not_here quest_already_accepted quest_already_completed : Error
  quest_is_not_accepted return_to_complete_the_quest required_item_is_missing : Error
  owner_account_not_found balance_overflow : Error
  invalid_nonce signature_required signature_without_public_key not_the_entity_owner : Error
  public_key_not_32_byte_hex invalid_public_key signature_not_64_byte_hex : Error
  invalid_transaction_signature serialization : Error
  -- src/rpc.rs
  account_already_exists unsigned_transactions_disabled unsigned_commands_disabled : Error
  panicked out_of_fuel : Error
  parameter_required invalid_parameter unknown_method : Error
  invalid_request admin_authorization_required : Error
  -- src/storage.rs
  io_failed crashed snapshot_not_json world_not_readable format_version_invalid : Error
  state_root_mismatch unsupported_format_version ambiguous_migrations invalid_migration : Error
  snapshot_not_an_object state_not_an_object missing_field unknown_field : Error
  legacy_inventory_in_current entries_not_an_object entry_not_an_object : Error
  entries_not_an_array : Error
  -- src/ledger.rs and src/ledger_runtime.rs
  json_depth_exceeded integer_required unsafe_integer json_size_exceeded : Error
  invalid_lowercase_hex unsupported_version empty_transaction_field chain_mismatch : Error
  invalid_signature unsupported_genesis_version empty_chain_id invalid_block_protocol : Error
  invalid_transaction_count invalid_genesis_parent block_count_mismatch : Error
  block_chain_mismatch result_mismatch invalid_event_range : Error
  transactions_digest_mismatch results_digest_mismatch : Error
  genesis_history_not_empty genesis_key_required invalid_genesis_key : Error
  noncanonical_genesis_key genesis_nonce_not_zero invalid_instruction_limit : Error
  invalid_memory_limit execution_counter_exhausted execution_failed nonce_overflow : Error
  event_overflow height_overflow invalid_ancestry replayed_block_mismatch : Error
  malformed_json float_forbidden duplicate_key : Error
  -- src/demo.rs
  demo_requires_an_empty_world demo_contract_missing demo_village_missing demo_ruins_missing : Error
  demo_mira_missing : Error
  -- src/migration.rs
  legacy_inventory_not_an_array legacy_item_not_an_integer legacy_duplicate_item : Error
  legacy_item_missing legacy_item_not_an_item legacy_item_claimed_twice head_overflow : Error

pub data Result {ℓ} (A : Type ℓ) : Type ℓ where
  ok : A → Result A
  err : Error → Result A

-- `result?` in front of the rest of a function
infixl 5 ◌>>=◌
abbrev pub ◌>>=◌ {ℓ κ} : {In : Type ℓ} {Out : Type κ} → Result In → (In → Result Out) → Result Out
err failure >>= rest = err failure
ok value >>= rest = rest value

infixl 5 ◌>>◌
abbrev pub ◌>>◌ {ℓ} : {Out : Type ℓ} → Result (Unit {0}) → Result Out → Result Out
check >> rest = check >>= λ _. rest

-- `if !test { return Err(e) }`
abbrev pub require : Bool → Error → Result (Unit {0})
require true e = ok tt
require false e = err e

-- `if test { return Err(e) }`
abbrev pub refuse_if : Bool → Error → Result (Unit {0})
refuse_if true e = err e
refuse_if false e = ok tt

-- `option.ok_or_else(|| e)?`
abbrev pub ok_or {ℓ} : {A : Type ℓ} → Option A → Error → Result A
ok_or none e = err e
ok_or (some a) e = ok a

module _ {ℓ} {A : Type ℓ} where
  -- `for x in xs { f(x)? }`
  unfoldable pub for_each : List A → (A → Result (Unit {0})) → Result (Unit {0})
  for_each [] f = ok tt
  for_each (x ∷ xs) f = f x >> for_each xs f

  for_each_sound :
      (xs : List A) (f : A → Result (Unit {0})) → for_each xs f ≡ ok tt → All (λ x. f x ≡ ok tt) xs
  unfolding for_each
  for_each_sound [] f h = tt
  for_each_sound (x ∷ xs) f h = ground (arith, for_each_sound xs f)

  for_each_complete :
      (xs : List A) (f : A → Result (Unit {0})) → All (λ x. f x ≡ ok tt) xs → for_each xs f ≡ ok tt
  unfolding for_each
  for_each_complete [] f h = refl
  for_each_complete (x ∷ xs) f h = rw h.0 (for_each_complete xs f h.1)

  -- A loop passes exactly when its body passes on every element.
  pub for_each_iff :
      (xs : List A) (f : A → Result (Unit {0}))
      → (for_each xs f ≡ ok tt) ↔ All (λ x. f x ≡ ok tt) xs
  for_each_iff xs f = (for_each_sound xs f, for_each_complete xs f)

-- What returned a value in front of the rest, and the value that the rest was given.
pub >>=-eq-ok {ℓ κ} :
    {In : Type ℓ} {Out : Type κ} (first : Result In) (rest : In → Result Out) {out : Out}
    → (first >>= rest) ≡ ok out
    → (value : In) × (first ≡ ok value) × (rest value ≡ ok out)
>>=-eq-ok (err failure) rest done = cc
>>=-eq-ok (ok value) rest done = (value, refl, done)

-- A check that passes in front of another.
pub >>-eq-ok {ℓ} :
    {B : Type ℓ} (m : Result (Unit {0})) (k : Result B) {b : B}
    → (m >> k) ≡ ok b
    → (m ≡ ok tt) × (k ≡ ok b)
>>-eq-ok (ok a) k h = (refl, h)
>>-eq-ok (err e) k h = cc

pub Result-cases {ℓ} :
    {A : Type ℓ} (r : Result A) → ((a : A) × (r ≡ ok a)) ⊎ ((e : Error) × (r ≡ err e))
Result-cases (ok a) = inl (a, refl)
Result-cases (err e) = inr (e, refl)

pub err_injective {ℓ} : {A : Type ℓ} {e f : Error} → ◌≡◌ {A = Result A} (err e) (err f) → e ≡ f
err_injective h = cc
