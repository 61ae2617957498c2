-- ===== src/Tests/Ledger.antt =====
-- Transactions on the ledger of the village.
use aomori.Prelude.{
  Option, ◌≡◌, ◌≢◌, refl, ℕ, suc, true, some, List, [], ◌∷◌, length, ≟_iff, text_key, arith, ap,
  ◌↔◌, ◌≤◌, if◌then◌else◌,
}
use aomori.Json.{object, field, end, Value, text, number, integer, pos, array, cons, nil}
use aomori.Result.{ok, err, entity_not_found}
use aomori.Runtime.Script.{Engine, raised}
use aomori.Model.{WorldState}
use aomori.Ledger.Canonical.{normalize}
use aomori.Ledger.Protocol.{height, all_safe, normalize_iff}
use aomori.Ledger.Data.{BlockHeader, LedgerBlock}
use aomori.Ledger.Block.{genesis_parent, validate_commitments}
use aomori.Ledger.Committed.{Committed, validate_commitments_sound}
use aomori.Ledger.Digest.{canonical_json}
use aomori.Ledger.Strict.{Syntax, visit_map, visit_u64, member, no_members, parse_json}
use aomori.Ledger.Parsed.{HasUniqueKeys, parse_json_sound}
use aomori.Ledger.Memory.{MemoryLedger, new_ledger, initial_block}
use aomori.Ledger.Candidate.{execute_candidate, propose}
use aomori.Ledger.Apply.{block_json, extended, apply, submit, head_of}
use aomori.Ledger.Chain.{IsChain}
use aomori.Ledger.Reach.{starts, submits, Reachable-IsChain}
use aomori.Ledger.Submits.{propose-apply, apply-propose}
use aomori.Ledger.Again.{submit-submit}
use aomori.Tests.Data.{crypto}
use aomori.Tests.Village.{village, greeter, wire, village_genesis, greet}

-- Another run of the same contract, and one that fails.
abbrev guest : Engine
guest = record greeter {
  run = λ limits ledger source name id args.
      if ledger then greeter.run limits ledger source name id args else raised entity_not_found;
}

abbrev silent : Engine
silent = record greeter { run = λ _ _ _ _ _ _. raised entity_not_found }

abbrev start : MemoryLedger
start =
    let tip : BlockHeader = record {
      protocol_version = 1;
      chain_id = "village";
      genesis_hash = genesis_parent;
      runtime_rules_version = 1;
      height = 0;
      parent_hash = genesis_parent;
      tx_count = 0;
      transactions_digest = genesis_parent;
      results_digest = genesis_parent;
      post_state_digest = genesis_parent;
    } in
    record {
      world = village;
      genesis = village_genesis;
      genesis_hash = genesis_parent;
      tip = tip;
      blocks = record { header = tip; transactions = []; execution_results = [] } ∷ [];
      limits = record { instruction_limit = 200000; memory_limit = 16777216 };
    }

abbrev greeted : LedgerBlock
greeted = record {
  header = record {
    protocol_version = 1;
    chain_id = "village";
    genesis_hash = genesis_parent;
    runtime_rules_version = 1;
    height = 1;
    parent_hash = genesis_parent;
    tx_count = 1;
    transactions_digest = genesis_parent;
    results_digest = genesis_parent;
    post_state_digest = genesis_parent;
  };
  transactions = greet ∷ [];
  execution_results =
      record {
        tx_id = genesis_parent;
        from = "alice";
        nonce = 0;
        succeeded = true;
        messages = [];
        result = text "hi";
        first_event_id = some 1;
        last_event_id = some 3;
        events_digest = genesis_parent;
      }
      ∷ [];
}

start-new : new_ledger crypto wire village_genesis ≡ ok start
unfolding aomori.Ledger.Block.check_hashes aomori.Ledger.Block.header_hash
    aomori.Ledger.Block.check_results aomori.Ledger.Block.validate_commitments
    aomori.Ledger.Canonical.normalize aomori.Ledger.Digest.canonical_json
    aomori.Ledger.Digest.digest aomori.Ledger.Digest.hash aomori.Ledger.Hex.hash_hex
    aomori.Ledger.Memory.state_digest aomori.Ledger.Memory.check_genesis_account
    aomori.Ledger.Memory.genesis_world aomori.Ledger.Memory.genesis_limits
    aomori.Ledger.Memory.genesis_tip aomori.Ledger.Memory.new_ledger
    aomori.Ledger.Transaction.genesis_hash_of aomori.Map.get
    aomori.Model.Events.validate_events_from aomori.Model.Events.validate_events
    aomori.Model.Inventories.validate_inventories aomori.Model.Locations.validate_locations
    aomori.Model.Quests.indegrees aomori.Model.Quests.ready_ids aomori.Model.Quests.drain
    aomori.Model.Quests.validate_quests aomori.Model.References.check_public_key
    aomori.Model.References.validate_references aomori.Model.Validate.validate
    aomori.Result.for_each aomori.Text.contract_key
start-new = refl

greet-proposed : propose crypto wire guest start greet ≡ ok greeted
unfolding aomori.Ledger.Block.check_hashes aomori.Ledger.Block.header_hash
    aomori.Ledger.Block.check_result aomori.Ledger.Block.check_results
    aomori.Ledger.Block.validate_commitments aomori.Ledger.Candidate.settle_candidate
    aomori.Ledger.Candidate.check_ledger_transaction aomori.Ledger.Candidate.execution_result
    aomori.Ledger.Candidate.next_header aomori.Ledger.Candidate.seal_block
    aomori.Ledger.Candidate.execute_candidate aomori.Ledger.Candidate.propose
    aomori.Ledger.Canonical.normalize aomori.Ledger.Digest.canonical_json
    aomori.Ledger.Digest.digest aomori.Ledger.Digest.hash aomori.Ledger.Hex.hash_hex
    aomori.Ledger.Memory.state_digest aomori.Ledger.Transaction.signing_digest
    aomori.Ledger.Transaction.verify_transaction aomori.Ledger.Transaction.tx_id_of
    aomori.Lua.lua_to_json aomori.Map.get aomori.Map.insert aomori.Map.replace
    aomori.Model.Events.check_command_executed aomori.Model.Events.check_kind
    aomori.Model.Events.check_event aomori.Model.Events.validate_events_from
    aomori.Model.Events.validate_events aomori.Model.Inventories.validate_inventories
    aomori.Model.Locations.validate_locations aomori.Model.Quests.indegrees
    aomori.Model.Quests.ready_ids aomori.Model.Quests.drain aomori.Model.Quests.validate_quests
    aomori.Model.References.check_public_key aomori.Model.References.validate_references
    aomori.Model.Validate.validate aomori.Result.for_each aomori.Runtime.Changes.eq_entity
    aomori.Runtime.Changes.changed_keys aomori.Runtime.Changes.push_entity_changes
    aomori.Runtime.Changes.push_quest_changes aomori.Runtime.Execute.contract_source
    aomori.Runtime.Execute.publish aomori.Runtime.Execute.receipt_of aomori.Runtime.Execute.finish
    aomori.Runtime.Execute.execute_internal aomori.Runtime.Execute.execute_ledger_command
    aomori.Runtime.Host.Call.call_host aomori.Runtime.Host.Entities.emit_event
    aomori.Runtime.Script.run_script aomori.Runtime.World.push_event aomori.Text.contract_key
greet-proposed = refl

greeted-json : block_json wire greeted ≡ ok []
unfolding aomori.Ledger.Apply.block_json aomori.Ledger.Digest.canonical_json
    aomori.Ledger.Canonical.normalize
greeted-json = refl

same_digest :
    (b c : LedgerBlock) (json : List ℕ)
    → block_json wire b ≡ ok json
    → block_json wire c ≡ ok json
    → b.header.post_state_digest ≡ c.header.post_state_digest
unfolding aomori.Ledger.Apply.block_json
same_digest b c json shown_b shown_c = ground (
  arith,
  ≟_iff b.header.post_state_digest genesis_parent,
  ≟_iff c.header.post_state_digest genesis_parent,
)

propose-apply_example :
    (w : WorldState) × (execute_candidate crypto wire guest start greet ≡ ok (w, greeted))
    × (apply crypto wire greeter start greeted ≡ (ok tt, extended start w greeted))
propose-apply_example =
    propose-apply crypto wire greeter guest start greet greeted [] greet-proposed greeted-json refl
      (λ _. refl)

greeted-applied : (apply crypto wire greeter start greeted).0 ≡ ok tt
greeted-applied =
    let (w, ran, is_applied) =
      propose-apply crypto wire greeter guest start greet greeted [] greet-proposed greeted-json
        refl (λ _. refl) in
    ap (λ a. a.0) is_applied

apply-propose_example :
    propose crypto wire guest (apply crypto wire greeter start greeted).1 greet ≢ ok greeted
apply-propose_example =
    apply-propose crypto wire greeter start greeted greet greeted-applied refl guest greeted

greet-submitted : (submit crypto wire guest greeter start greet).0 ≡ ok greeted
unfolding aomori.Ledger.Apply.find_block aomori.Ledger.Apply.block_json
    aomori.Ledger.Apply.replay_block aomori.Ledger.Apply.apply aomori.Ledger.Apply.submit
    aomori.Ledger.Block.check_hashes aomori.Ledger.Block.header_hash
    aomori.Ledger.Block.check_result aomori.Ledger.Block.check_results
    aomori.Ledger.Block.validate_commitments aomori.Ledger.Candidate.settle_candidate
    aomori.Ledger.Candidate.check_ledger_transaction aomori.Ledger.Candidate.execution_result
    aomori.Ledger.Candidate.next_header aomori.Ledger.Candidate.seal_block
    aomori.Ledger.Candidate.execute_candidate aomori.Ledger.Candidate.propose
    aomori.Ledger.Canonical.normalize aomori.Ledger.Digest.canonical_json
    aomori.Ledger.Digest.digest aomori.Ledger.Digest.hash aomori.Ledger.Hex.hash_hex
    aomori.Ledger.Memory.state_digest aomori.Ledger.Transaction.signing_digest
    aomori.Ledger.Transaction.verify_transaction aomori.Ledger.Transaction.tx_id_of
    aomori.Lua.lua_to_json aomori.Map.get aomori.Map.insert aomori.Map.replace
    aomori.Model.Events.check_command_executed aomori.Model.Events.check_kind
    aomori.Model.Events.check_event aomori.Model.Events.validate_events_from
    aomori.Model.Events.validate_events aomori.Model.Inventories.validate_inventories
    aomori.Model.Locations.validate_locations aomori.Model.Quests.indegrees
    aomori.Model.Quests.ready_ids aomori.Model.Quests.drain aomori.Model.Quests.validate_quests
    aomori.Model.References.check_public_key aomori.Model.References.validate_references
    aomori.Model.Validate.validate aomori.Result.for_each aomori.Runtime.Changes.eq_entity
    aomori.Runtime.Changes.changed_keys aomori.Runtime.Changes.push_entity_changes
    aomori.Runtime.Changes.push_quest_changes aomori.Runtime.Execute.contract_source
    aomori.Runtime.Execute.publish aomori.Runtime.Execute.receipt_of aomori.Runtime.Execute.finish
    aomori.Runtime.Execute.execute_internal aomori.Runtime.Execute.execute_ledger_command
    aomori.Runtime.Host.Call.call_host aomori.Runtime.Host.Entities.emit_event
    aomori.Runtime.Script.run_script aomori.Runtime.World.push_event aomori.Text.contract_key
greet-submitted = refl

submit-submit_example :
    submit crypto wire silent greeter (submit crypto wire guest greeter start greet).1 greet
    ≡ (ok greeted, (submit crypto wire guest greeter start greet).1)
submit-submit_example =
    submit-submit crypto wire guest greeter silent greeter start greet
      (initial_block crypto wire start.tip) [] greeted refl greet-submitted

Reachable-IsChain_example :
    let l = (submit crypto wire guest greeter start greet).1 in
    IsChain crypto wire l × (length l.blocks ≡ suc l.tip.height)
Reachable-IsChain_example =
    Reachable-IsChain crypto wire same_digest (submit crypto wire guest greeter start greet).1
      (submits guest greeter start greet (starts village_genesis start start-new))

abbrev largest : Value
largest = array (cons (number (integer (pos 9007199254740991))) nil)

normalize_iff_example :
    (normalize largest 0 ≡ ok largest)
    ↔ ((largest ≡ largest) × (height largest ≤ 32) × (all_safe largest ≡ true))
normalize_iff_example = normalize_iff largest largest

greeted-commitments : validate_commitments crypto wire greeted ≡ ok genesis_parent
unfolding aomori.Ledger.Block.check_hashes aomori.Ledger.Block.header_hash
    aomori.Ledger.Block.check_result aomori.Ledger.Block.check_results
    aomori.Ledger.Block.validate_commitments aomori.Ledger.Canonical.normalize
    aomori.Ledger.Digest.canonical_json aomori.Ledger.Digest.digest aomori.Ledger.Digest.hash
    aomori.Ledger.Hex.hash_hex aomori.Ledger.Transaction.signing_digest
    aomori.Ledger.Transaction.tx_id_of
greeted-commitments = refl

validate_commitments_sound_example : Committed crypto wire greeted genesis_parent
validate_commitments_sound_example =
    validate_commitments_sound crypto wire greeted genesis_parent greeted-commitments

abbrev one_member : List ℕ → Option Syntax
one_member _ = some (visit_map (member "a" (visit_u64 1) no_members))

abbrev parsed : Value
parsed = object (field "a" (number (integer (pos 1))) end)

parsed-parse_json : parse_json wire one_member [] ≡ ok parsed
unfolding aomori.Ledger.Strict.strict aomori.Ledger.Canonical.normalize_number
    aomori.Ledger.Strict.parse_json aomori.Lua.insert_field aomori.Ledger.Canonical.normalize
    aomori.Ledger.Digest.canonical_json
parsed-parse_json = refl

parse_json_sound_example :
    (length {A = ℕ} [] ≤ 1048576)
    × ((s : Syntax) × (one_member [] ≡ some s) × HasUniqueKeys s)
    × ((height parsed ≤ 32) × (all_safe parsed ≡ true))
    × ((json : List ℕ) × (canonical_json wire parsed ≡ ok json) × (length json ≤ 1048576))
parse_json_sound_example = parse_json_sound wire one_member [] parsed parsed-parse_json
