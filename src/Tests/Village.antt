-- ===== src/Tests/Village.antt =====
-- A village for the ledger: its genesis, and serde, blake3 and ed25519 as concrete functions.
use aomori.Prelude.{true, Option, none, some, [], ◌∷◌, text_key, ◌≟◌, if◌then◌else◌}
use aomori.Json.{Value, text, object, end, field, null}
use aomori.Lua.{lua_text, nil_value}
use aomori.Model.{WorldState, zone, actor, published}
use aomori.Runtime.Host.{HostCall}
use aomori.Runtime.Script.{Script, returned, calls, Engine}
use aomori.Ledger.Data.{LedgerTransaction, GenesisManifest, LedgerBlock}
use aomori.Ledger.Digest.{Wire}
use aomori.Ledger.Block.{genesis_parent}

abbrev pub village : WorldState
village = record {
  accounts =
      (
        "alice",
        record { name = "alice"; public_key = some genesis_parent; nonce = 0; balance = 10 },
      )
      ∷ [];
  entities =
      (
        1,
        record {
          id = 1;
          kind = zone;
          owner = "alice";
          location = none;
          contract = none;
          attributes = [];
        },
      )
      ∷ (
        2,
        record {
          id = 2;
          kind = actor;
          owner = "alice";
          location = some 1;
          contract = some "greeter";
          attributes = [];
        },
      )
      ∷ [];
  contracts =
      (
        "greeter",
        record {
          name = "greeter";
          version = 1;
          source = "code";
          source_hash = "code";
          status = published;
        },
      )
      ∷ [];
  receipts = [];
  quests = [];
  quest_progress = [];
  inventories = [];
  events = [];
  next_event_id = 1;
  next_entity_id = 3;
  head = 0;
}

abbrev greeting : Script
greeting =
    calls (HostCall.emit_event "waved" (some 2) nil_value) λ _. returned (lua_text (some "hi"))

abbrev pub greeter : Engine
greeter = record { f64_of = λ n. n; run = λ _ _ _ _ _ _. greeting }

-- Every hash is 64 zeros, and only a block that commits to it is serialized.
abbrev shown_block : LedgerBlock → Option Value
shown_block b = if b.header.post_state_digest ≟ genesis_parent then some null else none

abbrev pub wire : Wire
wire = record {
  print = λ _. some [];
  transaction_value = λ tx. some (object (field "signature" (text tx.signature) end));
  genesis_value = λ _. some null;
  header_value = λ _. some null;
  block_value = shown_block;
  texts_value = λ _. some null;
  results_value = λ _. some null;
  events_value = λ _. some null;
  world_value = λ _. some null;
  world_of = λ _. some village;
  limits_of = λ _. some (record { instruction_limit = 200000; memory_limit = 16777216 });
  blake3 = λ _. [];
  hex_encode = λ _. genesis_parent;
  bytes_of = λ _. [];
  verify_strict = λ _ _ _. true;
}

abbrev pub village_genesis : GenesisManifest
village_genesis = record {
  protocol_version = 1;
  chain_id = "village";
  runtime_rules_version = 1;
  encoding_version = 1;
  initial_world = null;
  execution_limits = null;
}

abbrev pub greet : LedgerTransaction
greet = record {
  protocol_version = 1;
  chain_id = "village";
  genesis_hash = genesis_parent;
  from = "alice";
  nonce = 0;
  entity_id = 2;
  action = "greet";
  args = object end;
  signature =
      "00000000000000000000000000000000000000000000000000000000000000000000000000000000000000000000000000000000000000000000000000000000";
}
