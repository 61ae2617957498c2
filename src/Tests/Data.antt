-- ===== src/Tests/Data.antt =====
-- A small town: its world, a server for it, and the third-party code as concrete functions.
use aomori.Prelude.{ℕ, String, true, false, Option, none, some, List, [], ◌∷◌}
use aomori.Json.{Value, Fields, text, number, integer, pos, array, nil, object, field, end, null}
use aomori.Lua.{LuaValue, nil_value, lua_text, table, pair, no_pairs, boolean}
use aomori.Result.{lua_limit}
use aomori.Model.{
  WorldState, Entity, EntityKind, actor, zone, item, published, accepted, Transaction, Receipt,
}
use aomori.External.{External}
use aomori.Storage.Disk.{Bytes, Disk, Fault, torn}
use aomori.Storage.Decode.{Codec}
use aomori.Storage.Store.{SnapshotStore, disk_store}
use aomori.Runtime.Host.{Context, HostCall}
use aomori.Runtime.Script.{Script, returned, raised, calls, Engine, default_limits}
use aomori.Rpc.{AppState}
use aomori.Rpc.Requests.{Derived, Request}

-- Every text stands for the same 32 bytes, and every signature is good.
abbrev zeros : ℕ → List ℕ
zeros ℕ.zero = []
zeros (ℕ.suc n) = 0 ∷ zeros n

abbrev pub crypto : External
crypto = record {
  hex_decode = λ _. some (zeros 32);
  hash_text = λ t. t;
  hash_bytes = λ _. "h";
  world_bytes = λ _. [];
  transaction_bytes = λ _. some [];
  is_key = λ _. true;
  is_signature = λ _. true;
  verify = λ _ _ _. true;
}

abbrev entity_of : ℕ → EntityKind → String → Option ℕ → Option String → String → Entity
entity_of id kind owner location contract name = record {
  id = id;
  kind = kind;
  owner = owner;
  location = location;
  contract = contract;
  attributes = ("name", text name) ∷ [];
}

-- Alice's actor carries an apple in the square, and has accepted to bring one there.
abbrev pub town : WorldState
town = record {
  accounts =
      ("admin", record { name = "admin"; public_key = none; nonce = 0; balance = 0 })
      ∷ ("alice", record { name = "alice"; public_key = some "key"; nonce = 4; balance = 10 })
      ∷ [];
  entities =
      (1, entity_of 1 zone "admin" none none "square")
      ∷ (2, entity_of 2 actor "alice" (some 1) (some "greeter") "alice")
      ∷ (3, entity_of 3 item "admin" (some 2) none "apple")
      ∷ [];
  contracts =
      (
        "greeter",
        record {
          name = "greeter";
          version = 1;
          source = "code";
          source_hash = "code";
          status = published;
        },
      )
      ∷ [];
  receipts = [];
  quests =
      (
        "errand",
        record {
          id = "errand";
          title = "An errand";
          giver_entity_id = 2;
          prerequisite_quest_ids = [];
          required_item = "apple";
          completion_zone = "square";
          reward_balance = 5;
          consume_required_item = true;
        },
      )
      ∷ [];
  quest_progress =
      ("2:errand", record { quest_id = "errand"; actor_id = 2; status = accepted }) ∷ [];
  inventories = (2, 3 ∷ []) ∷ [];
  events =
      record { id = 1; head = 0; kind = "opened"; entity_id = none; payload = null }
      ∷ record { id = 3; head = 0; kind = "waved"; entity_id = some 2; payload = null }
      ∷ [];
  next_event_id = 4;
  next_entity_id = 4;
  head = 7;
}

abbrev engine_of : Script → Engine
engine_of script = record { f64_of = λ n. n; run = λ _ _ _ _ _ _. script }

-- A contract that waves, completes the errand and greets.
abbrev pub waving : Script
waving =
    calls (HostCall.emit_event "waved" (some 2) nil_value)
      λ _. calls (HostCall.complete_quest "errand") λ _. returned (lua_text (some "hi"))

abbrev pub engine : Engine
engine = engine_of waving

-- A contract that meets the limit on instructions behind a wave.
abbrev pub endless : Engine
endless = engine_of (calls (HostCall.emit_event "waved" none nil_value) λ _. raised lua_limit)

-- A contract that returns what is no JSON.
abbrev pub odd_result : LuaValue
odd_result = table (pair (boolean true) (boolean true) no_pairs)

abbrev pub odd : Engine
odd = engine_of (returned odd_result)

abbrev pub alice : Context
alice = record { entity_id = 2; command = true }

abbrev pub wave : Transaction
wave = record {
  from = "alice";
  nonce = 4;
  entity_id = 2;
  action = "wave";
  args = object end;
  signature = some "sig";
}

abbrev pub derived : Derived
derived = record { transaction = λ _. some wave; entity_kind = λ _. some item }

-- What every world is written as, and one byte for it; all bytes but no bytes are read back as the
-- town.
abbrev stored_state : Fields
stored_state = field "accounts" (object end) (
    field "entities" (object end) (
      field "contracts" (object end) (
        field "receipts" (object end) (
          field "quests" (object end) (
            field "quest_progress" (object end) (
              field "inventories" (object end) (
                field "events" (array nil) (
                  field "next_event_id" (number (integer (pos 4))) (
                    field "next_entity_id" (number (integer (pos 4)))
                      (field "head" (number (integer (pos 7))) end))))))))))

abbrev pub stored : Value
stored = object (
    field "format_version" (number (integer (pos 2)))
      (field "state_root" (text "h") (field "state" (object stored_state) end)))

abbrev parse_bytes : Bytes → Option Value
parse_bytes [] = none
parse_bytes (_ ∷ _) = some stored

abbrev pub codec : Codec
codec = record {
  parse = parse_bytes;
  print = λ _. some (1 ∷ []);
  snapshot_value = λ _. some stored;
  snapshot_of = λ _. some (record { version = 2; state_root = "h"; state = town });
  world_of = λ _. none;
}

abbrev pub disk_with : Option Bytes → Option Bytes → List Fault → Disk
disk_with primary backup faults = record {
  primary_file = primary;
  temporary_file = none;
  backup_temporary_file = none;
  backup_file = backup;
  restore_file = none;
  rollback_file = none;
  faults = faults;
  alive = true;
}

abbrev pub disk : SnapshotStore crypto
disk = disk_store crypto codec λ _. disk_with none none []

abbrev pub broken_disk : SnapshotStore crypto
broken_disk = disk_store crypto codec λ _. disk_with none none (torn [] ∷ [])

abbrev pub server : AppState
server = record {
  world = town;
  events = [];
  lua_limits = default_limits;
  admin_token = some "secret";
  allow_unsigned_commands = false;
  snapshot_saves = 0;
  snapshot_failures = 0;
}

abbrev pub request : String → Value → Request
request method params = record {
  jsonrpc = some "2.0";
  id = none;
  method = some method;
  params = some params;
}

abbrev pub wave_receipt : Receipt
wave_receipt = record {
  tx_id = "h";
  from = "alice";
  nonce = 4;
  succeeded = true;
  messages = [];
  result = text "hi";
  state_root = "h";
}
