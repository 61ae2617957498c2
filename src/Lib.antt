-- ===== src/Lib.antt =====
-- A model of aomori, a persistent world that is run by contracts in Lua. The world is one value,
-- `WorldState`: accounts, entities (actors, zones and items), contracts, receipts, quests with
-- the progress of each actor, the inventories of the actors, and a log of events. A command runs
-- a function of an entity's contract on a copy of the world; the contract reads and writes the
-- copy through the host functions. When the function returns, the copy becomes the world and the
-- log gets events for what changed. A transaction is a command with a sender, a nonce and a
-- signature. The server, JSON-RPC over HTTP, runs one method at a time on its world, saves the
-- world after each method that writes, and takes the write back when anything fails. Apart from
-- the server there is a ledger in memory: signed transactions, each in a block that commits to
-- its result and to the world behind it.
--
-- The files, and the code that they are about:
--
--   Model and Model/: src/model.rs. Each validation is a function that returns the first error;
--     `validate` runs them in the order of the source. Model/Sound says without loops what they
--     accept.
--   Runtime/World: `deploy`, `deploy_version`, `create_entity` and `push_event` of
--     src/runtime.rs.
--   Runtime/Host: the host functions, one definition for each closure of `install`, and in
--     Effects the relation of what one call may write, in Steps the functions against the
--     relation.
--   Runtime/Script: a run of a contract, and in its children what a run keeps of the accounts,
--     the entities, the log and the progress of quests.
--   Runtime/Changes and Runtime/Execute: `execute_internal` from the source of the contract to
--     the receipt; Runs is about its outcomes, Publish and Announced about what a command writes,
--     Growth about the log.
--   Runtime/Transaction: `execute_transaction_with_limits` and the check of its signature.
--   Lua, Json and Text: `json_to_lua`, `lua_to_json`, the values of serde_json as far as the
--     program takes them apart, and the keys that `format!` makes.
--   Demo/: src/demo.rs, `initialize` in Initialize, `ensure_current` in Upgrade, one definition
--     for each of its steps. Named is about the lookups by name over a new entity, Steps about
--     what each step leaves, Quests, Upgraded and Current about the quests behind a success.
--   Startup: `load_world` of src/main.rs; OnDisk and Loaded follow a world from the files to the
--     server and back.
--   Migration: `migrate_legacy_inventories` of src/migration.rs; Sound is about its outcomes, Ids
--     about the ids that it leaves free.
--   Storage/: src/storage.rs. Disk is the file system under it: the six files of the data
--     directory, and a schedule of what goes wrong at the next operations (an operation fails, a
--     write leaves other bytes, the machine stops between or within operations). Schema, Formats
--     and Decode are `decode` with the schema of the current version and the path of the format
--     migrations; Save and Load are `save` and `load_with_status`; Rules has an assertion for
--     each way a program on the disk ends, Crash applies it to `save`, Recovery is the start
--     behind a stop, Safety a save with the start behind it, Progress a save without faults and a
--     load with one. Store is the interface that the server uses, with the save on the disk that
--     fills it.
--   Ledger/: src/ledger.rs in Canonical, Hex, Digest, Data, Strict (`parse_json`), Transaction
--     and Block; `MemoryLedger` of src/ledger_runtime.rs in Memory (`new`), Candidate
--     (`execute_candidate`, `propose`) and Apply (`apply`, `submit`). Executed and Replayed say
--     what a candidate and a published block have passed; Protocol, Parsed and Committed are
--     about what canonical JSON, `parse_json` and `validate_commitments` let through, Chain,
--     Grows and Reach about the chain, Repeats about two executions of one command, Submits and
--     Again about proposing and submitting again.
--   Rpc: `AppState`, `mutate_and_save`, `dispatch` and `process_rpc` of src/rpc.rs; Methods has
--     the methods that write, Reads those that read, Client `resolve_client_ip` on the bytes of
--     the header, Stream `websocket_loop`, Delivery what its client gets.
--   Prelude, Map, Result: shared tests, lists, the maps in the order of their keys, and the
--     errors, each named for its message.
--   Tests: a town with a server, a village with a ledger, and runs of the model in them.
--
-- A function on `&mut WorldState` becomes one that returns its result and the world behind it,
-- after an error too, since the source does not undo what was written before it. A `u64` is a
-- natural number below 2^64; `+= 1` keeps the wrap-around of a release build, `checked_add` its
-- error. A map is the list of its entries in the order of the keys. `expect` and index operations
-- that would panic have the outcome `panicked`.
--
-- Code of other projects is a parameter. `External` has the functions of hex, blake3, serde_json
-- and ed25519 that the source calls. `Engine` is the Lua engine: for the limits, the source, the
-- function and its arguments it gives the tree of the host calls that the run makes, each
-- depending on the replies before it, and how the run ends. The tree is finite since the engine
-- stops a run at its limits; what the tree holds is not restricted in any way, so a statement
-- about all engines is one about all contracts. An engine stands for one execution: that a second
-- execution of the same command does the same is not assumed anywhere but where a theorem says
-- so, and the ledger, which executes a command once to propose its block and once to apply it, is
-- given an engine for each (doc/ledger-v2-execution.md leaves it open whether Lua is
-- deterministic in the ledger's sandbox). `Derived` has the deserializers that serde generates.
-- `Codec` has serde_json and the derived (de)serializers of a snapshot, `Wire` those of the
-- ledger with blake3, hex and ed25519. `SnapshotStore` is what the server knows of the files: a
-- save that succeeds had a valid world. A rename replaces a file at once and is not lost by a
-- stop.
--
-- Fuel is used in the loop of `validate_quests`, where it is the number of quests, in `decimal`,
-- where the number itself plus one bounds its digits, and in `format_migration_path`, where two
-- rounds are enough for the one migration of the table and the end.
--
-- Not modelled: the HTTP transport, the metrics, the rate limiter and the error codes of
-- src/rpc.rs; the paths of the files in src/storage.rs and the making of the data directory; of
-- src/main.rs all but `load_world`. Texts of error messages, with the values that they show, are
-- left out, and so is the JSON form of the answers.
pub mod Prelude
pub mod Map
pub mod Json
pub mod Result
pub mod Model
pub mod External
pub mod Text
pub mod Lua
pub mod Runtime
pub mod Migration
pub mod Storage
pub mod Ledger
pub mod Demo
pub mod Rpc
pub mod Startup
pub mod Tests
