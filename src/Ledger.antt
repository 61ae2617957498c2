-- ===== src/Ledger.antt =====
-- src/ledger.rs and src/ledger_runtime.rs: transactions, blocks, and the chain in memory.
pub mod Canonical
pub mod Protocol
pub mod Data
pub mod Strict
pub mod Parsed
pub mod Hex
pub mod Digest
pub mod Transaction
pub mod Block
pub mod Committed
pub mod Memory
pub mod Candidate
pub mod Apply
pub mod Executed
pub mod Chain
pub mod Replayed
pub mod Grows
pub mod Reach
pub mod Repeats
pub mod Submits
pub mod Again
