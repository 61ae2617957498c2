-- ===== src/Ledger/Apply.antt =====
-- src/ledger_runtime.rs: `MemoryLedger::apply` and `submit`
use aomori.Prelude.{
  ℕ, String, Bool, true, false, ◌&&◌, Option, none, some, List, [], ◌∷◌, ◌++◌, text_key, ◌≟◌, ◌==◌,
  drop, if◌then◌else◌,
}
use aomori.Result.{
  Result, ok, err, ◌>>=◌, ◌>>◌, require, ok_or, panicked, serialization, invalid_ancestry,
  replayed_block_mismatch,
}
use aomori.Model.{WorldState}
use aomori.External.{External}
use aomori.Runtime.Script.{Engine}
use aomori.Ledger.Data.{LedgerTransaction, LedgerBlock}
use aomori.Ledger.Digest.{Wire, canonical_json}
use aomori.Ledger.Transaction.{tx_id_of}
use aomori.Ledger.Block.{header_hash, validate_commitments}
use aomori.Ledger.Memory.{MemoryLedger}
use aomori.Ledger.Candidate.{checked_next, execute_candidate, propose}

-- `==` on two vectors of bytes
abbrev pub eq_bytes : List ℕ → List ℕ → Bool
eq_bytes [] [] = true
eq_bytes (a ∷ as_) (b ∷ bs) = (a == b) && eq_bytes as_ bs
eq_bytes [] (b ∷ bs) = false
eq_bytes (a ∷ as_) [] = false

-- `Some(height) == tip.height.checked_add(1)`
abbrev pub is_next : ℕ → Option ℕ → Bool
is_next height none = false
is_next height (some next) = height == next

abbrev pub head_of {ℓ} : {A : Type ℓ} → List A → Option A
head_of [] = none
head_of (x ∷ xs) = some x

-- What comes back with the ledger.
abbrev pub Answer {ℓ} : Type ℓ → Type ℓ
Answer A = Result A × MemoryLedger

-- `.find(|b| b.execution_results[0].tx_id == tx_id)`; a block without results panics.
unfoldable pub find_block : String → List LedgerBlock → Result (Option LedgerBlock)
find_block tx_id [] = ok none
find_block tx_id (b ∷ bs) = elim (head_of b.execution_results) [
  | none ↦ err panicked
  | some result ↦ if result.tx_id ≟ tx_id then ok (some b) else find_block tx_id bs
]

-- The world, the tip and the blocks after a block.
abbrev pub extended : MemoryLedger → WorldState → LedgerBlock → MemoryLedger
extended l candidate b = record l {
  world = candidate;
  tip = b.header;
  blocks = l.blocks ++ (b ∷ []);
}

unfoldable pub block_json : Wire → LedgerBlock → Result (List ℕ)
block_json wire b = ok_or (wire.block_value b) serialization >>= canonical_json wire

abbrev pub applied : LedgerBlock → Answer (Unit {0}) → Answer LedgerBlock
applied b (ok _, l) = (ok b, l)
applied b (err e, l) = (err e, l)

-- `engine` stands for the one execution of Lua that replays the block.
module _ (ext : External) (wire : Wire) (engine : Engine) where
  -- The checks of `apply`, and the world that the block leads to.
  unfoldable pub replay_block : MemoryLedger → LedgerBlock → Result WorldState
  replay_block l b = do
    _ ← validate_commitments ext wire b
    let next = is_next b.header.height (checked_next l.tip.height)
    parent ← if next then header_hash ext wire l.tip else err invalid_ancestry
    require (b.header.parent_hash ≟ parent) invalid_ancestry
    tx ← ok_or (head_of b.transactions) panicked
    (candidate, expected) ← execute_candidate ext wire engine l tx
    expected_json ← block_json wire expected
    given_json ← block_json wire b
    require (eq_bytes expected_json given_json) replayed_block_mismatch
    ok candidate

  abbrev pub publish_block : MemoryLedger → LedgerBlock → Result WorldState → Answer (Unit {0})
  publish_block l b (err e) = (err e, l)
  publish_block l b (ok candidate) = (ok tt, extended l candidate b)

  unfoldable pub apply : MemoryLedger → LedgerBlock → Answer (Unit {0})
  apply l b = publish_block l b (replay_block l b)

  abbrev pub apply_proposed : MemoryLedger → Result LedgerBlock → Answer LedgerBlock
  apply_proposed l (err e) = (err e, l)
  apply_proposed l (ok b) = applied b (apply l b)

-- `submit` executes the command twice: `proposer` in the proposal, `engine` in the replay.
module _ (ext : External) (wire : Wire) (proposer engine : Engine) where
  abbrev pub submit_unless :
      MemoryLedger → LedgerTransaction → Result (Option LedgerBlock) → Answer LedgerBlock
  submit_unless l tx (err e) = (err e, l)
  submit_unless l tx (ok (some b)) = (ok b, l)
  submit_unless l tx (ok none) = apply_proposed ext wire engine l (propose ext wire proposer l tx)

  unfoldable pub submit : MemoryLedger → LedgerTransaction → Answer LedgerBlock
  submit l tx =
      submit_unless l tx (tx_id_of ext wire tx >>= λ tx_id. find_block tx_id (drop 1 l.blocks))
