-- ===== src/Ledger/Reach.antt =====
-- src/ledger_runtime.rs: the ledgers that the program can come to.
use aomori.Prelude.{ℕ, suc, ◌+◌, ◌≡◌, ap, List, [], ◌∷◌, arith, length}
use aomori.Result.{ok}
use aomori.External.{External}
use aomori.Runtime.Script.{Engine}
use aomori.Ledger.Data.{GenesisManifest, LedgerTransaction, BlockHeader, LedgerBlock}
use aomori.Ledger.Digest.{Wire}
use aomori.Ledger.Memory.{MemoryLedger, new_ledger}
use aomori.Ledger.Apply.{block_json, apply, submit}
use aomori.Ledger.Chain.{Linked, IsChain, new_ledger-IsChain}
use aomori.Ledger.Grows.{apply-IsChain, submit-IsChain}

-- `new`, and then any blocks and transactions, whether they are accepted or not, with any executions
-- of Lua.
pub data Reachable (ext : External) (wire : Wire) : MemoryLedger → Type 0 where
  starts :
      (g : GenesisManifest) (l : MemoryLedger) → new_ledger ext wire g ≡ ok l → Reachable ext wire l
  applies :
      (engine : Engine) (l : MemoryLedger) (b : LedgerBlock)
      → Reachable ext wire l
      → Reachable ext wire (apply ext wire engine l b).1
  submits :
      (proposer engine : Engine) (l : MemoryLedger) (tx : LedgerTransaction)
      → Reachable ext wire l
      → Reachable ext wire (submit ext wire proposer engine l tx).1

Linked-length :
    (ext : External) (wire : Wire) (first last : BlockHeader) (bs : List LedgerBlock)
    → Linked ext wire first bs last
    → last.height ≡ first.height + length bs
Linked-length ext wire first last [] same = omega (arith, ap (λ h. h.height) same)
Linked-length ext wire first last (b ∷ bs) (here, rest) =
    omega (arith, here.next_height, Linked-length ext wire b.header last bs rest)

-- A chain has one block for each height up to the tip's.
pub IsChain-height :
    (ext : External) (wire : Wire) (l : MemoryLedger)
    → IsChain ext wire l
    → length l.blocks ≡ suc l.tip.height
IsChain-height ext wire l chain = omega (
  arith,
  ap length chain.all_blocks,
  chain.at_zero,
  Linked-length ext wire chain.first.header l.tip chain.rest chain.linked,
)

module _ (ext : External) (wire : Wire)
    (same_digest : (b c : LedgerBlock) (json : List ℕ)
      → block_json wire b ≡ ok json
      → block_json wire c ≡ ok json
      → b.header.post_state_digest ≡ c.header.post_state_digest) where
  -- Whatever blocks and transactions a ledger has been given since it was made, its blocks form a
  -- chain: the first is at height 0, each other one has the next height, the hash of the header
  -- before it as its parent, and commitments that hold, up to the tip; there are as many of them as
  -- the tip's height plus one; the world passes the validation and has the digest that the tip
  -- commits to. Blocks with the same JSON are assumed to commit to the same state.
  pub Reachable-IsChain :
      (l : MemoryLedger)
      → Reachable ext wire l
      → IsChain ext wire l × (length l.blocks ≡ suc l.tip.height)
  Reachable-IsChain l reached = (chain l reached, IsChain-height ext wire l (chain l reached))
    where
      chain : (l : MemoryLedger) → Reachable ext wire l → IsChain ext wire l
      chain _ (starts g l made) = new_ledger-IsChain ext wire g l made
      chain _ (applies engine l b before) =
          apply-IsChain ext wire same_digest engine l b (chain l before)
      chain _ (submits proposer engine l tx before) =
          submit-IsChain ext wire same_digest proposer engine l tx (chain l before)
