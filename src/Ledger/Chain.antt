-- ===== src/Ledger/Chain.antt =====
-- src/ledger_runtime.rs: the chain that `new`, `apply` and `submit` keep.
use aomori.Prelude.{suc, ◌≡◌, refl, sym, String, List, [], ◌∷◌, ◌++◌, arith}
use mathlib.Core.Path.{subst}
use aomori.Result.{ok, >>=-eq-ok}
use aomori.Model.{WorldState}
use aomori.Model.Validate.{validate}
use aomori.External.{External}
use aomori.Ledger.Data.{GenesisManifest, BlockHeader, LedgerBlock}
use aomori.Ledger.Digest.{Wire}
use aomori.Ledger.Transaction.{genesis_hash_of}
use aomori.Ledger.Block.{genesis_parent, header_hash, validate_commitments}
use aomori.Ledger.Memory.{
  MemoryLedger, state_digest, genesis_world, genesis_limits, genesis_tip, initial_block, new_ledger,
}

module _ (ext : External) (wire : Wire) where
  -- A block behind a header: the next height, the hash of the header, and commitments that hold.
  pub record Follows (p : BlockHeader) (b : LedgerBlock) : Type 0 where
    pub next_height : b.header.height ≡ suc p.height
    pub parent : header_hash ext wire p ≡ ok b.header.parent_hash
    pub commitments : (h : String) × (validate_commitments ext wire b ≡ ok h)

  -- From the header of the first block to that of the last.
  abbrev pub Linked : BlockHeader → List LedgerBlock → BlockHeader → Type 0
  Linked first [] last = first ≡ last
  Linked first (b ∷ bs) last = Follows first b × Linked b.header bs last

  pub Linked-append :
      (first last : BlockHeader) (bs : List LedgerBlock) (b : LedgerBlock)
      → Linked first bs last
      → Follows last b
      → Linked first (bs ++ (b ∷ [])) b.header
  Linked-append first last [] b same next = (subst (λ h. Follows h b) (sym same) next, refl)
  Linked-append first last (c ∷ bs) b (here, rest) next =
      (here, Linked-append c.header last bs b rest next)

  -- A first block at height 0, linked blocks up to the tip, and a valid world of the tip's digest.
  pub record IsChain (l : MemoryLedger) : Type 0 where
    pub first : LedgerBlock
    pub rest : List LedgerBlock
    pub all_blocks : l.blocks ≡ first ∷ rest
    pub at_zero : first.header.height ≡ 0
    pub no_parent : first.header.parent_hash ≡ genesis_parent
    pub first_checked : (h : String) × (validate_commitments ext wire first ≡ ok h)
    pub linked : Linked first.header rest l.tip
    pub valid : validate ext l.world ≡ ok tt
    pub digest : state_digest ext wire l.world ≡ ok l.tip.post_state_digest
    pub genesis_hashed : genesis_hash_of wire l.genesis ≡ ok l.genesis_hash

  genesis_world-valid :
      (g : GenesisManifest) (w : WorldState)
      → genesis_world ext wire g ≡ ok w
      → validate ext w ≡ ok tt
  unfolding genesis_world
  genesis_world-valid g w h = ground arith

  genesis_tip_start :
      (g : GenesisManifest) (hash : String) (w : WorldState) (tip : BlockHeader)
      → genesis_tip ext wire g hash w ≡ ok tip
      → (tip.height ≡ 0)
        × (tip.parent_hash ≡ genesis_parent)
        × (state_digest ext wire w ≡ ok tip.post_state_digest)
  unfolding genesis_tip
  genesis_tip_start g hash w tip h = (ground arith, ground arith, ground arith)

  -- A ledger that `new` returns is a chain: its only block is at height 0.
  pub new_ledger-IsChain :
      (g : GenesisManifest) (l : MemoryLedger) → new_ledger ext wire g ≡ ok l → IsChain l
  unfolding new_ledger
  new_ledger-IsChain g l h =
      let (hash, is_hash, h1) = >>=-eq-ok (genesis_hash_of wire g) _ h in
      let (w, is_w, h2) = >>=-eq-ok (genesis_world ext wire g) _ h1 in
      let (limits, is_limits, h3) = >>=-eq-ok (genesis_limits ext wire g) _ h2 in
      let (tip, is_tip, h4) = >>=-eq-ok (genesis_tip ext wire g hash w) _ h3 in
      let (checked, is_checked, h5) =
        >>=-eq-ok (validate_commitments ext wire (initial_block ext wire tip)) _ h4 in
      let (low, no_parent, digest) = genesis_tip_start g hash w tip is_tip in
      let start : MemoryLedger = record {
        world = w;
        genesis = g;
        genesis_hash = hash;
        tip = tip;
        blocks = initial_block ext wire tip ∷ [];
        limits = limits;
      } in
      let is_l : start ≡ l = ground arith in
      subst IsChain is_l (record {
        first = initial_block ext wire tip;
        rest = [];
        all_blocks = refl;
        at_zero = low;
        no_parent = no_parent;
        first_checked = (checked, is_checked);
        linked = refl;
        valid = genesis_world-valid g w is_w;
        digest = digest;
        genesis_hashed = is_hash;
      })
