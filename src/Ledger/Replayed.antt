-- ===== src/Ledger/Replayed.antt =====
-- src/ledger_runtime.rs: what `apply` has found out about a block that it publishes.
use aomori.Prelude.{
  ℕ, suc, ◌≡◌, refl, sym, ap, ◌∙◌, String, Bool, true, false, Option, none, some, List, [], ◌∷◌,
  text_key, ◌≟◌, ≟_iff, arith, if◌then◌else◌,
}
use aomori.Result.{
  ok, err, >>-eq-ok, >>=-eq-ok, require, ok_or, panicked, invalid_ancestry, replayed_block_mismatch,
}
use aomori.Model.{WorldState}
use aomori.External.{External}
use aomori.Runtime.Script.{Engine}
use aomori.Ledger.Data.{LedgerTransaction, LedgerBlock}
use aomori.Ledger.Digest.{Wire}
use aomori.Ledger.Block.{header_hash, validate_commitments}
use aomori.Ledger.Memory.{MemoryLedger}
use aomori.Ledger.Candidate.{checked_next, execute_candidate}
use aomori.Ledger.Apply.{eq_bytes, is_next, head_of, block_json, replay_block}

pub eq_bytes-eq : (xs ys : List ℕ) → eq_bytes xs ys ≡ true → xs ≡ ys
eq_bytes-eq [] [] h = refl
eq_bytes-eq (x ∷ xs) (y ∷ ys) h = ground (arith, eq_bytes-eq xs ys)
eq_bytes-eq [] (y ∷ ys) h = cc
eq_bytes-eq (x ∷ xs) [] h = cc

pub eq_bytes_refl : (xs : List ℕ) → eq_bytes xs xs ≡ true
eq_bytes_refl [] = refl
eq_bytes_refl (x ∷ xs) = ground (arith, eq_bytes_refl xs)

is_next-eq : (h n : ℕ) → is_next h (checked_next n) ≡ true → h ≡ suc n
is_next-eq h n e = ground arith

module _ (ext : External) (wire : Wire) (engine : Engine) where
  -- The block, the block that the replay makes of its transaction, and what they share.
  pub record Replayed (l : MemoryLedger) (b : LedgerBlock) (w : WorldState) : Type 0 where
    pub commitments : (h : String) × (validate_commitments ext wire b ≡ ok h)
    pub next_height : b.header.height ≡ suc l.tip.height
    pub parent : header_hash ext wire l.tip ≡ ok b.header.parent_hash
    pub tx : LedgerTransaction
    pub first_tx : head_of b.transactions ≡ some tx
    pub expected : LedgerBlock
    pub executed : execute_candidate ext wire engine l tx ≡ ok (w, expected)
    pub json : List ℕ
    pub expected_json : block_json wire expected ≡ ok json
    pub given_json : block_json wire b ≡ ok json

  ancestry :
      (l : MemoryLedger) (b : LedgerBlock) (next : Bool) (parent : String)
      → (if next then header_hash ext wire l.tip else err invalid_ancestry) ≡ ok parent
      → require (b.header.parent_hash ≟ parent) invalid_ancestry ≡ ok tt
      → (next ≡ true) × (header_hash ext wire l.tip ≡ ok b.header.parent_hash)
  ancestry l b true parent h same =
      (refl, h ∙ ap ok (sym (ground (arith, ≟_iff b.header.parent_hash parent))))
  ancestry l b false parent h same = cc

  head_eq :
      (o : Option LedgerTransaction) (tx : LedgerTransaction)
      → ok_or o panicked ≡ ok tx
      → o ≡ some tx
  head_eq none tx h = cc
  head_eq (some t) tx h = ground arith

  pub replay_block-Replayed :
      (l : MemoryLedger) (b : LedgerBlock) (w : WorldState)
      → replay_block ext wire engine l b ≡ ok w
      → Replayed l b w
  unfolding replay_block
  replay_block-Replayed l b w h =
      let (hash, checked, h1) = >>=-eq-ok (validate_commitments ext wire b) _ h in
      let (parent, is_parent, h2) =
        >>=-eq-ok
          (if is_next b.header.height (checked_next l.tip.height)
            then header_hash ext wire l.tip
            else err invalid_ancestry)
          _ h1 in
      let (same_parent, h3) =
        >>-eq-ok (require (b.header.parent_hash ≟ parent) invalid_ancestry) _ h2 in
      let (tx, is_tx, h4) = >>=-eq-ok (ok_or (head_of b.transactions) panicked) _ h3 in
      let ((candidate, expected), ran, h5) =
        >>=-eq-ok (execute_candidate ext wire engine l tx) _ h4 in
      let (json, is_json, h6) = >>=-eq-ok (block_json wire expected) _ h5 in
      let (given, is_given, h7) = >>=-eq-ok (block_json wire b) _ h6 in
      let (same, h8) = >>-eq-ok (require (eq_bytes json given) replayed_block_mismatch) _ h7 in
      let (next, above) =
        ancestry l b (is_next b.header.height (checked_next l.tip.height)) parent is_parent
          same_parent in
      let is_w : candidate ≡ w = ground arith in
      let bytes : json ≡ given = eq_bytes-eq json given (ground arith) in
      record {
        commitments = (hash, checked);
        next_height = is_next-eq b.header.height l.tip.height next;
        parent = above;
        tx = tx;
        first_tx = head_eq (head_of b.transactions) tx is_tx;
        expected = expected;
        executed = ran ∙ ap (λ c. ok (c, expected)) is_w;
        json = json;
        expected_json = is_json;
        given_json = is_given ∙ ap ok (sym bytes);
      }
