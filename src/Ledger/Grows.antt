-- ===== src/Ledger/Grows.antt =====
-- src/ledger_runtime.rs: how `apply` and `submit` change the chain.
use aomori.Prelude.{ℕ, ◌≡◌, refl, ap, ◌∙◌, Option, none, some, List, [], ◌∷◌, ◌++◌, drop}
use aomori.Result.{Result, ok, err, ◌>>=◌}
use aomori.Model.{WorldState}
use aomori.External.{External}
use aomori.Runtime.Script.{Engine}
use aomori.Ledger.Data.{LedgerTransaction, LedgerBlock}
use aomori.Ledger.Digest.{Wire}
use aomori.Ledger.Transaction.{tx_id_of}
use aomori.Ledger.Memory.{MemoryLedger}
use aomori.Ledger.Candidate.{propose}
use aomori.Ledger.Apply.{
  Answer, find_block, extended, block_json, replay_block, publish_block, apply, applied,
  apply_proposed, submit_unless, submit,
}
use aomori.Ledger.Executed.{execute_candidate-Executed}
use aomori.Ledger.Replayed.{Replayed, replay_block-Replayed}
use aomori.Ledger.Chain.{Linked-append, IsChain}

module _ (ext : External) (wire : Wire)
    (same_digest : (b c : LedgerBlock) (json : List ℕ)
      → block_json wire b ≡ ok json
      → block_json wire c ≡ ok json
      → b.header.post_state_digest ≡ c.header.post_state_digest) where
  module _ (engine : Engine) where
    extended-IsChain :
        (l : MemoryLedger) (b : LedgerBlock) (w : WorldState)
        → IsChain ext wire l
        → Replayed ext wire engine l b w
        → IsChain ext wire (extended l w b)
    extended-IsChain l b w chain r =
        let ran = execute_candidate-Executed ext wire engine l r.tx w r.expected r.executed in
        record {
          first = chain.first;
          rest = chain.rest ++ (b ∷ []);
          all_blocks = ap (λ bs. bs ++ (b ∷ [])) chain.all_blocks;
          at_zero = chain.at_zero;
          no_parent = chain.no_parent;
          first_checked = chain.first_checked;
          linked =
              Linked-append ext wire chain.first.header l.tip chain.rest b chain.linked (record {
                next_height = r.next_height;
                parent = r.parent;
                commitments = r.commitments;
              });
          valid = ran.valid;
          digest =
              ran.digest ∙ ap ok (same_digest r.expected b r.json r.expected_json r.given_json);
          genesis_hashed = chain.genesis_hashed;
        }

    published-IsChain :
        (l : MemoryLedger) (b : LedgerBlock) (r : Result WorldState)
        → IsChain ext wire l
        → replay_block ext wire engine l b ≡ r
        → IsChain ext wire (publish_block ext wire engine l b r).1
    published-IsChain l b (err e) chain h = chain
    published-IsChain l b (ok w) chain h =
        extended-IsChain l b w chain (replay_block-Replayed ext wire engine l b w h)

    -- `apply` keeps the chain, for any block that it is given.
    pub apply-IsChain :
        (l : MemoryLedger) (b : LedgerBlock)
        → IsChain ext wire l
        → IsChain ext wire (apply ext wire engine l b).1
    unfolding apply
    apply-IsChain l b chain = published-IsChain l b (replay_block ext wire engine l b) chain refl

    applied-IsChain :
        (b : LedgerBlock) (a : Answer (Unit {0}))
        → IsChain ext wire a.1
        → IsChain ext wire (applied b a).1
    applied-IsChain b (ok _, l) chain = chain
    applied-IsChain b (err e, l) chain = chain

    proposed-IsChain :
        (l : MemoryLedger) (r : Result LedgerBlock)
        → IsChain ext wire l
        → IsChain ext wire (apply_proposed ext wire engine l r).1
    proposed-IsChain l (err e) chain = chain
    proposed-IsChain l (ok b) chain =
        applied-IsChain b (apply ext wire engine l b) (apply-IsChain l b chain)

  module _ (proposer engine : Engine) where
    unless-IsChain :
        (l : MemoryLedger) (tx : LedgerTransaction) (r : Result (Option LedgerBlock))
        → IsChain ext wire l
        → IsChain ext wire (submit_unless ext wire proposer engine l tx r).1
    unless-IsChain l tx (err e) chain = chain
    unless-IsChain l tx (ok (some b)) chain = chain
    unless-IsChain l tx (ok none) chain =
        proposed-IsChain engine l (propose ext wire proposer l tx) chain

    -- `submit` keeps the chain, for any transaction.
    pub submit-IsChain :
        (l : MemoryLedger) (tx : LedgerTransaction)
        → IsChain ext wire l
        → IsChain ext wire (submit ext wire proposer engine l tx).1
    unfolding submit
    submit-IsChain l tx chain =
        unless-IsChain l tx (tx_id_of ext wire tx >>= λ tx_id. find_block tx_id (drop 1 l.blocks))
          chain
