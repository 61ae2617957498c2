-- ===== src/Ledger/Submits.antt =====
-- src/ledger_runtime.rs: a proposed block is accepted, a transaction runs once.
use aomori.Prelude.{ℕ, ◌≡◌, ◌≢◌, refl, sym, ap, ◌∙◌, String, some, List, arith, text_key, ≟_refl}
use aomori.Map.{get}
use aomori.Result.{Result, ok, err, >>=-eq-ok}
use aomori.Model.{WorldState}
use aomori.External.{External}
use aomori.Runtime.Script.{Engine}
use aomori.Ledger.Data.{LedgerTransaction, LedgerBlock}
use aomori.Ledger.Digest.{Wire}
use aomori.Ledger.Memory.{MemoryLedger}
use aomori.Ledger.Candidate.{execute_candidate, propose}
use aomori.Ledger.Apply.{extended, block_json, replay_block, publish_block, apply, head_of}
use aomori.Ledger.Repeats.{ledger_run, execute_candidate_agrees}
use aomori.Ledger.Executed.{execute_candidate-Executed}
use aomori.Ledger.Replayed.{Replayed, replay_block-Replayed, eq_bytes_refl}

module _ (ext : External) (wire : Wire) (engine : Engine) where
  replays :
      (l : MemoryLedger) (tx : LedgerTransaction) (w : WorldState) (b : LedgerBlock) (json : List ℕ)
      → execute_candidate ext wire engine l tx ≡ ok (w, b)
      → block_json wire b ≡ ok json
      → replay_block ext wire engine l b ≡ ok w
  unfolding replay_block
  replays l tx w b json ran shown =
      let e = execute_candidate-Executed ext wire engine l tx w b ran in
      let checked = e.commitments.1 in
      ground (
        arith,
        checked,
        e.next_height,
        e.parent,
        e.only_tx,
        ran,
        shown,
        ≟_refl b.header.parent_hash,
        eq_bytes_refl json,
      )

  -- A block that `propose` returns is accepted by `apply` on the same ledger, if the block has a
  -- canonical JSON and the run of Lua that `apply` starts makes the same calls and gives the same
  -- value as the one that `propose` started, which nothing in the program enforces; the world is then
  -- the one that the proposal computed.
  pub propose-apply :
      (proposer : Engine) (l : MemoryLedger) (tx : LedgerTransaction) (b : LedgerBlock)
      (json : List ℕ)
      → propose ext wire proposer l tx ≡ ok b
      → block_json wire b ≡ ok json
      → engine.f64_of ≡ proposer.f64_of
      → ((source : String)
          → ledger_run engine l.limits tx.entity_id tx.action tx.args source
            ≡ ledger_run proposer l.limits tx.entity_id tx.action tx.args source)
      → (w : WorldState) × (execute_candidate ext wire proposer l tx ≡ ok (w, b))
        × (apply ext wire engine l b ≡ (ok tt, extended l w b))
  unfolding propose apply
  propose-apply proposer l tx b json proposed shown same_numbers same_run =
      let ((w, c), ran, same) = >>=-eq-ok (execute_candidate ext wire proposer l tx) _ proposed in
      let is_b : c ≡ b = ground arith in
      let ran_b : execute_candidate ext wire proposer l tx ≡ ok (w, b) =
        ran ∙ ap (λ x. ok (w, x)) is_b in
      let again = execute_candidate_agrees ext wire engine proposer l tx same_numbers same_run in
      (
        w,
        ran_b,
        ap (publish_block ext wire engine l b) (replays l tx w b json (again ∙ ran_b) shown),
      )

  published_eq :
      (l : MemoryLedger) (b : LedgerBlock) (r : Result WorldState)
      → replay_block ext wire engine l b ≡ r
      → (publish_block ext wire engine l b r).0 ≡ ok tt
      → (w : WorldState) × (apply ext wire engine l b ≡ (ok tt, extended l w b))
        × (replay_block ext wire engine l b ≡ ok w)
  unfolding apply
  published_eq l b (err e) h done = cc
  published_eq l b (ok w) h done = (w, ap (publish_block ext wire engine l b) h, h)

  -- A block that `apply` has published.
  pub apply-extended :
      (l : MemoryLedger) (b : LedgerBlock)
      → (apply ext wire engine l b).0 ≡ ok tt
      → (w : WorldState) × (apply ext wire engine l b ≡ (ok tt, extended l w b))
        × (replay_block ext wire engine l b ≡ ok w)
  unfolding apply
  apply-extended l b done = published_eq l b (replay_block ext wire engine l b) refl done

  spent :
      (l : MemoryLedger) (b : LedgerBlock) (w : WorldState) (tx : LedgerTransaction)
      → Replayed ext wire engine l b w
      → head_of b.transactions ≡ some tx
      → (proposer : Engine) (x : WorldState × LedgerBlock)
      → execute_candidate ext wire proposer (extended l w b) tx ≢ ok x
  spent l b w tx r is_tx proposer (w2, b2) again =
      let ran = execute_candidate-Executed ext wire engine l r.tx w r.expected r.executed in
      let second = execute_candidate-Executed ext wire proposer (extended l w b) tx w2 b2 again in
      let same : r.tx ≡ tx = ground (arith, r.first_tx, is_tx) in
      let next : get tx.from w.accounts ≡ some ran.settled.0 =
        ap (λ t. get t.from w.accounts) (sym same) ∙ ran.settled.1 in
      let one : ran.settled.0 ≡ second.account = ground (arith, next, second.sender) in
      omega (
        arith,
        ap (λ a. a.nonce) one,
        ran.settled.2,
        ran.nonce_matches,
        second.nonce_matches,
        ap (λ t. t.nonce) same,
      )

  -- The transaction of a block that was published is never proposed again on the ledger it led to,
  -- whatever Lua would do.
  pub apply-propose :
      (l : MemoryLedger) (b : LedgerBlock) (tx : LedgerTransaction)
      → (apply ext wire engine l b).0 ≡ ok tt
      → head_of b.transactions ≡ some tx
      → (proposer : Engine) (c : LedgerBlock)
      → propose ext wire proposer (apply ext wire engine l b).1 tx ≢ ok c
  unfolding propose
  apply-propose l b tx done is_tx proposer c again =
      let (w, is_applied, is_replayed) = apply-extended l b done in
      let on : propose ext wire proposer (extended l w b) tx ≡ ok c =
        ap (λ a. propose ext wire proposer a.1 tx) (sym is_applied) ∙ again in
      let (x, ran, same) =
        >>=-eq-ok (execute_candidate ext wire proposer (extended l w b) tx) _ on in
      spent l b w tx (replay_block-Replayed ext wire engine l b w is_replayed) is_tx proposer x ran
