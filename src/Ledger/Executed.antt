-- ===== src/Ledger/Executed.antt =====
-- src/ledger_runtime.rs: what `execute_candidate` has done when it returns a block.
use aomori.Prelude.{
  ℕ, suc, ◌≡◌, refl, sym, ap, ◌∙◌, String, some, List, [], ◌∷◌, drop, length, text_key, nat_key,
  arith, inl, inr, Option-cases,
}
use mathlib.Core.Path.{subst}
use aomori.Map.{get, get-replace_self}
use aomori.Result.{ok, require, execution_failed, >>-eq-ok, >>=-eq-ok}
use aomori.Model.{WorldState, Account, Receipt, WorldEvent}
use aomori.Model.Validate.{validate}
use aomori.External.{External}
use aomori.Runtime.Script.{Engine}
use aomori.Runtime.Execute.{execute_ledger_command}
use aomori.Ledger.Data.{LedgerTransaction, BlockHeader, ExecutionResult, LedgerBlock}
use aomori.Ledger.Digest.{Wire}
use aomori.Ledger.Transaction.{tx_id_of}
use aomori.Ledger.Block.{header_hash, validate_commitments}
use aomori.Ledger.Memory.{MemoryLedger, state_digest}
use aomori.Ledger.Candidate.{
  checked_next, on_copy, settle_candidate, check_ledger_transaction, execution_result, next_header,
  seal_block, execute_candidate,
}

module _ (ext : External) (wire : Wire) (engine : Engine) where
  -- A world and a block that `execute_candidate` returned.
  pub record Executed (l : MemoryLedger) (tx : LedgerTransaction) (w : WorldState) (b : LedgerBlock)
      : Type 0 where
    pub account : Account
    pub sender : get tx.from l.world.accounts ≡ some account
    pub nonce_matches : tx.nonce ≡ account.nonce
    pub settled :
        (next : Account) × (get tx.from w.accounts ≡ some next) × (next.nonce ≡ suc account.nonce)
    pub valid : validate ext w ≡ ok tt
    pub id : String
    pub id_of_tx : tx_id_of ext wire tx ≡ ok id
    pub result : ExecutionResult
    pub result_id : result.tx_id ≡ id
    pub only_tx : b.transactions ≡ tx ∷ []
    pub only_result : b.execution_results ≡ result ∷ []
    pub next_height : checked_next l.tip.height ≡ some b.header.height
    pub parent : header_hash ext wire l.tip ≡ ok b.header.parent_hash
    pub digest : state_digest ext wire w ≡ ok b.header.post_state_digest
    pub commitments : (h : String) × (validate_commitments ext wire b ≡ ok h)

  checked_sender :
      (l : MemoryLedger) (tx : LedgerTransaction) (account : Account)
      → check_ledger_transaction ext wire engine l tx ≡ ok account
      → (get tx.from l.world.accounts ≡ some account) × (tx.nonce ≡ account.nonce)
  unfolding check_ledger_transaction
  checked_sender l tx account h = (ground arith, ground arith)

  settled_sender :
      (tx : LedgerTransaction) (tx_id : String) (n : ℕ) (ran w : WorldState)
      → settle_candidate tx tx_id n ran ≡ ok w
      → (next : Account) × (get tx.from w.accounts ≡ some next) × (next.nonce ≡ suc n)
  unfolding settle_candidate
  settled_sender tx tx_id n ran w h = elim (Option-cases (get tx.from ran.accounts)) [
    | inl missing ↦ ground (arith, missing)
    | inr (account, there) ↦ (
      record account { nonce = suc n },
      ground (
        arith,
        there,
        get-replace_self tx.from (record account { nonce = suc n }) account ran.accounts there,
      ),
      refl,
    )
  ]

  result_of-id :
      (tx : LedgerTransaction) (tx_id : String) (receipt : Receipt) (es : List WorldEvent)
      (r : ExecutionResult)
      → execution_result ext wire engine tx tx_id receipt es ≡ ok r
      → r.tx_id ≡ tx_id
  unfolding execution_result
  result_of-id tx tx_id receipt es r h = ground arith

  header_of :
      (l : MemoryLedger) (tx_id : String) (r : ExecutionResult) (w : WorldState)
      (header : BlockHeader)
      → next_header ext wire engine l tx_id r w ≡ ok header
      → (checked_next l.tip.height ≡ some header.height)
        × (header_hash ext wire l.tip ≡ ok header.parent_hash)
        × (state_digest ext wire w ≡ ok header.post_state_digest)
  unfolding next_header
  header_of l tx_id r w header h = (ground arith, ground arith, ground arith)

  -- A block that was sealed.
  record Sealed (l : MemoryLedger) (tx : LedgerTransaction) (id : String) (c w : WorldState)
      (b : LedgerBlock) : Type 0 where
    same : w ≡ c
    valid : validate ext c ≡ ok tt
    result : ExecutionResult
    result_id : result.tx_id ≡ id
    only_tx : b.transactions ≡ tx ∷ []
    only_result : b.execution_results ≡ result ∷ []
    next_height : checked_next l.tip.height ≡ some b.header.height
    parent : header_hash ext wire l.tip ≡ ok b.header.parent_hash
    digest : state_digest ext wire c ≡ ok b.header.post_state_digest
    commitments : (h : String) × (validate_commitments ext wire b ≡ ok h)

  seal_block-Sealed :
      (l : MemoryLedger) (tx : LedgerTransaction) (id : String) (receipt : Receipt)
      (c w : WorldState) (b : LedgerBlock)
      → seal_block ext wire engine l tx id receipt c ≡ ok (w, b)
      → Sealed l tx id c w b
  unfolding seal_block
  seal_block-Sealed l tx id receipt c w b h =
      let (valid, h1) = >>-eq-ok (validate ext c) _ h in
      let (result, is_result, h2) =
        >>=-eq-ok
          (execution_result ext wire engine tx id receipt (drop (length l.world.events) c.events)) _
          h1 in
      let (header, is_header, h3) = >>=-eq-ok (next_header ext wire engine l id result c) _ h2 in
      let (next, parent, digest) = header_of l id result c header is_header in
      let sealed : LedgerBlock = record {
        header = header;
        transactions = tx ∷ [];
        execution_results = result ∷ [];
      } in
      let (hash, checked, h4) = >>=-eq-ok (validate_commitments ext wire sealed) _ h3 in
      let is_b : sealed ≡ b = ground arith in
      record {
        same = ground arith;
        valid = valid;
        result = result;
        result_id = result_of-id tx id receipt _ result is_result;
        only_tx = ap (λ x. x.transactions) (sym is_b);
        only_result = ap (λ x. x.execution_results) (sym is_b);
        next_height = next ∙ ap (λ x. some x.header.height) is_b;
        parent = parent ∙ ap (λ x. ok x.header.parent_hash) is_b;
        digest = digest ∙ ap (λ x. ok x.header.post_state_digest) is_b;
        commitments = (hash, ap (validate_commitments ext wire) (sym is_b) ∙ checked);
      }

  pub execute_candidate-Executed :
      (l : MemoryLedger) (tx : LedgerTransaction) (w : WorldState) (b : LedgerBlock)
      → execute_candidate ext wire engine l tx ≡ ok (w, b)
      → Executed l tx w b
  unfolding execute_candidate
  execute_candidate-Executed l tx w b h =
      let (account, is_account, h1) =
        >>=-eq-ok (check_ledger_transaction ext wire engine l tx) _ h in
      let (tx_id, is_id, h2) = >>=-eq-ok (tx_id_of ext wire tx) _ h1 in
      let ((receipt, ran), is_ran, h3) =
        >>=-eq-ok
          (on_copy
            (execute_ledger_command ext engine l.world tx.entity_id tx.action tx.args l.limits))
          _ h2 in
      let (succeeded, h4) = >>-eq-ok (require receipt.succeeded execution_failed) _ h3 in
      let (c, is_c, h5) = >>=-eq-ok (settle_candidate tx tx_id account.nonce ran) _ h4 in
      let sealed : Sealed l tx tx_id c w b = seal_block-Sealed l tx tx_id receipt c w b h5 in
      record {
        account = account;
        sender = (checked_sender l tx account is_account).0;
        nonce_matches = (checked_sender l tx account is_account).1;
        settled =
            subst
              (λ x.
                (next : Account) × (get tx.from x.accounts ≡ some next)
                × (next.nonce ≡ suc account.nonce))
              (sym sealed.same) (settled_sender tx tx_id account.nonce ran c is_c);
        valid = ap (validate ext) sealed.same ∙ sealed.valid;
        id = tx_id;
        id_of_tx = is_id;
        result = sealed.result;
        result_id = sealed.result_id;
        only_tx = sealed.only_tx;
        only_result = sealed.only_result;
        next_height = sealed.next_height;
        parent = sealed.parent;
        digest = ap (state_digest ext wire) sealed.same ∙ sealed.digest;
        commitments = sealed.commitments;
      }
