-- ===== src/Ledger/Again.antt =====
-- src/ledger_runtime.rs: a transaction that is submitted again.
use aomori.Prelude.{
  ◌≡◌, refl, sym, ap, ◌∙◌, inl, inr, String, Option, none, some, List, [], ◌∷◌, ◌++◌, arith, drop,
  text_key, ≟_iff,
}
use mathlib.Core.Path.{subst}
use aomori.Result.{Result, ok, err, ◌>>=◌, Result-cases, >>=-eq-ok}
use aomori.Model.{WorldState}
use aomori.External.{External}
use aomori.Runtime.Script.{Engine}
use aomori.Ledger.Data.{LedgerTransaction, LedgerBlock, ExecutionResult}
use aomori.Ledger.Digest.{Wire}
use aomori.Ledger.Transaction.{tx_id_of}
use aomori.Ledger.Memory.{MemoryLedger}
use aomori.Ledger.Candidate.{execute_candidate, propose}
use aomori.Ledger.Apply.{
  Answer, find_block, extended, apply, applied, apply_proposed, submit_unless, submit, head_of,
}
use aomori.Ledger.Executed.{Executed, execute_candidate-Executed}
use aomori.Ledger.Submits.{apply-extended}

module _ (ext : External) (wire : Wire) where
  find-append :
      (id : String) (bs : List LedgerBlock) (b : LedgerBlock) (r : ExecutionResult)
      → find_block id bs ≡ ok none
      → head_of b.execution_results ≡ some r
      → r.tx_id ≡ id
      → find_block id (bs ++ (b ∷ [])) ≡ ok (some b)
  unfolding find_block
  find-append id [] b r h has same = ground (arith, has, ≟_iff r.tx_id id)
  find-append id (c ∷ bs) b r h has same = ground (arith, find-append id bs b r)

  -- The block of a proposal is found among the blocks behind the first.
  find-proposed :
      (proposer : Engine) (l : MemoryLedger) (tx : LedgerTransaction) (id : String)
      (first : LedgerBlock) (rest : List LedgerBlock) (w : WorldState) (c : LedgerBlock)
      → l.blocks ≡ first ∷ rest
      → tx_id_of ext wire tx ≡ ok id
      → find_block id (drop 1 l.blocks) ≡ ok none
      → Executed ext wire proposer l tx w c
      → find_block id (drop 1 (l.blocks ++ (c ∷ []))) ≡ ok (some c)
  find-proposed proposer l tx id first rest w c all is_id missing e =
      ap (λ bs. find_block id (drop 1 (bs ++ (c ∷ [])))) all
      ∙ find-append id rest c e.result (ap (λ bs. find_block id (drop 1 bs)) (sym all) ∙ missing)
          (ap head_of e.only_result) (ground (arith, e.result_id, e.id_of_tx, is_id))

  -- The executions of the first submission, and those of the second.
  module _ (proposer engine proposer2 engine2 : Engine) where
    abbrev Repeats : LedgerTransaction → Answer LedgerBlock → Type 0
    Repeats tx a =
        (b : LedgerBlock) → a.0 ≡ ok b → submit ext wire proposer2 engine2 a.1 tx ≡ (ok b, a.1)

    found-Repeats :
        (l : MemoryLedger) (tx : LedgerTransaction) (id : String) (b : LedgerBlock)
        → tx_id_of ext wire tx ≡ ok id
        → find_block id (drop 1 l.blocks) ≡ ok (some b)
        → submit ext wire proposer2 engine2 l tx ≡ (ok b, l)
    unfolding submit
    found-Repeats l tx id b is_id found =
        ap (submit_unless ext wire proposer2 engine2 l tx)
          (ap (λ r. r >>= λ tx_id. find_block tx_id (drop 1 l.blocks)) is_id ∙ found)

    applied-Repeats :
        (l : MemoryLedger) (tx : LedgerTransaction) (id : String) (first : LedgerBlock)
        (rest : List LedgerBlock) (c : LedgerBlock)
        → l.blocks ≡ first ∷ rest
        → tx_id_of ext wire tx ≡ ok id
        → find_block id (drop 1 l.blocks) ≡ ok none
        → propose ext wire proposer l tx ≡ ok c
        → (a : Answer (Unit {0})) → apply ext wire engine l c ≡ a
        → Repeats tx (applied c a)
    unfolding propose
    applied-Repeats l tx id first rest c all is_id missing h (err e, l') is_a b done = cc
    applied-Repeats l tx id first rest c all is_id missing h (ok _, l') is_a b done =
        let (w, is_applied, is_replayed) =
          apply-extended ext wire engine l c (ap (λ a. a.0) is_a) in
        let ((v, d), ran, same) = >>=-eq-ok (execute_candidate ext wire proposer l tx) _ h in
        let is_c : d ≡ c = ground arith in
        let e =
          execute_candidate-Executed ext wire proposer l tx v c (ran ∙ ap (λ x. ok (v, x)) is_c) in
        let is_l : extended l w c ≡ l' = ap (λ a. a.1) (sym is_applied ∙ is_a) in
        let is_b : c ≡ b = ground arith in
        subst (λ x. submit ext wire proposer2 engine2 l' tx ≡ (ok x, l')) is_b
          (found-Repeats l' tx id c is_id (
            ap (λ x. find_block id (drop 1 x.blocks)) (sym is_l)
            ∙ find-proposed proposer l tx id first rest v c all is_id missing e))

    proposed-Repeats :
        (l : MemoryLedger) (tx : LedgerTransaction) (id : String) (first : LedgerBlock)
        (rest : List LedgerBlock)
        → l.blocks ≡ first ∷ rest
        → tx_id_of ext wire tx ≡ ok id
        → find_block id (drop 1 l.blocks) ≡ ok none
        → (r : Result LedgerBlock) → propose ext wire proposer l tx ≡ r
        → Repeats tx (apply_proposed ext wire engine l r)
    proposed-Repeats l tx id first rest all is_id missing (err e) h b done = cc
    proposed-Repeats l tx id first rest all is_id missing (ok c) h b done =
        applied-Repeats l tx id first rest c all is_id missing h (apply ext wire engine l c) refl b
          done

    unless-Repeats :
        (l : MemoryLedger) (tx : LedgerTransaction) (id : String) (first : LedgerBlock)
        (rest : List LedgerBlock)
        → l.blocks ≡ first ∷ rest
        → tx_id_of ext wire tx ≡ ok id
        → (r : Result (Option LedgerBlock)) → find_block id (drop 1 l.blocks) ≡ r
        → Repeats tx (submit_unless ext wire proposer engine l tx r)
    unless-Repeats l tx id first rest all is_id (err e) h b done = cc
    unless-Repeats l tx id first rest all is_id (ok (some c)) h b done =
        let is_b : c ≡ b = ground arith in
        subst (λ x. submit ext wire proposer2 engine2 l tx ≡ (ok x, l)) is_b
          (found-Repeats l tx id c is_id h)
    unless-Repeats l tx id first rest all is_id (ok none) h b done =
        proposed-Repeats l tx id first rest all is_id h (propose ext wire proposer l tx) refl b done

    with_id :
        (l : MemoryLedger) (tx : LedgerTransaction) (r : Result String)
        → tx_id_of ext wire tx ≡ r
        → submit ext wire proposer engine l tx
          ≡ submit_unless ext wire proposer engine l tx
              (r >>= λ id. find_block id (drop 1 l.blocks))
    unfolding submit
    with_id l tx r h =
        ap
          (λ x.
            submit_unless ext wire proposer engine l tx
              (x >>= λ id. find_block id (drop 1 l.blocks)))
          h

    -- A transaction that `submit` has accepted is answered with the same block when it is submitted
    -- again, and the ledger does not change, whatever Lua would do; the ledger had its first block.
    pub submit-submit :
        (l : MemoryLedger) (tx : LedgerTransaction) (first : LedgerBlock) (rest : List LedgerBlock)
        (b : LedgerBlock)
        → l.blocks ≡ first ∷ rest
        → (submit ext wire proposer engine l tx).0 ≡ ok b
        → submit ext wire proposer2 engine2 (submit ext wire proposer engine l tx).1 tx
          ≡ (ok b, (submit ext wire proposer engine l tx).1)
    submit-submit l tx first rest b all done = elim (Result-cases (tx_id_of ext wire tx)) [
      | inl (id, is_id) ↦
          subst (Repeats tx) (sym (with_id l tx (ok id) is_id))
            (unless-Repeats l tx id first rest all is_id (find_block id (drop 1 l.blocks)) refl) b
            done
      | inr (e, bad) ↦ subst (Repeats tx) (sym (with_id l tx (err e) bad)) (λ _ refused. cc) b done
    ]
