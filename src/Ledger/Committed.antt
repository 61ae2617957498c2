-- ===== src/Ledger/Committed.antt =====
-- src/ledger.rs: what `validate_commitments` has checked.
use aomori.Prelude.{
  ◌<◌, ◌≡◌, sym, ap, ◌∙◌, String, true, ◌&&◌, List, [], ◌∷◌, map, text_key, ◌≟◌, ≟_iff, ◌==◌,
  ==_iff, length, arith,
}
use aomori.Result.{
  ok, >>-eq-ok, >>=-eq-ok, require, block_count_mismatch, block_chain_mismatch, result_mismatch,
  invalid_event_range, transactions_digest_mismatch, results_digest_mismatch,
}
use aomori.External.{External}
use aomori.Ledger.Data.{LedgerTransaction, BlockHeader, ExecutionResult, LedgerBlock}
use aomori.Ledger.Hex.{hash_hex}
use aomori.Ledger.Digest.{Wire, Domain, hash_of}
use aomori.Ledger.Transaction.{tx_id_of}
use aomori.Ledger.Block.{
  is_event_range, header_hash, check_result, check_results, validate_commitments,
}

module _ (ext : External) (wire : Wire) where
  -- A result of a transaction, in a block with this header.
  pub record Agrees (header : BlockHeader) (tx : LedgerTransaction) (r : ExecutionResult)
      : Type 0 where
    pub chain : tx.chain_id ≡ header.chain_id
    pub genesis : tx.genesis_hash ≡ header.genesis_hash
    pub id : tx_id_of ext wire tx ≡ ok r.tx_id
    pub success : r.succeeded ≡ true
    pub sender : r.from ≡ tx.from
    pub nonce : r.nonce ≡ tx.nonce
    pub range : is_event_range r.first_event_id r.last_event_id ≡ true

  abbrev pub AllAgree : BlockHeader → List LedgerTransaction → List ExecutionResult → Type 0
  AllAgree header (tx ∷ txs) (r ∷ rs) = Agrees header tx r × AllAgree header txs rs
  AllAgree header [] rs = Unit
  AllAgree header (tx ∷ txs) [] = Unit

  pub record Committed (b : LedgerBlock) (h : String) : Type 0 where
    pub hashed : header_hash ext wire b.header ≡ ok h
    pub empty_genesis : b.header.height ≡ 0 → length b.transactions ≡ 0
    pub one_each : 0 < b.header.height → length b.transactions ≡ 1
    pub counted : length b.execution_results ≡ length b.transactions
    pub agreed : AllAgree b.header b.transactions b.execution_results
    pub transactions_digest :
        hash_of wire Domain.transactions (wire.texts_value (map (λ r. r.tx_id) b.execution_results))
        ≡ ok b.header.transactions_digest
    pub results_digest :
        hash_of wire Domain.results (wire.results_value b.execution_results)
        ≡ ok b.header.results_digest

  check_result-Agrees :
      (header : BlockHeader) (tx : LedgerTransaction) (r : ExecutionResult) (id : String)
      → check_result ext wire header tx r ≡ ok id
      → Agrees header tx r × (r.tx_id ≡ id)
  unfolding check_result
  check_result-Agrees header tx r id h =
      let (same_chain, h1) =
        >>-eq-ok
          (require ((tx.chain_id ≟ header.chain_id) && (tx.genesis_hash ≟ header.genesis_hash))
            block_chain_mismatch)
          _ h in
      let (found, is_found, h2) = >>=-eq-ok (tx_id_of ext wire tx) _ h1 in
      let (same, h3) =
        >>-eq-ok
          (require
            (r.succeeded && ((r.tx_id ≟ found) && ((r.from ≟ tx.from) && (r.nonce == tx.nonce))))
            result_mismatch)
          _ h2 in
      let (events, is_events, h4) = >>=-eq-ok (hash_hex ext.hex_decode r.events_digest 32) _ h3 in
      let (range, h5) =
        >>-eq-ok (require (is_event_range r.first_event_id r.last_event_id) invalid_event_range) _
          h4 in
      let is_id : r.tx_id ≡ found = ground (arith, same, ≟_iff r.tx_id found) in
      (
        record {
          chain = ground (arith, same_chain, ≟_iff tx.chain_id header.chain_id);
          genesis = ground (arith, same_chain, ≟_iff tx.genesis_hash header.genesis_hash);
          id = is_found ∙ ap ok (sym is_id);
          success = ground (arith, same);
          sender = ground (arith, same, ≟_iff r.from tx.from);
          nonce = ground (arith, same, ==_iff r.nonce tx.nonce);
          range = ground (arith, range);
        },
        is_id ∙ ground (arith, h5),
      )

  check_results-AllAgree :
      (header : BlockHeader) (txs : List LedgerTransaction) (rs : List ExecutionResult)
      (ids : List String)
      → check_results ext wire header txs rs ≡ ok ids
      → AllAgree header txs rs × (length rs ≡ length txs → map (λ r. r.tx_id) rs ≡ ids)
  unfolding check_results
  check_results-AllAgree header [] [] ids h = (tt, λ _. ground arith)
  check_results-AllAgree header [] (r ∷ rs) ids h = (tt, λ long. ground (arith, long))
  check_results-AllAgree header (tx ∷ txs) [] ids h = (tt, λ long. ground (arith, long))
  check_results-AllAgree header (tx ∷ txs) (r ∷ rs) ids h =
      let (id, is_id, h1) = >>=-eq-ok (check_result ext wire header tx r) _ h in
      let (rest, is_rest, h2) = >>=-eq-ok (check_results ext wire header txs rs) _ h1 in
      let (agrees, same) = check_result-Agrees header tx r id is_id in
      let (all, equal) = check_results-AllAgree header txs rs rest is_rest in
      let is_ids : id ∷ rest ≡ ids = ground arith in
      (
        (agrees, all),
        λ long.
            ap (λ i. i ∷ map (λ x. x.tx_id) rs) same
            ∙ ap (λ is. id ∷ is) (equal (omega (arith, long)))
            ∙ is_ids,
      )

  header_counts :
      (header : BlockHeader) (h : String)
      → header_hash ext wire header ≡ ok h
      → (header.height ≡ 0 → header.tx_count ≡ 0) × (0 < header.height → header.tx_count ≡ 1)
  unfolding header_hash
  header_counts header h e = (λ low. ground arith, λ high. ground arith)

  -- A block that `validate_commitments` accepts: its header has the hash that is returned; at height
  -- 0 it is empty, above it has one transaction; there is one result for each transaction, which
  -- succeeded and has the id, the sender and the nonce of the transaction, and the transaction is of
  -- the header's chain; the digests of the header are those of the ids and of the results.
  pub validate_commitments_sound :
      (b : LedgerBlock) (h : String) → validate_commitments ext wire b ≡ ok h → Committed b h
  unfolding validate_commitments
  validate_commitments_sound b h e =
      let (hash, is_hash, h1) = >>=-eq-ok (header_hash ext wire b.header) _ e in
      let (counts, h2) =
        >>-eq-ok
          (require
            ((length b.transactions == b.header.tx_count)
              && (length b.execution_results == length b.transactions))
            block_count_mismatch)
          _ h1 in
      let (ids, is_ids, h3) =
        >>=-eq-ok (check_results ext wire b.header b.transactions b.execution_results) _ h2 in
      let (txs, is_txs, h4) =
        >>=-eq-ok (hash_of wire Domain.transactions (wire.texts_value ids)) _ h3 in
      let (same_txs, h5) =
        >>-eq-ok (require (txs ≟ b.header.transactions_digest) transactions_digest_mismatch) _ h4 in
      let (results, is_results, h6) =
        >>=-eq-ok (hash_of wire Domain.results (wire.results_value b.execution_results)) _ h5 in
      let (same_results, h7) =
        >>-eq-ok (require (results ≟ b.header.results_digest) results_digest_mismatch) _ h6 in
      let (zero_count, one_count) = header_counts b.header hash is_hash in
      let (all, equal) =
        check_results-AllAgree b.header b.transactions b.execution_results ids is_ids in
      let long : length b.execution_results ≡ length b.transactions = ground (arith, counts) in
      let count : length b.transactions ≡ b.header.tx_count = ground (arith, counts) in
      record {
        hashed = is_hash ∙ ground (arith, h7);
        empty_genesis = λ low. count ∙ zero_count low;
        one_each = λ high. count ∙ one_count high;
        counted = long;
        agreed = all;
        transactions_digest =
            ap (λ is. hash_of wire Domain.transactions (wire.texts_value is)) (equal long)
            ∙ is_txs
            ∙ ap ok (ground (arith, same_txs, ≟_iff txs b.header.transactions_digest));
        results_digest =
            is_results
            ∙ ap ok (ground (arith, same_results, ≟_iff results b.header.results_digest));
      }
