-- ===== src/Ledger/Block.antt =====
-- src/ledger.rs: `BlockHeader::hash` and `LedgerBlock::validate_commitments`
use aomori.Prelude.{
  ℕ, String, Bool, true, false, not, ◌&&◌, ◌||◌, Option, none, some, List, [], ◌∷◌, text_key, ◌≟◌,
  ◌==◌, ltb, leb, length,
}
use aomori.Result.{
  Result, ok, ◌>>=◌, ◌>>◌, require, refuse_if, invalid_block_protocol, invalid_transaction_count,
  invalid_genesis_parent, block_count_mismatch, block_chain_mismatch, result_mismatch,
  invalid_event_range, transactions_digest_mismatch, results_digest_mismatch,
}
use aomori.External.{External}
use aomori.Ledger.Data.{LedgerTransaction, BlockHeader, ExecutionResult, LedgerBlock}
use aomori.Ledger.Hex.{hash_hex}
use aomori.Ledger.Digest.{Wire, Domain, hash_of}
use aomori.Ledger.Transaction.{tx_id_of}

-- `"0".repeat(64)`
abbrev pub genesis_parent : String
genesis_parent = "0000000000000000000000000000000000000000000000000000000000000000"

-- `(None, None)`, or `(Some(first), Some(last)) if first > 0 && first <= last`
abbrev pub is_event_range : Option ℕ → Option ℕ → Bool
is_event_range none none = true
is_event_range (some first) (some last) = ltb 0 first && leb first last
is_event_range _ _ = false

module _ (ext : External) (wire : Wire) where
  -- `for hash in [...] { hash_hex(hash, 32)? }`
  unfoldable pub check_hashes : List String → Result (Unit {0})
  check_hashes [] = ok tt
  check_hashes (h ∷ hs) = hash_hex ext.hex_decode h 32 >>= λ _. check_hashes hs

  unfoldable pub header_hash : BlockHeader → Result String
  header_hash header = do
    require
        ((header.protocol_version == 1)
          && ((header.runtime_rules_version == 1) && not (header.chain_id ≟ "")))
        invalid_block_protocol
    refuse_if
        (((header.height == 0) && not (header.tx_count == 0))
          || (ltb 0 header.height && not (header.tx_count == 1)))
        invalid_transaction_count
    check_hashes (
        header.genesis_hash ∷ header.parent_hash ∷ header.transactions_digest
        ∷ header.results_digest ∷ header.post_state_digest ∷ [])
    require (not (header.height == 0) || (header.parent_hash ≟ genesis_parent))
        invalid_genesis_parent
    hash_of wire Domain.block (wire.header_value header)

  -- The body of the loop: the id of a transaction that its result agrees with.
  unfoldable pub check_result : BlockHeader → LedgerTransaction → ExecutionResult → Result String
  check_result header tx result = do
    require ((tx.chain_id ≟ header.chain_id) && (tx.genesis_hash ≟ header.genesis_hash))
        block_chain_mismatch
    id ← tx_id_of ext wire tx
    require
        (result.succeeded
          && ((result.tx_id ≟ id) && ((result.from ≟ tx.from) && (result.nonce == tx.nonce))))
        result_mismatch
    events ← hash_hex ext.hex_decode result.events_digest 32
    require (is_event_range result.first_event_id result.last_event_id) invalid_event_range
    ok id

  -- The loop over `self.transactions.iter().zip(&self.execution_results)`
  unfoldable pub check_results :
      BlockHeader → List LedgerTransaction → List ExecutionResult → Result (List String)
  check_results header (tx ∷ txs) (result ∷ results) = do
    id ← check_result header tx result
    ids ← check_results header txs results
    ok (id ∷ ids)
  check_results header [] results = ok []
  check_results header (tx ∷ txs) [] = ok []

  unfoldable pub validate_commitments : LedgerBlock → Result String
  validate_commitments b = do
    hash ← header_hash b.header
    require
        ((length b.transactions == b.header.tx_count)
          && (length b.execution_results == length b.transactions))
        block_count_mismatch
    ids ← check_results b.header b.transactions b.execution_results
    transactions ← hash_of wire Domain.transactions (wire.texts_value ids)
    require (transactions ≟ b.header.transactions_digest) transactions_digest_mismatch
    results ← hash_of wire Domain.results (wire.results_value b.execution_results)
    require (results ≟ b.header.results_digest) results_digest_mismatch
    ok hash
