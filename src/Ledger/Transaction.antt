-- ===== src/Ledger/Transaction.antt =====
-- src/ledger.rs: `LedgerTransaction` and `GenesisManifest` with their digests.
use aomori.Prelude.{ℕ, String, not, ◌&&◌, List, text_key, ◌≟◌, ◌==◌, length, if◌then◌else◌}
use aomori.Json.{Value, Fields, object, end, field}
use aomori.Result.{
  Result, ok, err, ◌>>=◌, ◌>>◌, require, ok_or, panicked, serialization, unsupported_version,
  empty_transaction_field, chain_mismatch, invalid_signature, invalid_public_key,
  invalid_transaction_signature, unsupported_genesis_version, empty_chain_id,
}
use aomori.External.{External}
use aomori.Ledger.Canonical.{protocol_version}
use aomori.Ledger.Data.{LedgerTransaction, GenesisManifest}
use aomori.Ledger.Hex.{hash_hex}
use aomori.Ledger.Digest.{Wire, Domain, digest, hash_of}

-- `Map::remove(key)`
abbrev remove_field : String → Fields → Fields
remove_field key end = end
remove_field key (field k v fs) = if k ≟ key then fs else field k v (remove_field key fs)

-- `value.as_object_mut().unwrap().remove("signature")`
abbrev pub without_signature : Value → Result Value
without_signature (object fs) = ok (object (remove_field "signature" fs))
without_signature _ = err panicked

module _ (ext : External) (wire : Wire) where
  unfoldable pub signing_digest : LedgerTransaction → Result (List ℕ)
  signing_digest tx = do
    require (tx.protocol_version == protocol_version) unsupported_version
    require (not (tx.chain_id ≟ "") && (not (tx.from ≟ "") && not (tx.action ≟ "")))
        empty_transaction_field
    genesis ← hash_hex ext.hex_decode tx.genesis_hash 32
    value ← ok_or (wire.transaction_value tx) serialization
    unsigned ← without_signature value
    digest wire Domain.sign unsigned

  unfoldable pub verify_transaction :
      LedgerTransaction → String → String → String → Result (Unit {0})
  verify_transaction tx public_key chain_id genesis_hash = do
    require ((tx.chain_id ≟ chain_id) && (tx.genesis_hash ≟ genesis_hash)) chain_mismatch
    key ← hash_hex ext.hex_decode public_key 32
    require (length key == 32) panicked
    signature ← hash_hex ext.hex_decode tx.signature 64
    require (ext.is_signature signature) invalid_signature
    require (ext.is_key key) invalid_public_key
    message ← signing_digest tx
    require (wire.verify_strict key message signature) invalid_transaction_signature

  unfoldable pub tx_id_of : LedgerTransaction → Result String
  tx_id_of tx = do
    message ← signing_digest tx
    signature ← hash_hex ext.hex_decode tx.signature 64
    hash_of wire Domain.transaction (wire.transaction_value tx)

unfoldable pub genesis_hash_of : Wire → GenesisManifest → Result String
genesis_hash_of wire genesis = do
  require
      ((genesis.protocol_version == 1)
        && ((genesis.encoding_version == 1) && (genesis.runtime_rules_version == 1)))
      unsupported_genesis_version
  require (not (genesis.chain_id ≟ "")) empty_chain_id
  hash_of wire Domain.genesis (wire.genesis_value genesis)
