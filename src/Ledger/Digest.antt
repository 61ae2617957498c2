-- ===== src/Ledger/Digest.antt =====
-- src/ledger.rs: `canonical_json`, `Domain` and `digest`; what the ledger takes from serde,
-- blake3, hex and ed25519 is a parameter.
use aomori.Prelude.{ℕ, String, Bool, Option, List, ◌∷◌, ◌++◌, leb, length}
use aomori.Json.{Value}
use aomori.Result.{Result, ok, ◌>>=◌, ◌>>◌, require, ok_or, json_size_exceeded, serialization}
use aomori.Model.{WorldState, WorldEvent}
use aomori.Ledger.Canonical.{normalize, max_bytes}
use aomori.Ledger.Data.{
  LedgerTransaction, GenesisManifest, BlockHeader, ExecutionResult, LedgerBlock, ExecutionLimits,
}

pub record Wire : Type 0 where
  -- serde_json::to_vec
  pub print : Value → Option (List ℕ)
  -- serde_json::to_value
  pub transaction_value : LedgerTransaction → Option Value
  pub genesis_value : GenesisManifest → Option Value
  pub header_value : BlockHeader → Option Value
  pub block_value : LedgerBlock → Option Value
  pub texts_value : List String → Option Value
  pub results_value : List ExecutionResult → Option Value
  pub events_value : List WorldEvent → Option Value
  pub world_value : WorldState → Option Value
  -- serde_json::from_value
  pub world_of : Value → Option WorldState
  pub limits_of : Value → Option ExecutionLimits
  -- blake3::hash of the bytes in order, hex::encode, and the bytes of a text of ASCII
  pub blake3 : List ℕ → List ℕ
  pub hex_encode : List ℕ → String
  pub bytes_of : String → List ℕ
  -- ed25519_dalek: VerifyingKey::verify_strict of the key, the digest and the signature
  pub verify_strict : List ℕ → List ℕ → List ℕ → Bool

pub data Domain : Type 0 where
  sign transaction genesis block transactions results events state : Domain

abbrev pub label : Domain → String
label Domain.sign = "aomori/ledger/sign/v1"
label Domain.transaction = "aomori/ledger/tx/v1"
label Domain.genesis = "aomori/ledger/genesis/v1"
label Domain.block = "aomori/ledger/block/v1"
label Domain.transactions = "aomori/ledger/transactions/v1"
label Domain.results = "aomori/ledger/results/v1"
label Domain.events = "aomori/ledger/events/v1"
label Domain.state = "aomori/ledger/state/v1"

module _ (wire : Wire) where
  unfoldable pub canonical_json : Value → Result (List ℕ)
  canonical_json value = do
    normal ← normalize value 0
    bytes ← ok_or (wire.print normal) serialization
    require (leb (length bytes) max_bytes) json_size_exceeded
    ok bytes

  unfoldable pub digest : Domain → Value → Result (List ℕ)
  digest domain value = do
    bytes ← canonical_json value
    ok (wire.blake3 (wire.bytes_of (label domain) ++ (0 ∷ bytes)))

  -- `hash` of src/ledger_runtime.rs, also `hex::encode(digest(...)?)`
  unfoldable pub hash : Domain → Value → Result String
  hash domain value = digest domain value >>= λ bytes. ok (wire.hex_encode bytes)

  -- `hash(domain, &encoded(x)?)`
  abbrev pub hash_of : Domain → Option Value → Result String
  hash_of domain encoded = ok_or encoded serialization >>= hash domain
