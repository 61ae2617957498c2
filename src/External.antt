-- ===== src/External.antt =====
-- The third-party code that the program calls: parameters, since their sources are not part of it.
use aomori.Prelude.{ℕ, String, Bool, Option, List}
use aomori.Model.{WorldState, Transaction}

pub record External : Type 0 where
  -- hex::decode
  pub hex_decode : String → Option (List ℕ)
  -- blake3::hash(source.as_bytes()).to_hex(), of a text and of bytes
  pub hash_text : String → String
  pub hash_bytes : List ℕ → String
  -- serde_json::to_vec; a world always serializes (the source expects it), a transaction may fail
  pub world_bytes : WorldState → List ℕ
  pub transaction_bytes : Transaction → Option (List ℕ)
  -- ed25519_dalek: VerifyingKey::from_bytes, Signature::from_slice, and Verifier::verify of the
  -- key, the payload and the signature, each by its success
  pub is_key : List ℕ → Bool
  pub is_signature : List ℕ → Bool
  pub verify : List ℕ → List ℕ → List ℕ → Bool
