-- ===== src/Ledger/Canonical.antt =====
-- src/ledger.rs: the constants and `normalize`, inside `canonical_json`.
use aomori.Prelude.{ℕ, suc, ◌+◌, Bool, leb, ltb}
use aomori.Json.{
  ℤ, pos, negsuc, Number, integer, float, Value, Fields, Items, null, bool, number, text, array,
  object, end, field, nil, cons,
}
use aomori.Result.{
  Result, ok, err, ◌>>=◌, ◌>>◌, require, json_depth_exceeded, integer_required, unsafe_integer,
}

abbrev pub protocol_version : ℕ
protocol_version = 1

abbrev pub max_bytes : ℕ
max_bytes = 1048576

abbrev pub max_depth : ℕ
max_depth = 32

abbrev pub max_integer : ℕ
max_integer = 9007199254740991

-- `Number::as_i64`, by the bounds of `i64`
abbrev pub fits_i64 : ℤ → Bool
fits_i64 (pos n) = ltb n 9223372036854775808
fits_i64 (negsuc n) = ltb n 9223372036854775808

-- `(-MAX_INTEGER..=MAX_INTEGER).contains(&integer)`
abbrev pub is_safe : ℤ → Bool
is_safe (pos n) = leb n max_integer
is_safe (negsuc n) = leb (suc n) max_integer

unfoldable pub normalize_number : Number → Result Number
normalize_number (float bits) = err integer_required
normalize_number (integer i) = do
  require (fits_i64 i) integer_required
  require (is_safe i) unsafe_integer
  ok (integer i)

-- The members come in the order of their keys, which the sort and the insertions keep.
unfoldable mutual
  pub normalize : Value → ℕ → Result Value
  normalize (number n) depth =
      require (leb depth max_depth) json_depth_exceeded
      >> (normalize_number n >>= λ m. ok (number m))
  normalize (array vs) depth =
      require (leb depth max_depth) json_depth_exceeded
      >> (normalize_items vs (depth + 1) >>= λ ws. ok (array ws))
  normalize (object fs) depth =
      require (leb depth max_depth) json_depth_exceeded
      >> (normalize_fields fs (depth + 1) >>= λ gs. ok (object gs))
  normalize null depth = require (leb depth max_depth) json_depth_exceeded >> ok null
  normalize (bool b) depth = require (leb depth max_depth) json_depth_exceeded >> ok (bool b)
  normalize (text s) depth = require (leb depth max_depth) json_depth_exceeded >> ok (text s)

  pub normalize_items : Items → ℕ → Result Items
  normalize_items nil depth = ok nil
  normalize_items (cons v vs) depth = do
    w ← normalize v depth
    ws ← normalize_items vs depth
    ok (cons w ws)

  pub normalize_fields : Fields → ℕ → Result Fields
  normalize_fields end depth = ok end
  normalize_fields (field k v fs) depth = do
    w ← normalize v depth
    gs ← normalize_fields fs depth
    ok (field k w gs)
