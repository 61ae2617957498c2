-- ===== src/Ledger/Strict.antt =====
-- src/ledger.rs: `parse_json` and its visitor. What serde_json calls the visitor with, document by
-- document, is a parameter.
use aomori.Prelude.{ℕ, String, Bool, Option, List, leb, length, is_some}
use aomori.Json.{
  ℤ, pos, integer, Value, Fields, Items, null, bool, number, text, array, object, end, nil, cons,
  find_field,
}
use aomori.Lua.{insert_field}
use aomori.Result.{
  Result, ok, err, ◌>>=◌, ◌>>◌, require, refuse_if, ok_or, malformed_json, float_forbidden,
  duplicate_key, json_size_exceeded,
}
use aomori.Ledger.Canonical.{max_bytes}
use aomori.Ledger.Digest.{Wire, canonical_json}

-- A document as the visitor meets it: the members of an object as they are written.
mutual
  pub data Syntax : Type 0 where
    visit_unit : Syntax
    visit_bool : Bool → Syntax
    visit_i64 : ℤ → Syntax
    visit_u64 : ℕ → Syntax
    visit_f64 : ℕ → Syntax
    visit_str : String → Syntax
    visit_seq : Elements → Syntax
    visit_map : Members → Syntax

  pub data Elements : Type 0 where
    no_elements : Elements
    element : Syntax → Elements → Elements

  pub data Members : Type 0 where
    no_members : Members
    member : String → Syntax → Members → Members

unfoldable mutual
  pub strict : Syntax → Result Value
  strict visit_unit = ok null
  strict (visit_bool v) = ok (bool v)
  strict (visit_i64 v) = ok (number (integer v))
  strict (visit_u64 v) = ok (number (integer (pos v)))
  strict (visit_f64 v) = err float_forbidden
  strict (visit_str v) = ok (text v)
  strict (visit_seq es) = strict_elements es >>= λ vs. ok (array vs)
  strict (visit_map ms) = strict_members ms end >>= λ fs. ok (object fs)

  -- `while let Some(Strict(v)) = a.next_element()? { values.push(v); }`
  pub strict_elements : Elements → Result Items
  strict_elements no_elements = ok nil
  strict_elements (element e es) = do v ← strict e; vs ← strict_elements es; ok (cons v vs)

  -- `while let Some(key) = a.next_key::<String>()? { ... }`, with the map so far
  pub strict_members : Members → Fields → Result Fields
  strict_members no_members map = ok map
  strict_members (member key m ms) map = do
    refuse_if (is_some (find_field key map)) duplicate_key
    v ← strict m
    strict_members ms (insert_field key v map)

unfoldable pub parse_json : Wire → (List ℕ → Option Syntax) → List ℕ → Result Value
parse_json wire syntax_of bytes = do
  require (leb (length bytes) max_bytes) json_size_exceeded
  document ← ok_or (syntax_of bytes) malformed_json
  value ← strict document
  _ ← canonical_json wire value
  ok value
