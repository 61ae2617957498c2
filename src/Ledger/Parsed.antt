-- ===== src/Ledger/Parsed.antt =====
-- src/ledger.rs: what `parse_json` lets through.
use aomori.Prelude.{
  ℕ, ◌≤◌, ◌≡◌, refl, sym, ap, ◌∙◌, String, Bool, true, false, ◌||◌, Option, none, some, List,
  length, leb, arith, text_key, ◌≟◌, ≟_iff, is_some, Bool-cases, inl, inr, if◌then◌else◌,
}
use aomori.Json.{Value, Fields, Items, end, field, find_field}
use aomori.Lua.{insert_field}
use aomori.Result.{
  ok, >>-eq-ok, >>=-eq-ok, require, refuse_if, ok_or, duplicate_key, json_size_exceeded,
  malformed_json,
}
use aomori.Ledger.Canonical.{max_bytes, max_depth, normalize}
use aomori.Ledger.Protocol.{height, all_safe, normalize_iff}
use aomori.Ledger.Digest.{Wire, canonical_json}
use aomori.Ledger.Strict.{
  Syntax, Elements, Members, visit_unit, visit_bool, visit_i64, visit_u64, visit_f64, visit_str,
  visit_seq, visit_map, no_elements, element, no_members, member, strict, strict_elements,
  strict_members, parse_json,
}

find_field-insert_field :
    (k j : String) (v : Value) (fs : Fields)
    → find_field j (insert_field k v fs) ≡ (if k ≟ j then some v else find_field j fs)
unfolding insert_field
find_field-insert_field k j v end = refl
find_field-insert_field k j v (field i w fs) =
    ground (arith, find_field-insert_field k j v fs, text_key.eq_of_cmp k i, ≟_iff k j, ≟_iff i j)

abbrev has_key : String → Members → Bool
has_key k no_members = false
has_key k (member key m ms) = (key ≟ k) || has_key k ms

-- No object of a document has two members of one name.
unfoldable mutual
  pub HasUniqueKeys : Syntax → Type 0
  HasUniqueKeys (visit_seq es) = UniqueElements es
  HasUniqueKeys (visit_map ms) = UniqueMembers ms
  HasUniqueKeys visit_unit = Unit
  HasUniqueKeys (visit_bool v) = Unit
  HasUniqueKeys (visit_i64 v) = Unit
  HasUniqueKeys (visit_u64 v) = Unit
  HasUniqueKeys (visit_f64 v) = Unit
  HasUniqueKeys (visit_str v) = Unit

  pub UniqueElements : Elements → Type 0
  UniqueElements no_elements = Unit
  UniqueElements (element e es) = HasUniqueKeys e × UniqueElements es

  pub UniqueMembers : Members → Type 0
  UniqueMembers no_members = Unit
  UniqueMembers (member key m ms) = (has_key key ms ≡ false) × HasUniqueKeys m × UniqueMembers ms

key_is_new :
    (key : String) (v : Value) (map : Fields) (ms : Members)
    → (has_key key ms ≡ true → find_field key (insert_field key v map) ≡ none)
    → has_key key ms ≡ false
key_is_new key v map ms h = elim (Bool-cases (has_key key ms)) [
  | inl twice ↦ ground (arith, h twice, find_field-insert_field key key v map, ≟_iff key key)
  | inr once ↦ once
]

key_is_free :
    (key k : String) (v : Value) (map : Fields)
    → find_field key map ≡ none
    → find_field k (insert_field key v map) ≡ none
    → find_field k map ≡ none
key_is_free key k v map fresh h =
    ground (arith, fresh, h, find_field-insert_field key k v map, ≟_iff key k)

was_missing : (o : Option Value) → refuse_if (is_some o) duplicate_key ≡ ok tt → o ≡ none
was_missing none h = refl
was_missing (some v) h = cc

mutual
  unfolding strict HasUniqueKeys

  strict-HasUniqueKeys : (s : Syntax) (v : Value) → strict s ≡ ok v → HasUniqueKeys s
  strict-HasUniqueKeys visit_unit v h = tt
  strict-HasUniqueKeys (visit_bool b) v h = tt
  strict-HasUniqueKeys (visit_i64 i) v h = tt
  strict-HasUniqueKeys (visit_u64 n) v h = tt
  strict-HasUniqueKeys (visit_f64 n) v h = tt
  strict-HasUniqueKeys (visit_str t) v h = tt
  strict-HasUniqueKeys (visit_seq es) v h =
      let (vs, is_vs, _) = >>=-eq-ok (strict_elements es) _ h in
      strict_elements-UniqueElements es vs is_vs
  strict-HasUniqueKeys (visit_map ms) v h =
      let (fs, is_fs, _) = >>=-eq-ok (strict_members ms end) _ h in
      (strict_members-UniqueMembers ms end fs is_fs).0

  strict_elements-UniqueElements :
      (es : Elements) (vs : Items) → strict_elements es ≡ ok vs → UniqueElements es
  strict_elements-UniqueElements no_elements vs h = tt
  strict_elements-UniqueElements (element e es) vs h =
      let (v, is_v, h1) = >>=-eq-ok (strict e) _ h in
      let (ws, is_ws, _) = >>=-eq-ok (strict_elements es) _ h1 in
      (strict-HasUniqueKeys e v is_v, strict_elements-UniqueElements es ws is_ws)

  strict_members-UniqueMembers :
      (ms : Members) (map fs : Fields)
      → strict_members ms map ≡ ok fs
      → UniqueMembers ms × ((k : String) → has_key k ms ≡ true → find_field k map ≡ none)
  strict_members-UniqueMembers no_members map fs h = (tt, λ k found. cc)
  strict_members-UniqueMembers (member key m ms) map fs h =
      let (fresh, h1) = >>-eq-ok (refuse_if (is_some (find_field key map)) duplicate_key) _ h in
      let (v, is_v, h2) = >>=-eq-ok (strict m) _ h1 in
      let (unique, missing) = strict_members-UniqueMembers ms (insert_field key v map) fs h2 in
      let free : find_field key map ≡ none = was_missing (find_field key map) fresh in
      (
        (key_is_new key v map ms (missing key), strict-HasUniqueKeys m v is_v, unique),
        λ k found. elim (Bool-cases (key ≟ k)) [
          | inl same ↦ ground (arith, same, free, ≟_iff key k)
          | inr other ↦ key_is_free key k v map free (missing k (ground (arith, other, found)))
        ],
      )

canonical_json_sound :
    (wire : Wire) (v : Value) (bytes : List ℕ)
    → canonical_json wire v ≡ ok bytes
    → (height v ≤ max_depth) × (all_safe v ≡ true) × (length bytes ≤ max_bytes)
unfolding canonical_json
canonical_json_sound wire v bytes h =
    let (w, is_w, h1) = >>=-eq-ok (normalize v 0) _ h in
    let (_, low, safe) = (normalize_iff v w).0 is_w in (low, safe, ground arith)

-- A value that `parse_json` returns comes from a document of at most 1048576 bytes that the parser
-- accepts and in which no object has two members of one name; the value is nested at most 32 deep,
-- its numbers are all integers between -(2^53 - 1) and 2^53 - 1, and its canonical JSON has at most
-- 1048576 bytes.
pub parse_json_sound :
    (wire : Wire) (syntax_of : List ℕ → Option Syntax) (bytes : List ℕ) (v : Value)
    → parse_json wire syntax_of bytes ≡ ok v
    → (length bytes ≤ max_bytes)
      × ((s : Syntax) × (syntax_of bytes ≡ some s) × HasUniqueKeys s)
      × ((height v ≤ max_depth) × (all_safe v ≡ true))
      × ((json : List ℕ) × (canonical_json wire v ≡ ok json) × (length json ≤ max_bytes))
unfolding parse_json
parse_json_sound wire syntax_of bytes v h =
    let (short, h1) = >>-eq-ok (require (leb (length bytes) max_bytes) json_size_exceeded) _ h in
    let (s, is_s, h2) = >>=-eq-ok (ok_or (syntax_of bytes) malformed_json) _ h1 in
    let (w, is_w, h3) = >>=-eq-ok (strict s) _ h2 in
    let (json, is_json, h4) = >>=-eq-ok (canonical_json wire w) _ h3 in
    let same : w ≡ v = ground arith in
    let shown : canonical_json wire v ≡ ok json = ap (canonical_json wire) (sym same) ∙ is_json in
    let (low, safe, fits) = canonical_json_sound wire v json shown in
    (
      ground arith,
      (s, read_eq (syntax_of bytes) s is_s, strict-HasUniqueKeys s w is_w),
      (low, safe),
      (json, shown, fits),
    )
  where
    read_eq : (o : Option Syntax) (s : Syntax) → ok_or o malformed_json ≡ ok s → o ≡ some s
    read_eq none s h = cc
    read_eq (some t) s h = ground arith
