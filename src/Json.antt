-- ===== src/Json.antt =====
-- `serde_json::Value`, as far as the program takes it apart, and its accessors. An object is the
-- list of its members in the order of the keys, a float its IEEE 754 bit pattern.
use aomori.Prelude.{
  ℕ, String, Bool, Option, none, some, List, [], ◌∷◌, text_key, ◌≟◌, ltb, if◌then◌else◌, u64_mod,
}

-- `negsuc n` is -(n + 1).
pub data ℤ : Type 0 where
  pos : ℕ → ℤ
  negsuc : ℕ → ℤ

pub data Number : Type 0 where
  integer : ℤ → Number
  float : ℕ → Number

mutual
  pub data Value : Type 0 where
    null : Value
    bool : Bool → Value
    number : Number → Value
    text : String → Value
    array : Items → Value
    object : Fields → Value

  pub data Fields : Type 0 where
    end : Fields
    field : String → Value → Fields → Fields

  pub data Items : Type 0 where
    nil : Items
    cons : Value → Items → Items

abbrev pub items : Items → List Value
items nil = []
items (cons v vs) = v ∷ items vs

abbrev pub find_field : String → Fields → Option Value
find_field k end = none
find_field k (field j v fs) = if j ≟ k then some v else find_field k fs

-- `value.get(key)`
abbrev pub get_field : String → Value → Option Value
get_field k (object fs) = find_field k fs
get_field k _ = none

-- `Value::as_str`
abbrev pub as_str : Value → Option String
as_str (text s) = some s
as_str _ = none

-- `Value::as_array`
abbrev pub as_array : Value → Option (List Value)
as_array (array vs) = some (items vs)
as_array _ = none

abbrev number_u64 : Number → Option ℕ
number_u64 (integer (pos n)) = if ltb n u64_mod then some n else none
number_u64 _ = none

-- `Value::as_u64`
abbrev pub as_u64 : Value → Option ℕ
as_u64 (number n) = number_u64 n
as_u64 _ = none
