-- ===== src/Lua.antt =====
-- The values of Lua as the host sees them, and `json_to_lua` and `lua_to_json` of src/runtime.rs.
-- A string that is not UTF-8 is `none`; a table is what `pairs` yields, in that order. Functions,
-- userdata and the like are `other`.
use Prim.Native.Nat.{Ordering}
use Prim.Native.String.{compare as compare_text}
use Prim.Native.String.{◌++◌}
use aomori.Prelude.{
  ℕ, zero, suc, ◌+◌, ◌/◌, ◌%◌, ◌^◌, String, Bool, false, not, ◌&&◌, Option, none, some, ltb, ◌==◌,
  if◌then◌else◌,
}
use aomori.Json.{
  ℤ, pos, negsuc, Number, integer, float, Value, null, bool, number, text, array, object, Items,
  nil, cons, Fields, end, field,
}
use aomori.Result.{Result, ok, err, ◌>>=◌, lua_string, lua_table_key}
use aomori.Text.{decimal}

mutual
  pub data LuaValue : Type 0 where
    nil_value : LuaValue
    boolean : Bool → LuaValue
    lua_integer : ℤ → LuaValue
    lua_number : ℕ → LuaValue
    lua_text : Option String → LuaValue
    table : LuaPairs → LuaValue
    other : LuaValue

  pub data LuaPairs : Type 0 where
    no_pairs : LuaPairs
    pair : LuaValue → LuaValue → LuaPairs → LuaPairs

-- A double is finite when its exponent is not all ones: `Number::from_f64`.
abbrev pub from_f64 : ℕ → Value
from_f64 bits = if (bits / 2 ^ 52) % 2048 == 2047 then null else number (float bits)

abbrev i64_min_magnitude : ℕ
i64_min_magnitude = 9223372036854775808

-- `t.set(key, value)` on a fresh key: a nil value leaves the table as it is.
abbrev set_pair : LuaValue → LuaValue → LuaPairs → LuaPairs
set_pair key nil_value rest = rest
set_pair key value rest = pair key value rest

-- A number that is no `i64` becomes a double, by `as_f64`.
abbrev number_to_lua : (ℕ → ℕ) → Number → LuaValue
number_to_lua f64_of (integer (pos n)) =
    if ltb n i64_min_magnitude then lua_integer (pos n) else lua_number (f64_of n)
number_to_lua f64_of (integer (negsuc n)) = lua_integer (negsuc n)
number_to_lua f64_of (float bits) = lua_number bits

module _ (f64_of : ℕ → ℕ) where
  unfoldable mutual
    pub json_to_lua : Value → LuaValue
    json_to_lua null = nil_value
    json_to_lua (bool b) = boolean b
    json_to_lua (number n) = number_to_lua f64_of n
    json_to_lua (text s) = lua_text (some s)
    json_to_lua (array vs) = table (items_to_lua vs 1)
    json_to_lua (object fs) = table (fields_to_lua fs)

    pub items_to_lua : Items → ℕ → LuaPairs
    items_to_lua nil i = no_pairs
    items_to_lua (cons v vs) i =
        set_pair (lua_integer (pos i)) (json_to_lua v) (items_to_lua vs (i + 1))

    pub fields_to_lua : Fields → LuaPairs
    fields_to_lua end = no_pairs
    fields_to_lua (field k v fs) = set_pair (lua_text (some k)) (json_to_lua v) (fields_to_lua fs)

abbrev pub count_pairs : LuaPairs → ℕ
count_pairs no_pairs = 0
count_pairs (pair k v ps) = suc (count_pairs ps)

abbrev positive_key : LuaValue → Option ℕ
positive_key (lua_integer (pos (suc n))) = some (suc n)
positive_key _ = none

abbrev largest : Option ℕ → Option ℕ → Option ℕ
largest (some a) (some b) = some (if ltb a b then b else a)
largest _ _ = none

-- The largest key, if all keys are positive integers; 0 for no key.
abbrev largest_key : LuaPairs → Option ℕ
largest_key no_pairs = some 0
largest_key (pair k v ps) = largest (positive_key k) (largest_key ps)

abbrev pub is_array : LuaPairs → Bool
is_array ps =
    not (count_pairs ps == 0)
    && elim (largest_key ps) [ none ↦ false | some n ↦ n == count_pairs ps ]

abbrev nulls : ℕ → Items
nulls zero = nil
nulls (suc n) = cons null (nulls n)

-- `values[i] = v`
abbrev set_item : ℕ → Value → Items → Items
set_item i v nil = nil
set_item zero v (cons w ws) = cons v ws
set_item (suc i) v (cons w ws) = cons w (set_item i v ws)

-- `map.insert(key, v)` on the members of an object
unfoldable pub insert_field : String → Value → Fields → Fields
insert_field k v end = field k v end
insert_field k v (field j w fs) =
    let rest = insert_field k v fs in
    elim (compare_text k j) [
      | Ordering.lt ↦ field k v (field j w fs)
      | Ordering.eq ↦ field k v fs
      | Ordering.gt ↦ field j w rest
    ]

abbrev set_at_key : LuaValue → Value → Items → Items
set_at_key (lua_integer (pos (suc i))) v vs = set_item i v vs
set_at_key _ v vs = vs

-- The name of a member, for a key that is a string or an integer.
abbrev key_text : LuaValue → Result String
key_text (lua_text (some s)) = ok s
key_text (lua_text none) = err lua_string
key_text (lua_integer (pos n)) = ok (decimal n)
key_text (lua_integer (negsuc n)) = ok ("-" ++ decimal (n + 1))
key_text _ = err lua_table_key

unfoldable mutual
  pub lua_to_json : LuaValue → Result Value
  lua_to_json nil_value = ok null
  lua_to_json (boolean b) = ok (bool b)
  lua_to_json (lua_integer n) = ok (number (integer n))
  lua_to_json (lua_number bits) = ok (from_f64 bits)
  lua_to_json (lua_text none) = err lua_string
  lua_to_json (lua_text (some s)) = ok (text s)
  lua_to_json (table ps) =
      let values = array_values ps (nulls (count_pairs ps)) in
      let members = object_members ps end in
      if is_array ps then (values >>= λ vs. ok (array vs)) else (members >>= λ fs. ok (object fs))
  lua_to_json other = ok null

  pub array_values : LuaPairs → Items → Result Items
  array_values no_pairs vs = ok vs
  array_values (pair k v ps) vs = lua_to_json v >>= λ w. array_values ps (set_at_key k w vs)

  pub object_members : LuaPairs → Fields → Result Fields
  object_members no_pairs fs = ok fs
  object_members (pair k v ps) fs =
      key_text k >>= λ key. lua_to_json v >>= λ w. object_members ps (insert_field key w fs)
