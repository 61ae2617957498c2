-- ===== src/Rpc/Requests.antt =====
-- src/rpc.rs: the parameters of a request, the deserializers that serde derives, and the methods that
-- are known and those for the administrator.
use aomori.Prelude.{ℕ, String, Bool, Option, none, some, List, [], ◌∷◌, and_then}
use aomori.Map.{BTreeMap}
use aomori.Json.{Value, object, get_field, as_str, as_u64}
use aomori.Result.{Result, ok, err, invalid_parameter}
use aomori.Model.{Transaction, EntityKind}
use aomori.Model.Events.{mem_text}
use aomori.Runtime.Host.Entities.{collect}

-- The derived `Deserialize` of a transaction and of an entity kind, none for an error.
pub record Derived : Type 0 where
  pub transaction : Value → Option Transaction
  pub entity_kind : Value → Option EntityKind

pub record Request : Type 0 where
  pub jsonrpc : Option String
  pub id : Option Value
  pub method : Option String
  pub params : Option Value

-- `p.get(name).and_then(Value::as_str)`
abbrev pub text_param : String → Value → Option String
text_param name p = and_then (get_field name p) as_str

-- `p.get(name).and_then(Value::as_u64)`
abbrev pub number_param : String → Value → Option ℕ
number_param name p = and_then (get_field name p) as_u64

-- `.unwrap_or(default)`
abbrev pub unwrap_or {ℓ} : {A : Type ℓ} → A → Option A → A
unwrap_or default none = default
unwrap_or default (some a) = a

-- `serde_json::from_value` to a `BTreeMap<String, Value>`
abbrev pub object_param : Value → Result (BTreeMap String Value)
object_param (object fs) = ok (collect fs [])
object_param _ = err invalid_parameter

abbrev pub known_methods : List String
known_methods =
    "aomori_get_account" ∷ "aomori_create_account" ∷ "aomori_get_receipt"
    ∷ "aomori_submit_transaction" ∷ "aomori_list_entities" ∷ "aomori_get_quests"
    ∷ "aomori_get_events" ∷ "aomori_get_info" ∷ "aomori_get_entity" ∷ "aomori_deploy"
    ∷ "aomori_create_entity" ∷ "aomori_query" ∷ "aomori_command" ∷ []

abbrev pub is_known_method : String → Bool
is_known_method method = mem_text method known_methods

abbrev pub is_admin_method : String → Bool
is_admin_method method =
    mem_text method ("aomori_create_account" ∷ "aomori_deploy" ∷ "aomori_create_entity" ∷ [])
