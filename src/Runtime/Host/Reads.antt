-- ===== src/Runtime/Host/Reads.antt =====
-- The host functions that only read: `get_entity`, `get_exit`, `get_inventory`, `quest_status` and
-- `get_balance`.
use aomori.Prelude.{ℕ, String, Option, none, some, List, [], ◌∷◌, and_then, nat_key, text_key}
use aomori.Map.{BTreeMap, get}
use aomori.Json.{
  Value, null, number, integer, pos, text, array, object, Items, nil, cons, Fields, end, field,
  get_field, as_u64,
}
use aomori.Lua.{json_to_lua}
use aomori.Result.{Result, ok, ◌>>=◌}
use aomori.Model.{WorldState, Entity, EntityId, EntityKind, actor, zone, item, accepted, completed}
use aomori.Text.{quest_progress_key}
use aomori.Runtime.Host.{Context, Reply, lua_reply, amount, maybe_id, word, caller, inventory_of}

abbrev pub json_id : EntityId → Value
json_id id = number (integer (pos id))

abbrev pub id_items : List EntityId → Items
id_items [] = nil
id_items (id ∷ ids) = cons (json_id id) (id_items ids)

abbrev pub members : BTreeMap String Value → Fields
members [] = end
members ((k, v) ∷ m) = field k v (members m)

abbrev pub kind_name : EntityKind → String
kind_name actor = "actor"
kind_name zone = "zone"
kind_name item = "item"

abbrev maybe_null {ℓ} : {A : Type ℓ} → (A → Value) → Option A → Value
maybe_null f none = null
maybe_null f (some a) = f a

-- `serde_json::to_value(entity)`: the members in the order of their names
unfoldable pub entity_to_value : Entity → Value
entity_to_value e = object (
    field "contract" (maybe_null text e.contract) (
      field "data" (object (members e.attributes)) (
        field "id" (json_id e.id) (
          field "kind" (text (kind_name e.kind)) (
            field "location" (maybe_null json_id e.location) (field "owner" (text e.owner) end))))))

unfoldable pub get_entity : (ℕ → ℕ) → WorldState → EntityId → Reply
unfolding entity_to_value
get_entity f64_of s id = elim (get id s.entities) [
  | none ↦ lua_reply (json_to_lua f64_of null)
  | some e ↦ lua_reply (json_to_lua f64_of (entity_to_value e))
]

unfoldable pub get_exit : WorldState → EntityId → String → Reply
get_exit s zone_id direction = maybe_id (
    and_then (get zone_id s.entities)
      λ e. and_then (get "exits" e.attributes) λ v. and_then (get_field direction v) as_u64)

unfoldable pub get_inventory : (ℕ → ℕ) → WorldState → EntityId → Reply
get_inventory f64_of s id = lua_reply (json_to_lua f64_of (array (id_items (inventory_of id s))))

unfoldable pub quest_status : Context → WorldState → String → Reply
quest_status ctx s quest_id =
    elim (get (quest_progress_key ctx.entity_id quest_id) s.quest_progress) [
      | none ↦ word "available"
      | some progress ↦ elim progress.status [
        | accepted ↦ word "accepted"
        | completed ↦ word "completed"
      ]
    ]

-- The argument is ignored: the balance is that of the caller's owner.
unfoldable pub get_balance : Context → WorldState → EntityId → Result Reply
get_balance ctx s entity_id = caller ctx s >>= λ e.
    ok (amount (elim (get e.owner s.accounts) [ none ↦ 0 | some a ↦ a.balance ]))
