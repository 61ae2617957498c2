-- ===== src/Runtime/Host/Items.antt =====
-- src/runtime.rs: the host functions `take_item`, `drop_item` and `transfer_item`
use aomori.Prelude.{
  Bool, false, ◌&&◌, ◌||◌, none, some, List, [], ◌∷◌, ◌++◌, ◌==◌, nat_key, if◌then◌else◌,
}
use aomori.Map.{BTreeMap, get, insert}
use aomori.Result.{
  Result, ok, err, ◌>>=◌, ◌>>◌, require, refuse_if, ok_or, item_not_found, item_is_not_here,
  item_already_in_an_inventory, actor_has_no_location, item_is_not_in_inventory,
  cannot_transfer_to_self, target_actor_not_found, transfer_target_not_an_actor,
  target_actor_is_not_here, inventory_item_location_inconsistent,
}
use aomori.Model.{WorldState, Entity, EntityId, is_item, is_actor}
use aomori.Model.Inventories.{contains, located_at}
use aomori.Runtime.{Outcome, commit}
use aomori.Runtime.Host.{Context, Reply, amount, require_command, caller, same_location}

-- `state.inventories.values().any(|items| items.contains(&item_id))`
abbrev pub held_by_any : EntityId → BTreeMap EntityId (List EntityId) → Bool
held_by_any id [] = false
held_by_any id ((owner, ids) ∷ m) = contains ids id || held_by_any id m

-- `inventory.remove(position)` at the first position of an id
abbrev pub remove_first : EntityId → List EntityId → List EntityId
remove_first id [] = []
remove_first id (x ∷ xs) = if x == id then xs else x ∷ remove_first id xs

-- `entities.get_mut(&id).location = Some(location)`, for an entity that is there
abbrev pub place :
    EntityId → Entity → EntityId → BTreeMap EntityId Entity → BTreeMap EntityId Entity
place id e location entities = insert id (record e { location = some location }) entities

-- `inventories.entry(owner).or_default().push(id)`
abbrev pub push_item :
    EntityId → EntityId → BTreeMap EntityId (List EntityId) → BTreeMap EntityId (List EntityId)
push_item owner id m =
    insert owner (elim (get owner m) [ none ↦ id ∷ [] | some ids ↦ ids ++ id ∷ [] ]) m

unfoldable pub take_item : Context → WorldState → EntityId → Outcome Reply
take_item ctx s item_id = commit s (do
  require_command ctx
  actor ← caller ctx s
  item ← ok_or (get item_id s.entities) item_not_found
  require (is_item item.kind && same_location item.location actor.location) item_is_not_here
  refuse_if (held_by_any item_id s.inventories) item_already_in_an_inventory
  ok (
    amount item_id,
    record s {
      entities = place item_id item ctx.entity_id s.entities;
      inventories = push_item ctx.entity_id item_id s.inventories;
    },
  ))

-- The checks of `drop_item` before its first write: the location of the actor and its inventory.
unfoldable pub drop_checks : Context → WorldState → EntityId → Result (EntityId × List EntityId)
drop_checks ctx s item_id = do
  require_command ctx
  actor ← caller ctx s
  location ← ok_or actor.location actor_has_no_location
  inventory ← ok_or (get ctx.entity_id s.inventories) item_is_not_in_inventory
  require (contains inventory item_id) item_is_not_in_inventory
  ok (location, inventory)

abbrev without_item : Context → WorldState → EntityId → List EntityId → WorldState
without_item ctx s item_id inventory = record s {
  inventories = insert ctx.entity_id (remove_first item_id inventory) s.inventories;
}

-- The item leaves the inventory before the entity is looked up.
unfoldable pub drop_item : Context → WorldState → EntityId → Outcome Reply
unfolding drop_checks
drop_item ctx s item_id = elim (drop_checks ctx s item_id) [
  | err e ↦ (err e, s)
  | ok (location, inventory) ↦ commit (without_item ctx s item_id inventory) (do
    item ← ok_or (get item_id s.entities) item_not_found
    ok (
      amount item_id,
      record (without_item ctx s item_id inventory) {
        entities = place item_id item location s.entities;
      },
    ))
]

unfoldable pub transfer_item : Context → WorldState → EntityId → EntityId → Outcome Reply
transfer_item ctx s item_id target_id = commit s (do
  require_command ctx
  refuse_if (target_id == ctx.entity_id) cannot_transfer_to_self
  actor ← caller ctx s
  target ← ok_or (get target_id s.entities) target_actor_not_found
  require (is_actor target.kind) transfer_target_not_an_actor
  require (same_location target.location actor.location) target_actor_is_not_here
  source_inventory ← ok_or (get ctx.entity_id s.inventories) item_is_not_in_inventory
  require (contains source_inventory item_id) item_is_not_in_inventory
  item ← ok_or (get item_id s.entities) item_not_found
  require (is_item item.kind && located_at ctx.entity_id item.location)
      inventory_item_location_inconsistent
  let removed = insert ctx.entity_id (remove_first item_id source_inventory) s.inventories
  ok (
    amount item_id,
    record s {
      inventories = push_item target_id item_id removed;
      entities = place item_id item target_id s.entities;
    },
  ))
