-- ===== src/Model/Inventories.antt =====
-- src/model.rs: `WorldState::validate_inventories`
use aomori.Prelude.{
  Bool, false, not, ◌&&◌, ◌||◌, Option, none, some, List, [], ◌∷◌, ◌==◌, nat_key, is_some,
}
use aomori.Map.{BTreeMap, get, insert}
use aomori.Result.{
  Result, ok, ◌>>=◌, ◌>>◌, require, refuse_if, ok_or, for_each, inventory_owner_missing,
  inventory_owner_not_actor, inventory_duplicate_item, inventory_item_missing,
  inventory_entity_not_item, item_held_by_multiple_actors, item_location_mismatch,
  item_missing_from_inventory,
}
use aomori.Model.{WorldState, Entity, EntityId, is_actor, is_item}

-- `items.contains(&id)`
abbrev pub contains : List EntityId → EntityId → Bool
contains [] id = false
contains (x ∷ xs) id = x == id || contains xs id

-- `entity.location == Some(id)`
abbrev pub located_at : EntityId → Option EntityId → Bool
located_at id none = false
located_at id (some l) = l == id

-- `held_by`: the actor that holds an item, for the items seen so far
abbrev pub Holders : Type 0
Holders = BTreeMap EntityId EntityId

-- The inner loop: the items of one owner, behind those seen before.
unfoldable pub check_items :
    BTreeMap EntityId Entity → EntityId → List EntityId → Holders → List EntityId → Result Holders
check_items entities owner_id seen held_by [] = ok held_by
check_items entities owner_id seen held_by (item_id ∷ item_ids) = do
  refuse_if (contains seen item_id) inventory_duplicate_item
  item ← ok_or (get item_id entities) inventory_item_missing
  require (is_item item.kind) inventory_entity_not_item
  refuse_if (is_some (get item_id held_by)) item_held_by_multiple_actors
  require (located_at owner_id item.location) item_location_mismatch
  check_items entities owner_id (item_id ∷ seen) (insert item_id owner_id held_by) item_ids

-- The outer loop over the inventories.
unfoldable pub check_inventories :
    BTreeMap EntityId Entity → Holders → BTreeMap EntityId (List EntityId) → Result Holders
unfolding check_items
check_inventories entities held_by [] = ok held_by
check_inventories entities held_by ((owner_id, item_ids) ∷ inventories) = do
  owner ← ok_or (get owner_id entities) inventory_owner_missing
  require (is_actor owner.kind) inventory_owner_not_actor
  held_by' ← check_items entities owner_id [] held_by item_ids
  check_inventories entities held_by' inventories

-- `.map(|entity| entity.kind == EntityKind::Actor).unwrap_or(false)`
abbrev pub is_actor_at : BTreeMap EntityId Entity → EntityId → Bool
is_actor_at entities id = elim (get id entities) [ none ↦ false | some e ↦ is_actor e.kind ]

-- The second pass: an item located at an actor is held by that actor.
unfoldable pub check_held :
    BTreeMap EntityId Entity → Holders → EntityId × Entity → Result (Unit {0})
check_held entities held_by (key, e) = elim e.location [
  | none ↦ ok tt
  | some location ↦
      refuse_if
        (is_item e.kind
          && is_actor_at entities location
          && not (located_at location (get e.id held_by)))
        item_missing_from_inventory
]

unfoldable pub validate_inventories : WorldState → Result (Unit {0})
unfolding check_inventories check_held
validate_inventories s = do
  held_by ← check_inventories s.entities [] s.inventories
  for_each s.entities (check_held s.entities held_by)
