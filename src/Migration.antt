-- ===== src/Migration.antt =====
-- src/migration.rs: `migrate_legacy_inventories`, which moves the inventories that were kept in the
-- data of the actors to the inventories of the world.
pub mod Sound
pub mod Ids
use aomori.Prelude.{
  ℕ, String, Bool, true, false, Option, none, some, List, [], ◌∷◌, ◌++◌, nat_key, text_key, is_some,
  checked_add, if◌then◌else◌,
}
use aomori.Map.{BTreeMap, get, insert, remove}
use aomori.Json.{Value, as_u64, as_array}
use aomori.Result.{
  Error, Result, ok, err, ◌>>=◌, ◌>>◌, require, refuse_if, ok_or, panicked,
  legacy_inventory_not_an_array, legacy_item_not_an_integer, legacy_duplicate_item,
  legacy_item_missing, legacy_item_not_an_item, legacy_item_claimed_twice, head_overflow,
}
use aomori.Model.{WorldState, Entity, EntityId, is_actor, is_item}
use aomori.Model.Inventories.{contains, Holders, validate_inventories}
use aomori.Model.Locations.{validate_locations}
use aomori.Runtime.{Outcome, commit}
use aomori.Runtime.Host.{inventory_of}

-- The inner loop: the items of one actor, behind those seen before, with the actors that have
-- claimed an item so far.
unfoldable pub collect_items :
    BTreeMap EntityId Entity
    → EntityId
    → List EntityId
    → Holders
    → List Value
    → Result (List EntityId × Holders)
collect_items entities actor_id seen claimed_by [] = ok ([], claimed_by)
collect_items entities actor_id seen claimed_by (value ∷ values) = do
  item_id ← ok_or (as_u64 value) legacy_item_not_an_integer
  refuse_if (contains seen item_id) legacy_duplicate_item
  found ← ok_or (get item_id entities) legacy_item_missing
  require (is_item found.kind) legacy_item_not_an_item
  refuse_if (is_some (get item_id claimed_by)) legacy_item_claimed_twice
  (item_ids, claimed_by') ←
      collect_items entities actor_id (item_id ∷ seen) (insert item_id actor_id claimed_by) values
  ok (item_id ∷ item_ids, claimed_by')

-- `actor.data.get("inventory")` of an actor, none for another entity
abbrev pub legacy_inventory : Entity → Option Value
legacy_inventory e = if is_actor e.kind then get "inventory" e.attributes else none

-- The outer loop over the actors.
unfoldable pub collect_actors :
    BTreeMap EntityId Entity
    → Holders
    → BTreeMap EntityId Entity
    → Result (List (EntityId × List EntityId))
collect_actors entities claimed_by [] = ok []
collect_actors entities claimed_by ((key, e) ∷ rest) = elim (legacy_inventory e) [
  | none ↦ collect_actors entities claimed_by rest
  | some value ↦ ok_or (as_array value) legacy_inventory_not_an_array >>= λ values.
      collect_items entities e.id [] claimed_by values >>= λ (item_ids, claimed_by').
      collect_actors entities claimed_by' rest >>= λ migrations. ok ((e.id, item_ids) ∷ migrations)
]

unfoldable pub collect_legacy_inventories : WorldState → Result (List (EntityId × List EntityId))
collect_legacy_inventories s = collect_actors s.entities [] s.entities

-- One item goes to the inventory of the actor, if it is not there yet.
unfoldable pub claim_item : EntityId → EntityId → WorldState → Result WorldState
claim_item actor_id item_id s = do
  found ← ok_or (get item_id s.entities) panicked
  let held = inventory_of actor_id s
  ok (record s {
    inventories =
        insert actor_id (if contains held item_id then held else held ++ item_id ∷ [])
          s.inventories;
    entities = insert item_id (record found { location = some actor_id }) s.entities;
  })

unfoldable pub claim_items : EntityId → List EntityId → WorldState → Result WorldState
claim_items actor_id [] s = ok s
claim_items actor_id (item_id ∷ item_ids) s =
    claim_item actor_id item_id s >>= claim_items actor_id item_ids

-- The data of the actor loses the old inventory; a new one is there, if empty.
unfoldable pub open_inventory : EntityId → WorldState → Result WorldState
open_inventory actor_id s = do
  found ← ok_or (get actor_id s.entities) panicked
  ok (record s {
    entities =
        insert actor_id (record found { attributes = remove "inventory" found.attributes })
          s.entities;
    inventories = insert actor_id (inventory_of actor_id s) s.inventories;
  })

unfoldable pub claim_all : List (EntityId × List EntityId) → WorldState → Result WorldState
claim_all [] s = ok s
claim_all ((actor_id, item_ids) ∷ migrations) s =
    open_inventory actor_id s >>= claim_items actor_id item_ids >>= claim_all migrations

-- The candidate, checked, in place of the world.
unfoldable pub migrated : WorldState → List (EntityId × List EntityId) → Result (Bool × WorldState)
migrated s [] = ok (false, s)
migrated s (m ∷ ms) = do
  candidate ← claim_all (m ∷ ms) s
  head ← ok_or (checked_add candidate.head 1) head_overflow
  let raised = record candidate { head = head }
  validate_locations raised
  validate_inventories raised
  ok (true, raised)

unfoldable pub migrate_legacy_inventories : WorldState → Outcome Bool
migrate_legacy_inventories s = commit s (collect_legacy_inventories s >>= migrated s)
