-- ===== src/Model/Locations.antt =====
-- src/model.rs: `WorldState::validate_locations`
use aomori.Prelude.{◌||◌, Option, none, some, nat_key}
use aomori.Map.{BTreeMap, get}
use aomori.Result.{
  Result, ok, err, ◌>>=◌, require, ok_or, for_each, zone_has_location, location_missing,
  actor_location_not_zone, item_location_neither_zone_nor_actor,
}
use aomori.Model.{WorldState, Entity, EntityId, EntityKind, actor, zone, item, is_actor, is_zone}

-- The `match` on the kind and the location.
unfoldable pub check_location :
    BTreeMap EntityId Entity → EntityKind → Option EntityId → Result (Unit {0})
check_location entities zone (some location) = err zone_has_location
check_location entities actor (some location) = do
  target ← ok_or (get location entities) location_missing
  require (is_zone target.kind) actor_location_not_zone
check_location entities item (some location) = do
  target ← ok_or (get location entities) location_missing
  require (is_zone target.kind || is_actor target.kind) item_location_neither_zone_nor_actor
check_location entities kind none = ok tt

unfoldable pub validate_locations : WorldState → Result (Unit {0})
unfolding check_location
validate_locations s = for_each s.entities λ e. check_location s.entities e.1.kind e.1.location
