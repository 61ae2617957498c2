-- ===== src/Tests/Migration.antt =====
-- The migration of a world with an old inventory.
use aomori.Prelude.{◌≡◌, ◌⊎◌, refl, All, true, false, none, some, [], ◌∷◌, nat_key}
use aomori.Map.{get}
use aomori.Json.{number, integer, pos, array, nil, cons}
use aomori.Result.{Error, ok, err}
use aomori.Model.{WorldState, Entity, actor, item, zone}
use aomori.Migration.{legacy_inventory, migrate_legacy_inventories}
use aomori.Migration.Sound.{Migrated, migrate_legacy_inventories-cases}
use aomori.Tests.Data.{town}

-- Alice's actor has the apple in its data, and the world has no inventories.
abbrev old_town : WorldState
old_town = record town {
  entities =
      (
        1,
        record {
          id = 1;
          kind = zone;
          owner = "admin";
          location = none;
          contract = none;
          attributes = [];
        },
      )
      ∷ (
        2,
        record {
          id = 2;
          kind = actor;
          owner = "alice";
          location = some 1;
          contract = none;
          attributes = ("inventory", array (cons (number (integer (pos 3))) nil)) ∷ [];
        },
      )
      ∷ (
        3,
        record {
          id = 3;
          kind = item;
          owner = "admin";
          location = some 1;
          contract = none;
          attributes = [];
        },
      )
      ∷ [];
  inventories = [];
}

old_town-moves :
    let r = migrate_legacy_inventories old_town in
    (r.0 ≡ ok true) × (r.1.inventories ≡ (2, 3 ∷ []) ∷ []) × (r.1.head ≡ 8)
unfolding aomori.Map.get aomori.Map.insert aomori.Result.for_each
    aomori.Model.Inventories.validate_inventories aomori.Model.Locations.validate_locations
    aomori.Migration.collect_items aomori.Migration.collect_actors
    aomori.Migration.collect_legacy_inventories aomori.Migration.claim_item
    aomori.Migration.claim_items aomori.Migration.open_inventory aomori.Migration.claim_all
    aomori.Migration.migrated aomori.Migration.migrate_legacy_inventories
old_town-moves = (refl, refl, refl)

migrate_legacy_inventories-cases_example :
    let r = migrate_legacy_inventories old_town in
    ((e : Error) × (r ≡ (err e, old_town)))
    ⊎ (((r ≡ (ok false, old_town)) × All (λ e. legacy_inventory e.1 ≡ none) old_town.entities)
        ⊎ ((r.0 ≡ ok true) × Migrated old_town r.1))
migrate_legacy_inventories-cases_example = migrate_legacy_inventories-cases old_town
