-- ===== src/Model/Sound/Locations.antt =====
-- src/model.rs: the locations that `validate_locations` accepts.
use aomori.Prelude.{◌≡◌, refl, ◌↔◌, ◌⊎◌, Option, none, some, arith, All, All-map, nat_key}
use aomori.Map.{BTreeMap, get}
use aomori.Result.{ok, for_each_iff}
use aomori.Model.{WorldState, Entity, EntityId, EntityKind, actor, zone, item}
use aomori.Model.Locations.{check_location, validate_locations}

-- Where an entity of a kind may stand: an actor in a zone, an item in a zone or with an actor, a zone
-- nowhere.
abbrev pub IsPlaceFor : EntityKind → EntityKind → Type 0
IsPlaceFor zone k = ⊥
IsPlaceFor actor k = k ≡ zone
IsPlaceFor item k = (k ≡ zone) ⊎ (k ≡ actor)

-- If there is a location, the entity with that id is there, and it is a place for the kind.
abbrev pub IsPlaced : BTreeMap EntityId Entity → EntityKind → Option EntityId → Type 0
IsPlaced entities kind none = Unit {0}
IsPlaced entities kind (some l) = (t : Entity) × (get l entities ≡ some t) × IsPlaceFor kind t.kind

check_location_sound :
    (entities : BTreeMap EntityId Entity) (kind : EntityKind) (location : Option EntityId)
    → check_location entities kind location ≡ ok tt
    → IsPlaced entities kind location
unfolding check_location
check_location_sound entities zone (some l) h = cc
check_location_sound entities actor (some l) h = ground arith
check_location_sound entities item (some l) h = ground arith
check_location_sound entities kind none h = tt

check_location_complete :
    (entities : BTreeMap EntityId Entity) (kind : EntityKind) (location : Option EntityId)
    → IsPlaced entities kind location
    → check_location entities kind location ≡ ok tt
unfolding check_location
check_location_complete entities zone (some l) h = absurd (h.2)
check_location_complete entities actor (some l) h = ground arith
check_location_complete entities item (some l) h = ground arith
check_location_complete entities zone none h = refl
check_location_complete entities actor none h = refl
check_location_complete entities item none h = refl

-- The validation passes exactly when every entity stands in a place for its kind.
pub validate_locations_iff :
    (s : WorldState)
    → (validate_locations s ≡ ok tt)
      ↔ All (λ e. IsPlaced s.entities e.1.kind e.1.location) s.entities
unfolding validate_locations
validate_locations_iff s =
    let loop = for_each_iff s.entities (λ e. check_location s.entities e.1.kind e.1.location) in
    (
      λ h.
          All-map _ _ s.entities (λ e. check_location_sound s.entities e.1.kind e.1.location)
            (loop.0 h),
      λ h. loop.1 (
          All-map _ _ s.entities (λ e. check_location_complete s.entities e.1.kind e.1.location) h),
    )
