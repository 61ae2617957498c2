-- ===== src/Tests/Model.antt =====
-- The validation, at a world that passes it.
use aomori.Prelude.{◌≡◌, ◌≢◌, ◌↔◌, refl, All, []}
use aomori.Result.{ok, err, out_of_fuel}
use aomori.Model.Validate.{validate}
use aomori.Model.Locations.{validate_locations}
use aomori.Model.Quests.{validate_quests}
use aomori.Model.Events.{validate_events}
use aomori.Model.References.{validate_references}
use aomori.Model.Sound.Locations.{IsPlaced, validate_locations_iff}
use aomori.Model.Sound.Events.{Increasing, EventValid, Unclaimed, validate_events_sound}
use aomori.Model.Sound.References.{ReferencesValid, validate_references_sound}
use aomori.Model.Sound.Quests.{validate_quests-ends}
use aomori.Tests.Data.{crypto, town}

pub town-validate : validate crypto town ≡ ok tt
unfolding aomori.Map.get aomori.Map.insert aomori.Text.quest_progress_key aomori.Text.contract_key
    aomori.Result.for_each aomori.Model.Events.check_kind aomori.Model.Events.check_event
    aomori.Model.Events.validate_events_from aomori.Model.Events.validate_events
    aomori.Model.Inventories.validate_inventories aomori.Model.Locations.validate_locations
    aomori.Model.Quests.check_prerequisites aomori.Model.Quests.check_quest
    aomori.Model.Quests.indegrees aomori.Model.Quests.add_dependents
    aomori.Model.Quests.dependents_from aomori.Model.Quests.ready_ids aomori.Model.Quests.relax
    aomori.Model.Quests.drain aomori.Model.Quests.validate_quests
    aomori.Model.References.check_public_key aomori.Model.References.validate_references
    aomori.Model.Validate.validate
town-validate = refl

pub town-validate_events : validate_events town ≡ ok tt
unfolding aomori.Model.Events.check_kind aomori.Model.Events.check_event
    aomori.Model.Events.validate_events_from aomori.Model.Events.validate_events
town-validate_events = refl

town-validate_references : validate_references crypto town ≡ ok tt
unfolding aomori.Map.get aomori.Text.quest_progress_key aomori.Text.contract_key
    aomori.Result.for_each aomori.Model.References.check_public_key
    aomori.Model.References.validate_references
town-validate_references = refl

validate_locations_iff_example :
    (validate_locations town ≡ ok tt)
    ↔ All (λ e. IsPlaced town.entities e.1.kind e.1.location) town.entities
validate_locations_iff_example = validate_locations_iff town

validate_events-sound_example :
    Increasing 0 town.events 4 × All (EventValid town) town.events × Unclaimed [] town.events
validate_events-sound_example = validate_events_sound town town-validate_events

validate_references-sound_example : ReferencesValid crypto town
validate_references-sound_example = validate_references_sound crypto town town-validate_references

validate_quests-ends_example : validate_quests town ≢ err out_of_fuel
validate_quests-ends_example = validate_quests-ends town
