-- ===== src/Demo/Upgraded.antt =====
-- src/demo.rs: the quests behind an upgrade.
use aomori.Prelude.{
  ◌≡◌, refl, String, Bool, true, false, Option, none, some, text_key, nat_key, ◌||◌,
}
use aomori.Result.{
  ok, require, ok_or, demo_contract_missing, demo_village_missing, demo_ruins_missing,
  demo_mira_missing,
}
use aomori.Model.{WorldState, EntityId, is_actor, is_zone}
use aomori.Model.Validate.{validate}
use aomori.External.{External}
use aomori.Migration.{migrate_legacy_inventories}
use aomori.Migration.Ids.{IdsKept, migrate_legacy_inventories-IdsKept}
use aomori.Demo.{◌>>=◌, ◌>>◌, reading, writing, find_named_entity}
use aomori.Demo.Upgrade.{
  ensure_quests, raise_if, current_contract, upgrade_actors, ensure_rowan, ensure_tablet, any_demo,
  upgrade,
}
use aomori.Demo.Named.{HasRoom, Staged, Ends}
use aomori.Demo.Quests.{continue-Ends, HasQuests, ensure_quests-HasQuests}
use aomori.Demo.Steps.{
  HasRoom-IdsKept, Ends-world, checked, SameEntities, SameEntities-IdsKept, current_contract-Ends,
  upgrade_actors-Ends, ensure_rowan-Ends, ensure_tablet-Ends,
}

raised-HasQuests : (changed : Bool) (s : WorldState) → HasQuests s → HasQuests (raise_if changed s)
unfolding find_named_entity
raised-HasQuests true s here = here
raised-HasQuests false s here = here

-- The world in which Mira is looked up.
abbrev Looked : EntityId → WorldState → Type 0
Looked mira s = HasRoom 2 s × (find_named_entity s is_actor "Mira" ≡ some mira)

mira_found :
    (s : WorldState)
    → HasRoom 2 s
    → (o : Option EntityId) → find_named_entity s is_actor "Mira" ≡ o
    → Ends Looked (ok_or o demo_mira_missing, s)
mira_found s room none h = tt
mira_found s room (some mira) h = (room, h)

peopled :
    (ext : External) (deployed moved : Bool) (target : String) (migrated : Bool) (s : WorldState)
    → HasRoom 2 s
    → Ends
        (λ _. HasQuests)
        ((do
          village ← reading λ s. ok_or (find_named_entity s is_zone "Village") demo_village_missing
          ruins ← reading λ s. ok_or (find_named_entity s is_zone "Ruins") demo_ruins_missing
          mira ← reading λ s. ok_or (find_named_entity s is_actor "Mira") demo_mira_missing
          (rowan, rowan_created) ← ensure_rowan target village
          tablet_created ← ensure_tablet ruins
          quests_changed ← ensure_quests mira rowan
          reading (validate ext)
          let changed = deployed || (moved || (rowan_created || (tablet_created || quests_changed)))
          writing (raise_if changed)
          reading λ _. ok (changed || migrated))
          s)
peopled ext deployed moved target migrated s room =
    let Q : Bool → WorldState → Type 0 = λ _. HasQuests in
    checked (HasRoom 2) Q (ok_or (find_named_entity s is_zone "Village") demo_village_missing) s _
      room
      λ village s5 _ room5.
        checked (HasRoom 2) Q (ok_or (find_named_entity s5 is_zone "Ruins") demo_ruins_missing) s5 _
          room5
          λ ruins s6 _ room6.
            continue-Ends Looked Q
              (ok_or (find_named_entity s6 is_actor "Mira") demo_mira_missing, s6) _
              (mira_found s6 room6 (find_named_entity s6 is_actor "Mira") refl)
              λ mira s7 (room7, is_mira).
                continue-Ends (λ r. Staged 1 (some mira) (some r.0)) Q
                  (ensure_rowan target village s7) _
                  (ensure_rowan-Ends target village mira s7 room7 is_mira)
                  λ (rowan, created) s8 staged8.
                    continue-Ends (λ _. Staged 0 (some mira) (some rowan)) Q
                      (ensure_tablet ruins s8) _
                      (ensure_tablet-Ends ruins (some mira) (some rowan) s8 staged8)
                      λ tablet s9 staged9.
                        continue-Ends Q Q (ensure_quests mira rowan s9) _
                          (ensure_quests-HasQuests mira rowan s9 staged9.1)
                          λ quests s10 here.
                            checked HasQuests Q (validate ext s10) s10 _ here λ _ s11 _ still.
                              raised-HasQuests
                                (deployed || (moved || (created || (tablet || quests)))) s11 still

pub upgrade-HasQuests :
    (ext : External) (source : String) (s : WorldState)
    → HasRoom 2 s
    → Ends (λ _. HasQuests) (upgrade ext source s)
unfolding upgrade
upgrade-HasQuests ext source s room =
    let Q : Bool → WorldState → Type 0 = λ _. HasQuests in
    checked (HasRoom 2) Q (require (any_demo s.contracts) demo_contract_missing) s _ room
      λ _ s1 _ room1.
        continue-Ends (λ _. HasRoom 2) Q (migrate_legacy_inventories s1) _
          (Ends-world (HasRoom 2) (migrate_legacy_inventories s1)
            (HasRoom-IdsKept (migrate_legacy_inventories-IdsKept s1) room1))
          λ migrated s2 room2.
            continue-Ends (λ _. SameEntities s2) Q (current_contract ext source s2) _
              (current_contract-Ends ext source s2)
              λ (target, deployed) s3 same.
                continue-Ends (λ _. IdsKept s3) Q (upgrade_actors target s3) _
                  (upgrade_actors-Ends target s3)
                  λ moved s4 kept.
                    let room4 : HasRoom 2 s4 =
                      HasRoom-IdsKept kept (HasRoom-IdsKept (SameEntities-IdsKept same) room2) in
                    peopled ext deployed moved target migrated s4 room4
