-- ===== src/Demo/Current.antt =====
-- src/demo.rs: the quests behind `initialize` and `ensure_current`.
use aomori.Prelude.{
  ℕ, ◌+◌, ◌≡◌, refl, ap, String, Bool, true, false, none, some, [], ◌∷◌, text_key, nat_key,
  if◌then◌else◌, ◌||◌, arith,
}
use aomori.Map.{BTreeMap, get}
use aomori.Json.{Value, text, number, integer, pos, object, field, end}
use aomori.Runtime.World.{deploy}
use aomori.Result.{◌>>◌ as ◌then◌, refuse_if, demo_requires_an_empty_world, ok, err}
use aomori.Model.{WorldState, Entity, EntityId, is_actor, actor, item, zone}
use aomori.Model.Validate.{validate}
use aomori.External.{External}
use aomori.Runtime.{Outcome}
use aomori.Demo.{
  ◌>>=◌, ◌>>◌, reading, writing, map_of, character, rowan_dialogue, continue, find_named,
  find_named_entity, lost_key_quest, ruins_tablet_quest, open_shrine_quest,
}
use aomori.Demo.Initialize.{is_nonempty, create, create_zone, set_exits, insert_quest, initialize}
use aomori.Demo.Upgrade.{upgrade, ensure_current}
use aomori.Demo.Named.{
  HasRoom, Cast, Staged, Ends, create_entity-Ends, made-extra, made-mira, made-rowan,
  set_exits-Ends,
}
use aomori.Demo.Quests.{continue-Ends, HasQuests, inserted-HasQuests}
use aomori.Demo.Steps.{checked, SameEntities, Staged-SameEntities, deploy_version-Ends}
use aomori.Demo.Upgraded.{upgrade-HasQuests}

Staged-HasQuests :
    (ext : External) (village forest ruins : EntityId) (u : Unit {0}) (s : WorldState)
    → Staged 5 none none s
    → Ends
        (λ _. HasQuests)
        ((do
          player ← create actor (some "demo") village []
          _ ← create item none forest (map_of "name" "brass key")
          mira ←
              create actor
                (some "demo")
                village
                (character "Mira" "The ruins remember every traveler.")
          rowan ← create actor (some "demo") village (character "Rowan" rowan_dialogue)
          _ ← create item none ruins (map_of "name" "stone tablet")
          writing (insert_quest (lost_key_quest mira))
          writing (insert_quest (ruins_tablet_quest rowan))
          writing (insert_quest (open_shrine_quest rowan))
          reading (validate ext)
          reading λ _. ok player)
          s)
unfolding get
Staged-HasQuests ext village forest ruins u s staged =
    let Q : EntityId → WorldState → Type 0 = λ _. HasQuests in
    continue-Ends (λ _. Staged 4 none none) Q (create actor (some "demo") village [] s) _
      (create_entity-Ends (λ _. Staged 4 none none) s actor "admin" (some "demo") (some village) []
        (made-extra 4 none none _ s refl refl staged))
      λ player s1 staged1.
        continue-Ends (λ _. Staged 3 none none) Q
          (create item none forest (map_of "name" "brass key") s1) _
          (create_entity-Ends (λ _. Staged 3 none none) s1 item "admin" none (some forest)
            (map_of "name" "brass key") (made-extra 3 none none _ s1 refl refl staged1))
          λ _ s2 staged2.
            continue-Ends (λ mira. Staged 2 (some mira) none) Q
              (create actor (some "demo") village
                (character "Mira" "The ruins remember every traveler.") s2)
              _
              (create_entity-Ends (λ mira. Staged 2 (some mira) none) s2 actor "admin" (some "demo")
                (some village) (character "Mira" "The ruins remember every traveler.")
                (made-mira 2 none _ s2 refl refl staged2))
              λ mira s3 staged3.
                continue-Ends (λ rowan. Staged 1 (some mira) (some rowan)) Q
                  (create actor (some "demo") village (character "Rowan" rowan_dialogue) s3) _
                  (create_entity-Ends (λ rowan. Staged 1 (some mira) (some rowan)) s3 actor "admin"
                    (some "demo") (some village) (character "Rowan" rowan_dialogue)
                    (made-rowan 1 (some mira) _ s3 refl refl staged3))
                  λ rowan s4 staged4.
                    continue-Ends (λ _. Staged 0 (some mira) (some rowan)) Q
                      (create item none ruins (map_of "name" "stone tablet") s4) _
                      (create_entity-Ends (λ _. Staged 0 (some mira) (some rowan)) s4 item "admin"
                        none (some ruins) (map_of "name" "stone tablet")
                        (made-extra 0 (some mira) (some rowan) _ s4 refl refl staged4))
                      λ _ s5 staged5.
                        let quests = insert_quest (open_shrine_quest rowan) (
                          insert_quest (ruins_tablet_quest rowan)
                            (insert_quest (lost_key_quest mira) s5)) in
                        checked HasQuests Q (validate ext quests) quests _
                          (inserted-HasQuests mira rowan s5 staged5.1) λ _ _ _ here. here

zone-Ends :
    (count : ℕ) (name description : String) (exits : Value) (s : WorldState)
    → Staged (count + 1) none none s
    → Ends (λ _. Staged count none none) (create_zone name description exits s)
unfolding create_zone
zone-Ends count name description exits s staged =
    create_entity-Ends (λ _. Staged count none none) s zone "admin" none none
      (("description", text description) ∷ ("exits", exits) ∷ ("name", text name) ∷ [])
      (made-extra count none none _ s refl refl staged)

initialize-HasQuests :
    (ext : External) (source : String) (s : WorldState)
    → Staged 8 none none s
    → Ends (λ _. HasQuests) (initialize ext source s)
unfolding initialize deploy
initialize-HasQuests ext source s staged =
    let Q : EntityId → WorldState → Type 0 = λ _. HasQuests in
    checked (Staged 8 none none) Q
      (refuse_if (is_nonempty s.entities || is_nonempty s.contracts) demo_requires_an_empty_world) s
      _ staged
      λ _ s1 _ staged1.
        continue-Ends (λ _. SameEntities s1) Q (deploy ext.hash_text s1 "demo" source) _
          (deploy_version-Ends ext.hash_text s1 "demo" 1 source)
          λ _ s2 same.
            continue-Ends (λ _. Staged 7 none none) Q
              (create_zone "Village" "A warm village at the edge of an old forest."
                (object (field "east" (number (integer (pos 2))) end)) s2)
              _ (zone-Ends 7 _ _ _ s2 (Staged-SameEntities same staged1))
              λ village s3 staged3.
                continue-Ends (λ _. Staged 6 none none) Q
                  (create_zone "Forest" "Tall trees hide a path toward the ruins."
                    (object (
                      field "east" (number (integer (pos 3)))
                        (field "west" (number (integer (pos village))) end)))
                    s3)
                  _ (zone-Ends 6 _ _ _ s3 staged3)
                  λ forest s4 staged4.
                    continue-Ends (λ _. Staged 5 none none) Q
                      (create_zone "Ruins" "Broken stones surround a locked shrine."
                        (object (field "west" (number (integer (pos forest))) end)) s4)
                      _ (zone-Ends 5 _ _ _ s4 staged4)
                      λ ruins s5 staged5.
                        let exits = object (field "east" (number (integer (pos forest))) end) in
                        continue-Ends (λ _. Staged 5 none none) Q (set_exits village exits s5) _
                          (set_exits-Ends 5 none none village exits s5 staged5)
                          (Staged-HasQuests ext village forest ruins)

nobody :
    (s : WorldState)
    → (is_nonempty s.entities || is_nonempty s.contracts) ≡ false
    → Cast none none s
unfolding find_named_entity find_named
nobody s h = named s.entities refl
  where
    named : (m : BTreeMap EntityId Entity) → s.entities ≡ m → Cast none none s
    named [] e = record {
      is_mira = ap (find_named is_actor "Mira") e;
      is_rowan = ap (find_named is_actor "Rowan") e;
    }
    named (x ∷ m) e = absurd (ground (arith, e, h))

chosen-HasQuests :
    (ext : External) (source : String) (s : WorldState) (b : Bool)
    → (is_nonempty s.entities || is_nonempty s.contracts) ≡ b
    → HasRoom 8 s
    → Ends
        (λ _. HasQuests)
        (if b
          then upgrade ext source s
          else continue (initialize ext source s) (λ _ t. (ok true, t)))
chosen-HasQuests ext source s true h room =
    upgrade-HasQuests ext source s (record { free = room.free; room = omega (arith, room.room) })
chosen-HasQuests ext source s false h room =
    continue-Ends (λ _. HasQuests) (λ _. HasQuests) (initialize ext source s) _
      (initialize-HasQuests ext source s (room, nobody s h)) λ _ _ here. here

ended :
    {A : Type 0} (P : WorldState → Type 0) (o : Outcome A) (a : A)
    → Ends (λ _. P) o
    → o.0 ≡ ok a
    → P o.1
ended P (ok b, s) a here done = here
ended P (err e, s) a here done = cc

-- In a world whose ids from the next one on are free, with eight of them below 2^64, when
-- `ensure_current` succeeds there are an actor that is found as Mira and one that is found as Rowan,
-- and the three quests of the demo have their current definitions: Mira gives the lost key, Rowan the
-- tablet and the shrine.
pub ensure_current-HasQuests :
    (ext : External) (source : String) (s : WorldState) (changed : Bool)
    → HasRoom 8 s
    → (ensure_current ext source s).0 ≡ ok changed
    → HasQuests (ensure_current ext source s).1
unfolding ensure_current
ensure_current-HasQuests ext source s changed room done =
    ended HasQuests (ensure_current ext source s) changed
      (chosen-HasQuests ext source s (is_nonempty s.entities || is_nonempty s.contracts) refl room)
      done
