-- ===== src/Demo/Quests.antt =====
-- src/demo.rs: the quests behind `ensure_current`.
use aomori.Prelude.{
  ◌≡◌, refl, ap, ◌∙◌, String, Bool, true, false, Option, none, some, List, [], ◌∷◌, text_key, ◌≟◌,
  ≟_iff, arith, if◌then◌else◌,
}
use aomori.Map.{get, get-insert}
use aomori.Result.{ok, err}
use aomori.Model.{WorldState, EntityId, is_actor, QuestDefinition}
use aomori.Runtime.{Outcome}
use aomori.Demo.{
  Act, continue, find_named, find_named_entity, lost_key_quest, ruins_tablet_quest,
  open_shrine_quest,
}
use aomori.Demo.Named.{Ends, Cast}
use aomori.Demo.Initialize.{insert_quest}
use aomori.Demo.Upgrade.{eq_texts, eq_quest, is_quest, ensure_quest, ensure_quests}

eq_texts-eq : (xs ys : List String) → eq_texts xs ys ≡ true → xs ≡ ys
eq_texts-eq [] [] h = refl
eq_texts-eq (x ∷ xs) (y ∷ ys) h = ground (arith, eq_texts-eq xs ys, ≟_iff x y)
eq_texts-eq [] (y ∷ ys) h = cc
eq_texts-eq (x ∷ xs) [] h = cc

eq_quest-eq : (a b : QuestDefinition) → eq_quest a b ≡ true → a ≡ b
unfolding eq_quest
eq_quest-eq a b h = ground (
  arith,
  eq_texts-eq a.prerequisite_quest_ids b.prerequisite_quest_ids,
  ≟_iff a.id b.id,
  ≟_iff a.title b.title,
  ≟_iff a.required_item b.required_item,
  ≟_iff a.completion_zone b.completion_zone,
)

pub continue-Ends {ℓ κ} :
    {A : Type ℓ} {B : Type κ} (Q : A → WorldState → Type 0) (P : B → WorldState → Type 0)
    (o : Outcome A) (k : A → Act B)
    → Ends Q o
    → ((a : A) (s : WorldState) → Q a s → Ends P (k a s))
    → Ends P (continue o k)
continue-Ends Q P (ok a, s) k here next = next a s here
continue-Ends Q P (err e, s) k here next = tt

-- A definition that is there afterwards, with the others as they were.
Ensured : QuestDefinition → WorldState → WorldState → Type 0
Ensured definition s t =
    ((key : String)
      → get key t.quests ≡ (if definition.id ≟ key then some definition else get key s.quests))
    × (t.entities ≡ s.entities)

is_quest-eq :
    (definition : QuestDefinition) (o : Option QuestDefinition)
    → is_quest definition o ≡ true
    → o ≡ some definition
is_quest-eq definition none h = cc
is_quest-eq definition (some found) h = ap some (eq_quest-eq found definition h)

quest_kept :
    (definition : QuestDefinition) (s : WorldState)
    → get definition.id s.quests ≡ some definition
    → Ensured definition s s
unfolding Ensured
quest_kept definition s there = ((λ key. ground (arith, there, ≟_iff definition.id key)), refl)

quest_inserted :
    (definition : QuestDefinition) (s : WorldState)
    → Ensured definition s (insert_quest definition s)
unfolding Ensured
quest_inserted definition s = ((λ key. get-insert definition.id key definition s.quests), refl)

ensure_quest-Ensured :
    (definition : QuestDefinition) (s : WorldState) (b : Bool)
    → is_quest definition (get definition.id s.quests) ≡ b
    → Ends
        (λ _. Ensured definition s)
        (if b then (ok false, s) else (ok true, insert_quest definition s))
ensure_quest-Ensured definition s true h =
    quest_kept definition s (is_quest-eq definition (get definition.id s.quests) h)
ensure_quest-Ensured definition s false h = quest_inserted definition s

-- The actors that are found as Mira and as Rowan are there, and the quests of the demo have their
-- current definitions: the key is given by Mira, the tablet and the shrine by Rowan.
abbrev pub HasQuests : WorldState → Type 0
HasQuests s =
    (mira : EntityId) × (rowan : EntityId) × (find_named_entity s is_actor "Mira" ≡ some mira)
    × (find_named_entity s is_actor "Rowan" ≡ some rowan)
    × (get "lost_key" s.quests ≡ some (lost_key_quest mira))
    × (get "ruins_tablet" s.quests ≡ some (ruins_tablet_quest rowan))
    × (get "open_shrine" s.quests ≡ some (open_shrine_quest rowan))

pub ensure_quests-HasQuests :
    (mira rowan : EntityId) (s : WorldState)
    → Cast (some mira) (some rowan) s
    → Ends (λ _. HasQuests) (ensure_quests mira rowan s)
unfolding ensure_quests ensure_quest Ensured find_named_entity
ensure_quests-HasQuests mira rowan s cast =
    continue-Ends (λ _. Ensured (lost_key_quest mira) s) (λ _. HasQuests)
      (ensure_quest (lost_key_quest mira) s) _ (ensure_quest-Ensured (lost_key_quest mira) s _ refl)
      λ _ s1 (first, same1).
        continue-Ends (λ _. Ensured (ruins_tablet_quest rowan) s1) (λ _. HasQuests)
          (ensure_quest (ruins_tablet_quest rowan) s1) _
          (ensure_quest-Ensured (ruins_tablet_quest rowan) s1 _ refl)
          λ _ s2 (second, same2).
            continue-Ends (λ _. Ensured (open_shrine_quest rowan) s2) (λ _. HasQuests)
              (ensure_quest (open_shrine_quest rowan) s2) _
              (ensure_quest-Ensured (open_shrine_quest rowan) s2 _ refl)
              λ _ s3 (third, same3). (
                mira,
                rowan,
                ap (find_named is_actor "Mira") (same3 ∙ same2 ∙ same1) ∙ cast.is_mira,
                ap (find_named is_actor "Rowan") (same3 ∙ same2 ∙ same1) ∙ cast.is_rowan,
                third "lost_key" ∙ second "lost_key" ∙ first "lost_key",
                third "ruins_tablet" ∙ second "ruins_tablet",
                third "open_shrine",
              )

pub inserted-HasQuests :
    (mira rowan : EntityId) (s : WorldState)
    → Cast (some mira) (some rowan) s
    → HasQuests (
        insert_quest
          (open_shrine_quest rowan)
          (insert_quest (ruins_tablet_quest rowan) (insert_quest (lost_key_quest mira) s)))
unfolding find_named_entity
inserted-HasQuests mira rowan s cast =
    (mira, rowan, cast.is_mira, cast.is_rowan, simp get-insert, simp get-insert, simp get-insert)
