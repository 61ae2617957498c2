-- ===== src/Model/Quests.antt =====
-- `WorldState::validate_quests`: the checks of each definition, then Kahn's algorithm on the
-- prerequisites. A step that would panic in the source has the outcome `panicked`.
use aomori.Prelude.{
  ℕ, zero, suc, ◌+◌, String, Option, none, some, List, [], ◌∷◌, ◌++◌, ◌==◌, text_key, nat_key, ◌≟◌,
  length, if◌then◌else◌,
}
use aomori.Map.{BTreeMap, get, contains_key, insert, replace}
use aomori.Result.{
  Result, ok, err, ◌>>=◌, ◌>>◌, require, refuse_if, ok_or, for_each, quest_key_mismatch,
  quest_id_empty, quest_giver_missing, quest_giver_not_actor, quest_requires_itself,
  duplicate_prerequisite, prerequisite_missing, prerequisite_cycle, panicked, out_of_fuel,
}
use aomori.Model.{WorldState, QuestDefinition, is_actor}
use aomori.Model.Events.{mem_text}

-- The loop over the prerequisites of one quest, behind those seen before.
unfoldable pub check_prerequisites :
    WorldState → String → List String → List String → Result (Unit {0})
check_prerequisites s quest_id seen [] = ok tt
check_prerequisites s quest_id seen (prerequisite ∷ rest) = do
  refuse_if (prerequisite ≟ quest_id) quest_requires_itself
  refuse_if (mem_text prerequisite seen) duplicate_prerequisite
  require (contains_key prerequisite s.quests) prerequisite_missing
  check_prerequisites s quest_id (prerequisite ∷ seen) rest

unfoldable pub check_quest : WorldState → String × QuestDefinition → Result (Unit {0})
check_quest s (key, quest) = do
  require (key ≟ quest.id) quest_key_mismatch
  refuse_if (quest.id ≟ "") quest_id_empty
  giver ← ok_or (get quest.giver_entity_id s.entities) quest_giver_missing
  require (is_actor giver.kind) quest_giver_not_actor
  check_prerequisites s quest.id [] quest.prerequisite_quest_ids

abbrev pub Degrees : Type 0
Degrees = BTreeMap String ℕ

abbrev pub Dependents : Type 0
Dependents = BTreeMap String (List String)

unfoldable pub indegrees : BTreeMap String QuestDefinition → Degrees
indegrees [] = []
indegrees ((id, quest) ∷ quests) =
    insert id (length quest.prerequisite_quest_ids) (indegrees quests)

abbrev pub or_default {ℓ} : {A : Type ℓ} → Option (List A) → List A
or_default none = []
or_default (some xs) = xs

-- `dependents.entry(prerequisite).or_default().push(id)` for each prerequisite
unfoldable pub add_dependents : String → List String → Dependents → Dependents
add_dependents id [] deps = deps
add_dependents id (prerequisite ∷ rest) deps =
    add_dependents id rest
      (insert prerequisite (or_default (get prerequisite deps) ++ id ∷ []) deps)

unfoldable pub dependents_from : BTreeMap String QuestDefinition → Dependents → Dependents
dependents_from [] deps = deps
dependents_from ((id, quest) ∷ quests) deps =
    dependents_from quests (add_dependents id quest.prerequisite_quest_ids deps)

-- The quests of degree 0, in the order of their ids.
unfoldable pub ready_ids : Degrees → List String
ready_ids [] = []
ready_ids ((id, degree) ∷ degrees) =
    let rest = ready_ids degrees in if degree == 0 then id ∷ rest else rest

-- The inner loop: one prerequisite less for each child.
unfoldable pub relax : Degrees → List String → List String → Result (Degrees × List String)
relax degrees ready [] = ok (degrees, ready)
relax degrees ready (child ∷ children) = elim (get child degrees) [
  | none ↦ err panicked
  | some zero ↦ err panicked
  | some (suc degree) ↦
      relax (replace child degree degrees) (if degree == 0 then ready ++ child ∷ [] else ready)
        children
]

-- `while let Some(id) = ready.pop_front()`, with the number of quests processed.
unfoldable pub drain : ℕ → Dependents → Degrees → List String → ℕ → Result ℕ
drain fuel deps degrees [] processed = ok processed
drain zero deps degrees (id ∷ ready) processed = err out_of_fuel
drain (suc fuel) deps degrees (id ∷ ready) processed =
    relax degrees ready (or_default (get id deps)) >>= λ (degrees', ready').
    drain fuel deps degrees' ready' (processed + 1)

-- Each quest becomes ready at most once, so their number is fuel enough.
unfoldable pub validate_quests : WorldState → Result (Unit {0})
validate_quests s = do
  for_each s.quests (check_quest s)
  let degrees = indegrees s.quests
  processed ← drain (length s.quests) (dependents_from s.quests []) degrees (ready_ids degrees) 0
  require (processed == length s.quests) prerequisite_cycle
