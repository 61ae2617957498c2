-- ===== src/Runtime/Changes.antt =====
-- What a command has changed: equality of entities and of quest progress, and the events for the
-- differences between two worlds.
use aomori.Prelude.{
  ℕ, String, Bool, true, false, not, ◌&&◌, ◌||◌, Option, none, some, List, [], ◌∷◌, ◌==◌, nat_key,
  text_key, ◌≟◌, Key, if◌then◌else◌,
}
use aomori.Map.{BTreeMap, get, insert}
use aomori.Json.{
  ℤ, pos, negsuc, Number, integer, float, Value, null, bool, number, text, array, object, Items,
  nil, cons, Fields, end, field,
}
use aomori.Model.{
  WorldState, Entity, EntityId, EntityKind, actor, zone, item, QuestProgress, QuestStatus, accepted,
  completed, is_actor, is_zone, is_item, is_completed,
}
use aomori.Runtime.World.{push_event}

abbrev eq_bool : Bool → Bool → Bool
eq_bool true b = b
eq_bool false b = not b

abbrev eq_int : ℤ → ℤ → Bool
eq_int (pos m) (pos n) = m == n
eq_int (negsuc m) (negsuc n) = m == n
eq_int _ _ = false

-- Doubles that are no NaN: equal bits, or both zero.
abbrev eq_double : ℕ → ℕ → Bool
eq_double a b = a == b || (is_zero a && is_zero b)
  where
    is_zero : ℕ → Bool
    is_zero x = x == 0 || x == 9223372036854775808

abbrev eq_number : Number → Number → Bool
eq_number (integer m) (integer n) = eq_int m n
eq_number (float a) (float b) = eq_double a b
eq_number _ _ = false

mutual
  eq_value : Value → Value → Bool
  eq_value null null = true
  eq_value (bool a) (bool b) = eq_bool a b
  eq_value (number a) (number b) = eq_number a b
  eq_value (text a) (text b) = a ≟ b
  eq_value (array a) (array b) = eq_items a b
  eq_value (object a) (object b) = eq_fields a b
  eq_value _ _ = false

  eq_items : Items → Items → Bool
  eq_items nil nil = true
  eq_items (cons a as') (cons b bs) = eq_value a b && eq_items as' bs
  eq_items _ _ = false

  eq_fields : Fields → Fields → Bool
  eq_fields end end = true
  eq_fields (field j v fs) (field k w gs) = j ≟ k && (eq_value v w && eq_fields fs gs)
  eq_fields _ _ = false

eq_attributes : BTreeMap String Value → BTreeMap String Value → Bool
unfolding eq_value
eq_attributes [] [] = true
eq_attributes ((j, v) ∷ m) ((k, w) ∷ n) = j ≟ k && (eq_value v w && eq_attributes m n)
eq_attributes _ _ = false

abbrev eq_kind : EntityKind → EntityKind → Bool
eq_kind actor k = is_actor k
eq_kind zone k = is_zone k
eq_kind item k = is_item k

abbrev pub eq_option {ℓ} : {A : Type ℓ} → (A → A → Bool) → Option A → Option A → Bool
eq_option f none none = true
eq_option f (some a) (some b) = f a b
eq_option f _ _ = false

-- `#[derive(PartialEq)]` of `Entity` and of `QuestProgress`
unfoldable pub eq_entity : Entity → Entity → Bool
unfolding eq_attributes
eq_entity a b =
    a.id == b.id
    && (eq_kind a.kind b.kind
        && (a.owner ≟ b.owner
            && (eq_option (λ x y. x == y) a.location b.location
                && (eq_option (λ x y. x ≟ y) a.contract b.contract
                    && eq_attributes a.attributes b.attributes))))

unfoldable pub eq_progress : QuestProgress → QuestProgress → Bool
eq_progress a b =
    a.quest_id ≟ b.quest_id
    && (a.actor_id == b.actor_id && eq_bool (is_completed a.status) (is_completed b.status))

module _ {ℓ κ} {K : Type ℓ} {V : Type κ} ⦃o : Key K⦄ where
  abbrev pub add_keys : BTreeMap K V → BTreeMap K (Unit {0}) → BTreeMap K (Unit {0})
  add_keys [] set = set
  add_keys ((k, v) ∷ m) set = add_keys m (insert k tt set)

  -- The keys of a set at which two maps differ.
  abbrev pub differing :
      (V → V → Bool) → BTreeMap K V → BTreeMap K V → BTreeMap K (Unit {0}) → List K
  differing eq a b [] = []
  differing eq a b ((k, _) ∷ set) =
      if eq_option eq (get k a) (get k b) then differing eq a b set else k ∷ differing eq a b set

  -- The keys of two maps at which they differ, each once and in order.
  unfoldable pub changed_keys : (V → V → Bool) → BTreeMap K V → BTreeMap K V → List K
  changed_keys eq a b = differing eq a b (add_keys b (add_keys a []))

-- How an entity changed, by whether it was there before and is there now.
abbrev pub change_name : Option Entity → Option Entity → String
change_name none (some e) = "created"
change_name (some e) none = "deleted"
change_name _ _ = "updated"

unfoldable pub push_entity_changes : WorldState → WorldState → List EntityId → WorldState
push_entity_changes original s [] = s
push_entity_changes original s (id ∷ ids) =
    let change = text (change_name (get id original.entities) (get id s.entities)) in
    push_entity_changes original
      (push_event s "entity_changed" (some id) (object (field "change" change end))) ids

abbrev pub status_name : QuestStatus → String
status_name accepted = "accepted"
status_name completed = "completed"

unfoldable pub push_quest_change : WorldState → Option QuestProgress → WorldState
push_quest_change s none = s
push_quest_change s (some progress) =
    push_event s "quest_progress_changed" (some progress.actor_id) (
      object (
        field "quest_id" (text progress.quest_id)
          (field "status" (text (status_name progress.status)) end)))

unfoldable pub push_quest_changes : WorldState → List String → WorldState
push_quest_changes s [] = s
push_quest_changes s (key ∷ keys) =
    push_quest_changes (push_quest_change s (get key s.quest_progress)) keys
