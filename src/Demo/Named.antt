-- ===== src/Demo/Named.antt =====
-- src/demo.rs: the entities that are looked up by their names, over the writes of the demo.
use aomori.Prelude.{
  ℕ, ◌+◌, ◌≤◌, ◌<◌, ◌≡◌, refl, ap, ◌∙◌, String, Bool, true, false, ◌&&◌, Option, none, some, [],
  ◌∷◌, arith, text_key, nat_key, ◌≟◌, ≟_iff, u64_mod, wrapping_add, and_then,
}
use aomori.Map.{BTreeMap, get, insert, replace, get-insert, contains_key}
use aomori.Json.{Value, as_str}
use aomori.Result.{Error, ok, err, ◌>>◌, require, panicked, account_not_found, contract_not_found}
use aomori.Model.{WorldState, Entity, EntityId, EntityKind, is_actor}
use aomori.Runtime.{Outcome, commit}
use aomori.Runtime.World.{create_entity}
use aomori.Demo.{is_named, find_named, find_named_entity}
use aomori.Demo.Initialize.{set_exits}

-- Whether a lookup by a kind and a name takes an entity.
abbrev pub fits : (EntityKind → Bool) → String → Entity → Bool
fits is_kind name e = is_kind e.kind && is_named name e

find_named-insert_new :
    (is_kind : EntityKind → Bool) (name : String) (k : EntityId) (e : Entity)
    (m : BTreeMap EntityId Entity)
    → find_named is_kind name m ≡ none
    → fits is_kind name e ≡ true
    → find_named is_kind name (insert k e m) ≡ some e.id
unfolding find_named insert
find_named-insert_new is_kind name k e [] missing fit = rw fit refl
find_named-insert_new is_kind name k e ((j, w) ∷ m) missing fit =
    ground (arith, find_named-insert_new is_kind name k e m)

find_named-insert_other :
    (is_kind : EntityKind → Bool) (name : String) (k : EntityId) (e : Entity)
    (m : BTreeMap EntityId Entity)
    → get k m ≡ none
    → fits is_kind name e ≡ false
    → find_named is_kind name (insert k e m) ≡ find_named is_kind name m
unfolding find_named insert get
find_named-insert_other is_kind name k e [] free other = rw other refl
find_named-insert_other is_kind name k e ((j, w) ∷ m) free other =
    ground (arith, find_named-insert_other is_kind name k e m, nat_key.eq_of_cmp k j, ≟_iff j k)

find_named-replace :
    (is_kind : EntityKind → Bool) (name : String) (k : EntityId) (e d : Entity)
    (m : BTreeMap EntityId Entity)
    → get k m ≡ some d
    → e.id ≡ d.id
    → fits is_kind name e ≡ fits is_kind name d
    → find_named is_kind name (replace k e m) ≡ find_named is_kind name m
unfolding find_named replace get
find_named-replace is_kind name k e d [] there id same = refl
find_named-replace is_kind name k e d ((j, w) ∷ m) there id same =
    ground (arith, find_named-replace is_kind name k e d m, ≟_iff j k)

get-replace-none :
    (k j : EntityId) (e : Entity) (m : BTreeMap EntityId Entity)
    → get j m ≡ none
    → get j (replace k e m) ≡ none
unfolding get replace
get-replace-none k j e [] free = refl
get-replace-none k j e ((i, w) ∷ m) free = ground (arith, get-replace-none k j e m, ≟_iff i k)

-- The ids from the next one on are free, and there are `count` of them below 2^64.
pub record HasRoom (count : ℕ) (s : WorldState) : Type 0 where
  pub free : (k : ℕ) → s.next_entity_id ≤ k → get k s.entities ≡ none
  pub room : s.next_entity_id + count < u64_mod

-- Who is found as Mira and as Rowan.
pub record Cast (mira rowan : Option EntityId) (s : WorldState) : Type 0 where
  pub is_mira : find_named_entity s is_actor "Mira" ≡ mira
  pub is_rowan : find_named_entity s is_actor "Rowan" ≡ rowan

-- What holds of the value and the world of a success.
abbrev pub Ends {ℓ} : {A : Type ℓ} → (A → WorldState → Type 0) → Outcome A → Type 0
Ends P (ok a, s) = P a s
Ends P (err e, s) = Unit

-- A world with one more entity, as `create_entity` leaves it.
abbrev pub made : Entity → WorldState → WorldState
made e s = record s {
  next_entity_id = wrapping_add s.next_entity_id 1;
  entities = insert s.next_entity_id e s.entities;
  head = wrapping_add s.head 1;
}

made-HasRoom :
    (count : ℕ) (e : Entity) (s : WorldState) → HasRoom (count + 1) s → HasRoom count (made e s)
made-HasRoom count e s h = record {
  free = λ k above.
      get-insert s.next_entity_id k e s.entities
      ∙ ground (arith, ≟_iff s.next_entity_id k, h.free k, h.room);
  room = omega (arith, h.room);
}

-- The room for new entities, and who is found.
abbrev pub Staged : ℕ → Option EntityId → Option EntityId → WorldState → Type 0
Staged count mira rowan s = HasRoom count s × Cast mira rowan s

next_free : {count : ℕ} {s : WorldState} → HasRoom count s → get s.next_entity_id s.entities ≡ none
next_free {count} {s} h = h.free s.next_entity_id (omega arith)

pub made-extra :
    (count : ℕ) (mira rowan : Option EntityId) (e : Entity) (s : WorldState)
    → fits is_actor "Mira" e ≡ false
    → fits is_actor "Rowan" e ≡ false
    → Staged (count + 1) mira rowan s
    → Staged count mira rowan (made e s)
unfolding find_named_entity
made-extra count mira rowan e s is_other is_no_rowan (room, cast) = (
  made-HasRoom count e s room,
  record {
    is_mira =
        find_named-insert_other is_actor "Mira" s.next_entity_id e s.entities (next_free room)
          is_other
        ∙ cast.is_mira;
    is_rowan =
        find_named-insert_other is_actor "Rowan" s.next_entity_id e s.entities (next_free room)
          is_no_rowan
        ∙ cast.is_rowan;
  },
)

pub made-mira :
    (count : ℕ) (rowan : Option EntityId) (e : Entity) (s : WorldState)
    → fits is_actor "Mira" e ≡ true
    → fits is_actor "Rowan" e ≡ false
    → Staged (count + 1) none rowan s
    → Staged count (some e.id) rowan (made e s)
unfolding find_named_entity
made-mira count rowan e s is_hers is_other (room, cast) = (
  made-HasRoom count e s room,
  record {
    is_mira =
        find_named-insert_new is_actor "Mira" s.next_entity_id e s.entities cast.is_mira is_hers;
    is_rowan =
        find_named-insert_other is_actor "Rowan" s.next_entity_id e s.entities (next_free room)
          is_other
        ∙ cast.is_rowan;
  },
)

pub made-rowan :
    (count : ℕ) (mira : Option EntityId) (e : Entity) (s : WorldState)
    → fits is_actor "Mira" e ≡ false
    → fits is_actor "Rowan" e ≡ true
    → Staged (count + 1) mira none s
    → Staged count mira (some e.id) (made e s)
unfolding find_named_entity
made-rowan count mira e s is_other is_hers (room, cast) = (
  made-HasRoom count e s room,
  record {
    is_mira =
        find_named-insert_other is_actor "Mira" s.next_entity_id e s.entities (next_free room)
          is_other
        ∙ cast.is_mira;
    is_rowan =
        find_named-insert_new is_actor "Rowan" s.next_entity_id e s.entities cast.is_rowan is_hers;
  },
)

required :
    (P : EntityId → WorldState → Type 0) (s : WorldState) (a b : Bool) (e f : Error)
    (made' : EntityId × WorldState)
    → P made'.0 made'.1
    → Ends P (commit s (require a e >> (require b f >> ok made')))
required P s true true e f m h = h
required P s true false e f m h = tt
required P s false b e f m h = tt

pub create_entity-Ends :
    (P : EntityId → WorldState → Type 0) (s : WorldState) (kind : EntityKind) (owner : String)
    (contract : Option String) (location : Option EntityId) (attributes : BTreeMap String Value)
    → P s.next_entity_id (
        made
          (record {
            id = s.next_entity_id;
            kind = kind;
            owner = owner;
            location = location;
            contract = contract;
            attributes = attributes;
          })
          s)
    → Ends P (create_entity s kind owner contract location attributes)
unfolding create_entity
create_entity-Ends P s kind owner contract location attributes h =
    required P s (contains_key owner s.accounts)
      (elim contract [ none ↦ true | some c ↦ contains_key c s.contracts ]) account_not_found
      contract_not_found _ h

-- The exits of a zone, or of whatever entity it is, change no name.
pub set_exits-Ends :
    (count : ℕ) (mira rowan : Option EntityId) (id : EntityId) (exits : Value) (s : WorldState)
    → Staged count mira rowan s
    → Ends (λ _. Staged count mira rowan) (set_exits id exits s)
unfolding set_exits find_named_entity
set_exits-Ends count mira rowan id exits s (room, cast) = go (get id s.entities) refl
  where
    named :
        (name : String) (d : Entity)
        → fits is_actor name (record d { attributes = insert "exits" exits d.attributes })
          ≡ fits is_actor name d
    named name d =
        ap
          (λ v.
            is_actor d.kind
            && elim (and_then v as_str) as (λ _. Bool) [ none ↦ false | some found ↦ found ≟ name ])
          (get-insert "exits" "name" exits d.attributes)

    go :
        (o : Option Entity)
        → get id s.entities ≡ o
        → Ends {A = Unit {0}}
            (λ _. Staged count mira rowan)
            (elim o as (λ _. Outcome (Unit {0})) [
              | none ↦ (err panicked, s)
              | some entity ↦ (
                ok tt,
                record s {
                  entities =
                      replace id
                        (record entity { attributes = insert "exits" exits entity.attributes })
                        s.entities;
                },
              )
            ])
    go none there = tt
    go (some d) there = (
      record {
        free = λ k above. get-replace-none id k _ s.entities (room.free k above);
        room = room.room;
      },
      record {
        is_mira =
            find_named-replace is_actor "Mira" id _ d s.entities there refl (named "Mira" d)
            ∙ cast.is_mira;
        is_rowan =
            find_named-replace is_actor "Rowan" id _ d s.entities there refl (named "Rowan" d)
            ∙ cast.is_rowan;
      },
    )
