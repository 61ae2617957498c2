-- ===== src/Migration/Ids.antt =====
-- src/migration.rs: the ids that a migration leaves free.
use aomori.Prelude.{
  ◌≡◌, refl, sym, ◌∙◌, Option, none, some, Bool, List, [], ◌∷◌, arith, nat_key, ≟_iff,
}
use mathlib.Core.Path.{subst}
use aomori.Map.{BTreeMap, get, insert, get-insert}
use aomori.Result.{Result, ok, err, ◌>>=◌, >>=-eq-ok, ok_or, panicked}
use aomori.Model.{WorldState, Entity, EntityId}
use aomori.Runtime.{commit}
use aomori.Migration.Sound.{migrated-parts}
use aomori.Migration.{
  collect_legacy_inventories, claim_item, claim_items, open_inventory, claim_all, migrated,
  migrate_legacy_inventories,
}

-- The same next id, and no entity under an id that had none.
pub record IdsKept (s t : WorldState) : Type 0 where
  pub next_id : t.next_entity_id ≡ s.next_entity_id
  pub still_free : (k : EntityId) → get k s.entities ≡ none → get k t.entities ≡ none

pub IdsKept-refl : (s : WorldState) → IdsKept s s
IdsKept-refl s = record { next_id = refl; still_free = λ k free. free }

pub IdsKept-trans : {s t u : WorldState} → IdsKept s t → IdsKept t u → IdsKept s u
IdsKept-trans h k = record {
  next_id = k.next_id ∙ h.next_id;
  still_free = λ j free. k.still_free j (h.still_free j free);
}

found_there : (o : Option Entity) (e : Entity) → ok_or o panicked ≡ ok e → o ≡ some e
found_there none e h = cc
found_there (some d) e h = ground arith

-- An entity that is written over another one takes no free id.
insert-free :
    (m : BTreeMap EntityId Entity) (id k : EntityId) (e d : Entity)
    → get id m ≡ some d
    → get k m ≡ none
    → get k (insert id e m) ≡ none
insert-free m id k e d there free = get-insert id k e m ∙ ground (arith, ≟_iff id k, there, free)

same_world : {s t : WorldState} → ◌≡◌ {A = Result WorldState} (ok s) (ok t) → t ≡ s
same_world h = cc

claim_item-IdsKept :
    (actor_id item_id : EntityId) (s : WorldState) {t : WorldState}
    → claim_item actor_id item_id s ≡ ok t
    → IdsKept s t
unfolding claim_item
claim_item-IdsKept actor_id item_id s h =
    let (found, is_found, rest) = >>=-eq-ok (ok_or (get item_id s.entities) panicked) _ h in
    subst (IdsKept s) (sym (same_world rest)) (record {
      next_id = refl;
      still_free = λ k. insert-free s.entities item_id k _ found (found_there _ found is_found);
    })

open_inventory-IdsKept :
    (actor_id : EntityId) (s : WorldState) {t : WorldState}
    → open_inventory actor_id s ≡ ok t
    → IdsKept s t
unfolding open_inventory
open_inventory-IdsKept actor_id s h =
    let (found, is_found, rest) = >>=-eq-ok (ok_or (get actor_id s.entities) panicked) _ h in
    subst (IdsKept s) (sym (same_world rest)) (record {
      next_id = refl;
      still_free = λ k. insert-free s.entities actor_id k _ found (found_there _ found is_found);
    })

claim_items-IdsKept :
    (actor_id : EntityId) (item_ids : List EntityId) (s : WorldState) {t : WorldState}
    → claim_items actor_id item_ids s ≡ ok t
    → IdsKept s t
unfolding claim_items
claim_items-IdsKept actor_id [] s h = rw (same_world h) (IdsKept-refl s)
claim_items-IdsKept actor_id (item_id ∷ item_ids) s h =
    let (u, first, rest) =
      >>=-eq-ok (claim_item actor_id item_id s) (claim_items actor_id item_ids) h in
    IdsKept-trans (claim_item-IdsKept actor_id item_id s first)
      (claim_items-IdsKept actor_id item_ids u rest)

claim_all-IdsKept :
    (migrations : List (EntityId × List EntityId)) (s : WorldState) {t : WorldState}
    → claim_all migrations s ≡ ok t
    → IdsKept s t
unfolding claim_all
claim_all-IdsKept [] s h = rw (same_world h) (IdsKept-refl s)
claim_all-IdsKept ((actor_id, item_ids) ∷ migrations) s h =
    let (v, here, rest) =
      >>=-eq-ok (open_inventory actor_id s >>= claim_items actor_id item_ids) (claim_all migrations)
        h in
    let (u, opened, claimed) =
      >>=-eq-ok (open_inventory actor_id s) (claim_items actor_id item_ids) here in
    IdsKept-trans (open_inventory-IdsKept actor_id s opened) (
      IdsKept-trans (claim_items-IdsKept actor_id item_ids u claimed)
        (claim_all-IdsKept migrations v rest))

raised-IdsKept :
    (s : WorldState) (m : EntityId × List EntityId) (ms : List (EntityId × List EntityId))
    (r : Bool × WorldState)
    → migrated s (m ∷ ms) ≡ ok r
    → IdsKept s r.1
raised-IdsKept s m ms r h =
    let (c, claimed, _, _, same) = migrated-parts s m ms h in
    let kept = claim_all-IdsKept (m ∷ ms) s claimed in
    subst (λ x. IdsKept s x.1) (sym same)
      (record { next_id = kept.next_id; still_free = kept.still_free })

migrated-IdsKept :
    (s : WorldState) (migrations : List (EntityId × List EntityId)) (r : Bool × WorldState)
    → migrated s migrations ≡ ok r
    → IdsKept s r.1
unfolding migrated
migrated-IdsKept s [] r h = subst (IdsKept s) (ground (arith, h)) (IdsKept-refl s)
migrated-IdsKept s (m ∷ ms) r h = raised-IdsKept s m ms r h

committed :
    (s : WorldState) (r : Result (Bool × WorldState))
    → ((x : Bool × WorldState) → r ≡ ok x → IdsKept s x.1)
    → IdsKept s (commit s r).1
committed s (ok x) kept = kept x refl
committed s (err e) kept = IdsKept-refl s

-- A migration, whatever its outcome, takes no free id.
pub migrate_legacy_inventories-IdsKept :
    (s : WorldState) → IdsKept s (migrate_legacy_inventories s).1
unfolding migrate_legacy_inventories
migrate_legacy_inventories-IdsKept s =
    committed s (collect_legacy_inventories s >>= migrated s) λ x h.
      let (migrations, _, rest) = >>=-eq-ok (collect_legacy_inventories s) (migrated s) h in
      migrated-IdsKept s migrations x rest
