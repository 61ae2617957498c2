-- ===== src/Migration/Sound.antt =====
-- src/migration.rs: the outcomes of `migrate_legacy_inventories`.
use aomori.Prelude.{
  ◌+◌, ◌≡◌, refl, ap, ◌∙◌, Bool, true, false, none, List, [], ◌∷◌, All, arith, ◌⊎◌, inl, inr,
  nat_key, text_key, Option-cases,
}
use aomori.Map.{BTreeMap}
use aomori.Result.{Error, Result, ok, err, ◌>>=◌, >>=-eq-ok, Result-cases}
use aomori.Model.{WorldState, Entity, EntityId}
use aomori.Model.Inventories.{Holders, validate_inventories}
use aomori.Model.Locations.{validate_locations}
use aomori.Runtime.{commit}
use aomori.Migration.{
  legacy_inventory, collect_actors, collect_legacy_inventories, claim_item, claim_items,
  open_inventory, claim_all, migrated, migrate_legacy_inventories,
}

-- Two worlds that differ in the entities, the inventories and the head alone.
pub record Moved (s t : WorldState) : Type 0 where
  pub accounts : t.accounts ≡ s.accounts
  pub contracts : t.contracts ≡ s.contracts
  pub receipts : t.receipts ≡ s.receipts
  pub quests : t.quests ≡ s.quests
  pub quest_progress : t.quest_progress ≡ s.quest_progress
  pub events : t.events ≡ s.events
  pub next_event_id : t.next_event_id ≡ s.next_event_id
  pub next_entity_id : t.next_entity_id ≡ s.next_entity_id
  pub head : t.head ≡ s.head

Moved-refl : (s : WorldState) → Moved s s
Moved-refl s = record {
  accounts = refl;
  contracts = refl;
  receipts = refl;
  quests = refl;
  quest_progress = refl;
  events = refl;
  next_event_id = refl;
  next_entity_id = refl;
  head = refl;
}

Moved-trans : {s t u : WorldState} → Moved s t → Moved t u → Moved s u
Moved-trans h k = record {
  accounts = k.accounts ∙ h.accounts;
  contracts = k.contracts ∙ h.contracts;
  receipts = k.receipts ∙ h.receipts;
  quests = k.quests ∙ h.quests;
  quest_progress = k.quest_progress ∙ h.quest_progress;
  events = k.events ∙ h.events;
  next_event_id = k.next_event_id ∙ h.next_event_id;
  next_entity_id = k.next_entity_id ∙ h.next_entity_id;
  head = k.head ∙ h.head;
}

claim_item-Moved :
    (actor_id item_id : EntityId) (s : WorldState) {t : WorldState}
    → claim_item actor_id item_id s ≡ ok t
    → Moved s t
unfolding claim_item
claim_item-Moved actor_id item_id s h = record {
  accounts = ground arith;
  contracts = ground arith;
  receipts = ground arith;
  quests = ground arith;
  quest_progress = ground arith;
  events = ground arith;
  next_event_id = ground arith;
  next_entity_id = ground arith;
  head = ground arith;
}

open_inventory-Moved :
    (actor_id : EntityId) (s : WorldState) {t : WorldState}
    → open_inventory actor_id s ≡ ok t
    → Moved s t
unfolding open_inventory
open_inventory-Moved actor_id s h = record {
  accounts = ground arith;
  contracts = ground arith;
  receipts = ground arith;
  quests = ground arith;
  quest_progress = ground arith;
  events = ground arith;
  next_event_id = ground arith;
  next_entity_id = ground arith;
  head = ground arith;
}

same_world : {s t : WorldState} → ◌≡◌ {A = Result WorldState} (ok s) (ok t) → t ≡ s
same_world h = cc

claim_items-Moved :
    (actor_id : EntityId) (item_ids : List EntityId) (s : WorldState) {t : WorldState}
    → claim_items actor_id item_ids s ≡ ok t
    → Moved s t
unfolding claim_items
claim_items-Moved actor_id [] s h = rw (same_world h) (Moved-refl s)
claim_items-Moved actor_id (item_id ∷ item_ids) s h =
    let (u, first, rest) =
      >>=-eq-ok (claim_item actor_id item_id s) (claim_items actor_id item_ids) h in
    Moved-trans (claim_item-Moved actor_id item_id s first)
      (claim_items-Moved actor_id item_ids u rest)

claim_all-Moved :
    (migrations : List (EntityId × List EntityId)) (s : WorldState) {t : WorldState}
    → claim_all migrations s ≡ ok t
    → Moved s t
unfolding claim_all
claim_all-Moved [] s h = rw (same_world h) (Moved-refl s)
claim_all-Moved ((actor_id, item_ids) ∷ migrations) s h =
    let (v, here, rest) =
      >>=-eq-ok (open_inventory actor_id s >>= claim_items actor_id item_ids) (claim_all migrations)
        h in
    let (u, opened, claimed) =
      >>=-eq-ok (open_inventory actor_id s) (claim_items actor_id item_ids) here in
    Moved-trans (open_inventory-Moved actor_id s opened) (
      Moved-trans (claim_items-Moved actor_id item_ids u claimed)
        (claim_all-Moved migrations v rest))

-- Nothing is collected only where no actor has an old inventory.
collect_actors-none :
    (entities : BTreeMap EntityId Entity) (claimed_by : Holders) (rest : BTreeMap EntityId Entity)
    → collect_actors entities claimed_by rest ≡ ok []
    → All (λ e. legacy_inventory e.1 ≡ none) rest
unfolding collect_actors
collect_actors-none entities claimed_by [] h = tt
collect_actors-none entities claimed_by ((key, e) ∷ rest) h =
    elim (Option-cases (legacy_inventory e)) [
      | inl absent ↦
          (absent, collect_actors-none entities claimed_by rest (rw (absent, collect_actors) at h))
      | inr (value, there) ↦ absurd (ground (arith, there, h))
    ]

-- A migration that moves something: the candidate, its checks, and the head.
pub migrated-parts :
    (s : WorldState) (m : EntityId × List EntityId) (ms : List (EntityId × List EntityId))
    {r : Bool × WorldState}
    → migrated s (m ∷ ms) ≡ ok r
    → (c : WorldState) × (claim_all (m ∷ ms) s ≡ ok c)
      × (validate_locations (record c { head = c.head + 1 }) ≡ ok tt)
      × (validate_inventories (record c { head = c.head + 1 }) ≡ ok tt)
      × (r ≡ (true, record c { head = c.head + 1 }))
unfolding migrated
migrated-parts s m ms h = ground arith

-- The world `t` after a migration of `s`: one more head, the entities and inventories checked, and
-- the rest as it was.
pub record Migrated (s t : WorldState) : Type 0 where
  pub moved : (c : WorldState) × Moved s c × (t ≡ record c { head = c.head + 1 })
  pub locations : validate_locations t ≡ ok tt
  pub inventories : validate_inventories t ≡ ok tt

migrated-Migrated :
    (s : WorldState) (m : EntityId × List EntityId) (ms : List (EntityId × List EntityId))
    {r : Bool × WorldState}
    → migrated s (m ∷ ms) ≡ ok r
    → (r.0 ≡ true) × Migrated s r.1
migrated-Migrated s m ms h =
    let (c, claimed, locations, inventories, e) = migrated-parts s m ms h in
    let world = ap (λ r. r.1) e in
    (
      ap (λ r. r.0) e,
      record {
        moved = (c, claim_all-Moved (m ∷ ms) s claimed, world);
        locations = ap validate_locations world ∙ locations;
        inventories = ap validate_inventories world ∙ inventories;
      },
    )

commit-err {ℓ} :
    {A : Type ℓ} (s : WorldState) (r : Result (A × WorldState)) (e : Error)
    → r ≡ err e
    → commit s r ≡ (err e, s)
commit-err s r e h = rw h refl

commit-ok {ℓ} :
    {A : Type ℓ} (s : WorldState) (r : Result (A × WorldState)) (a : A × WorldState)
    → r ≡ ok a
    → commit s r ≡ (ok a.0, a.1)
commit-ok s r a h = rw h refl

nothing_moved :
    (s : WorldState)
    → collect_legacy_inventories s ≡ ok []
    → (commit s (migrated s []) ≡ (ok false, s)) × All (λ e. legacy_inventory e.1 ≡ none) s.entities
unfolding migrated collect_legacy_inventories
nothing_moved s h = (refl, collect_actors-none s.entities [] s.entities h)

outcome :
    (s : WorldState) (migrations : List (EntityId × List EntityId))
    → collect_legacy_inventories s ≡ ok migrations
    → let r = commit s (migrated s migrations) in
      ((e : Error) × (r ≡ (err e, s)))
      ⊎ (((r ≡ (ok false, s)) × All (λ e. legacy_inventory e.1 ≡ none) s.entities)
          ⊎ ((r.0 ≡ ok true) × Migrated s r.1))
outcome s [] collected = inr (inl (nothing_moved s collected))
outcome s (m ∷ ms) collected = elim (Result-cases (migrated s (m ∷ ms))) [
  | inl (r, done) ↦
      let (yes_moved, good) = migrated-Migrated s m ms done in
      inr (inr (rw (commit-ok s (migrated s (m ∷ ms)) r done) (ap ok yes_moved, good)))
  | inr (e, failed) ↦ inl (e, commit-err s (migrated s (m ∷ ms)) e failed)
]

-- A migration has one of three outcomes: an error, with the world as it was; `false`, with the world
-- as it was, where no actor has an old inventory; or `true`, with a world of which the locations and
-- the inventories pass the validation, that has one more head and differs otherwise in entities and
-- inventories alone.
pub migrate_legacy_inventories-cases :
    (s : WorldState)
    → let r = migrate_legacy_inventories s in
      ((e : Error) × (r ≡ (err e, s)))
      ⊎ (((r ≡ (ok false, s)) × All (λ e. legacy_inventory e.1 ≡ none) s.entities)
          ⊎ ((r.0 ≡ ok true) × Migrated s r.1))
unfolding migrate_legacy_inventories
migrate_legacy_inventories-cases s = elim (Result-cases (collect_legacy_inventories s)) [
  | inl (migrations, collected) ↦ rw collected (outcome s migrations collected)
  | inr (e, failed) ↦ inl (e, rw failed refl)
]
