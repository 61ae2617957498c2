-- ===== src/Model/Sound/References.antt =====
-- src/model.rs: the references that `validate_references` accepts.
use aomori.Prelude.{
  ℕ, ◌≡◌, ◌<◌, ◌≤◌, refl, String, Bool, true, false, none, some, [], ◌∷◌, arith, All, text_key,
  nat_key, ◌≟◌, ≟_iff, inl, inr, Option-cases,
}
use aomori.Map.{BTreeMap, get, All-get}
use aomori.Result.{
  Error, next_entity_id_not_greater, ok, >>-eq-ok, for_each, for_each_iff, refuse_if,
}
use aomori.Model.{
  WorldState, Account, Contract, Entity, EntityId, QuestProgress, QuestDefinition, Receipt, actor,
}
use aomori.Model.References.{
  last_key, check_account, check_contract, check_entity, check_progress, check_receipt,
  id_exhausted, validate_references,
}
use aomori.External.{External}
use aomori.Text.{contract_key, quest_progress_key}

-- The keys of a `BTreeMap` over ids, in their order.
abbrev pub Ascending {ℓ} : {V : Type ℓ} → BTreeMap ℕ V → Type 0
Ascending [] = Unit {0}
Ascending ((k, v) ∷ []) = Unit {0}
Ascending ((k, v) ∷ (j, w) ∷ m) = (k < j) × Ascending ((j, w) ∷ m)

-- In such a map no key is above the last one.
keys-le-last {ℓ} :
    {V : Type ℓ} (m : BTreeMap ℕ V) (last : ℕ)
    → Ascending m
    → last_key m ≡ some last
    → All (λ e. e.0 ≤ last) m
keys-le-last [] last h e = cc
keys-le-last ((k, v) ∷ []) last h e = ground arith
keys-le-last ((k, v) ∷ (j, w) ∷ m) last h e =
    let rest = keys-le-last ((j, w) ∷ m) last h.1 e in (omega (arith, h.0, rest.0), rest)

last_key-ne-none {ℓ} : {V : Type ℓ} (e : ℕ × V) (m : BTreeMap ℕ V) → last_key (e ∷ m) ≡ none → ⊥
last_key-ne-none (k, v) [] h = cc
last_key-ne-none (k, v) ((j, w) ∷ m) h = last_key-ne-none (j, w) m h

-- A map with no last key has no entry.
get_of_no_last_key {ℓ} :
    {V : Type ℓ} (k : ℕ) {v : V} (m : BTreeMap ℕ V) → last_key m ≡ none → get k m ≡ some v → ⊥
unfolding get
get_of_no_last_key k [] h e = cc
get_of_no_last_key k (x ∷ m) h e = last_key-ne-none x m h

refuse_if-eq-ok : (b : Bool) (e : Error) → refuse_if b e ≡ ok tt → b ≡ false
refuse_if-eq-ok true e h = cc
refuse_if-eq-ok false e h = refl

module _ (ext : External) (s : WorldState) where
  pub record ReferencesValid : Type 0 where
    pub account_names :
        (k : String) (a : Account) → get k s.accounts ≡ some a → (k ≡ a.name) × ((k ≟ "") ≡ false)
    pub contract_keys :
        (k : String) (c : Contract)
        → get k s.contracts ≡ some c
        → (k ≡ contract_key c.name c.version) × (c.source_hash ≡ ext.hash_text c.source)
    pub entity_ids : (k : EntityId) (e : Entity) → get k s.entities ≡ some e → k ≡ e.id
    pub entity_owners :
        (k : EntityId) (e : Entity)
        → get k s.entities ≡ some e
        → (a : Account) × (get e.owner s.accounts ≡ some a)
    pub entity_contracts :
        (k : EntityId) (e : Entity) (name : String)
        → get k s.entities ≡ some e
        → e.contract ≡ some name
        → (c : Contract) × (get name s.contracts ≡ some c)
    pub ids_below :
        (k : EntityId) (e : Entity)
        → Ascending s.entities
        → get k s.entities ≡ some e
        → k < s.next_entity_id
    pub progress_keys :
        (k : String) (p : QuestProgress)
        → get k s.quest_progress ≡ some p
        → (k ≡ quest_progress_key p.actor_id p.quest_id)
          × ((e : Entity) × (get p.actor_id s.entities ≡ some e) × (e.kind ≡ actor))
          × ((q : QuestDefinition) × (get p.quest_id s.quests ≡ some q))
    pub receipt_keys :
        (k : String) (r : Receipt)
        → get k s.receipts ≡ some r
        → (k ≡ r.tx_id) × ((a : Account) × (get r.from s.accounts ≡ some a))

  account_sound :
      (k : String) (a : Account)
      → check_account ext (k, a) ≡ ok tt
      → (k ≡ a.name) × ((k ≟ "") ≡ false)
  unfolding check_account
  account_sound k a h = ground (arith, ≟_iff k a.name)

  contract_sound :
      (k : String) (c : Contract)
      → check_contract ext (k, c) ≡ ok tt
      → (k ≡ contract_key c.name c.version) × (c.source_hash ≡ ext.hash_text c.source)
  unfolding check_contract
  contract_sound k c h =
      ground (
        arith,
        ≟_iff k (contract_key c.name c.version),
        ≟_iff c.source_hash (ext.hash_text c.source),
      )

  entity_sound :
      (k : EntityId) (e : Entity)
      → check_entity ext s (k, e) ≡ ok tt
      → (k ≡ e.id) × ((a : Account) × (get e.owner s.accounts ≡ some a))
  unfolding check_entity
  entity_sound k e h = ground arith

  entity_contract_sound :
      (k : EntityId) (e : Entity) (name : String)
      → check_entity ext s (k, e) ≡ ok tt
      → e.contract ≡ some name
      → (c : Contract) × (get name s.contracts ≡ some c)
  unfolding check_entity
  entity_contract_sound k e name h f = ground arith

  progress_sound :
      (k : String) (p : QuestProgress)
      → check_progress ext s (k, p) ≡ ok tt
      → (k ≡ quest_progress_key p.actor_id p.quest_id)
        × ((e : Entity) × (get p.actor_id s.entities ≡ some e) × (e.kind ≡ actor))
        × ((q : QuestDefinition) × (get p.quest_id s.quests ≡ some q))
  unfolding check_progress
  progress_sound k p h = ground (arith, ≟_iff k (quest_progress_key p.actor_id p.quest_id))

  receipt_sound :
      (k : String) (r : Receipt)
      → check_receipt ext s (k, r) ≡ ok tt
      → (k ≡ r.tx_id) × ((a : Account) × (get r.from s.accounts ≡ some a))
  unfolding check_receipt
  receipt_sound k r h = ground (arith, ≟_iff k r.tx_id)

  next_id_sound :
      (k : EntityId) {e : Entity}
      → id_exhausted s ≡ false
      → Ascending s.entities
      → get k s.entities ≡ some e
      → k < s.next_entity_id
  next_id_sound k h sorted found = elim (Option-cases (last_key s.entities)) [
    | inl empty ↦ absurd (get_of_no_last_key k s.entities empty found)
    | inr (last, e) ↦
        let below =
          All-get (λ f. f.0 ≤ last) k s.entities (keys-le-last s.entities last sorted e) found in
        ground arith
  ]

  -- A world that passes has keys that agree with the names and ids under them, and every owner,
  -- contract, actor, quest and sender that is referred to; with the entities in the order of their
  -- ids, the next id is above all of them.
  pub validate_references_sound : validate_references ext s ≡ ok tt → ReferencesValid
  unfolding validate_references
  validate_references_sound h =
      let (accounts, h1) = >>-eq-ok (for_each s.accounts (check_account ext)) _ h in
      let (contracts, h2) = >>-eq-ok (for_each s.contracts (check_contract ext)) _ h1 in
      let (entities, h3) = >>-eq-ok (for_each s.entities (check_entity ext s)) _ h2 in
      let (next, h4) = >>-eq-ok (refuse_if (id_exhausted s) next_entity_id_not_greater) _ h3 in
      let (progress, receipts) = >>-eq-ok (for_each s.quest_progress (check_progress ext s)) _ h4 in
      let each_account = (for_each_iff s.accounts (check_account ext)).0 accounts in
      let each_contract = (for_each_iff s.contracts (check_contract ext)).0 contracts in
      let each_entity = (for_each_iff s.entities (check_entity ext s)).0 entities in
      let each_progress = (for_each_iff s.quest_progress (check_progress ext s)).0 progress in
      let each_receipt = (for_each_iff s.receipts (check_receipt ext s)).0 receipts in
      record {
        account_names = λ k a g. account_sound k a (All-get _ k s.accounts each_account g);
        contract_keys = λ k c g. contract_sound k c (All-get _ k s.contracts each_contract g);
        entity_ids = λ k e g. (entity_sound k e (All-get _ k s.entities each_entity g)).0;
        entity_owners = λ k e g. (entity_sound k e (All-get _ k s.entities each_entity g)).1;
        entity_contracts =
            λ k e name g f. entity_contract_sound k e name (All-get _ k s.entities each_entity g) f;
        ids_below = λ k e sorted g.
            next_id_sound k (refuse_if-eq-ok (id_exhausted s) next_entity_id_not_greater next)
              sorted g;
        progress_keys = λ k p g. progress_sound k p (All-get _ k s.quest_progress each_progress g);
        receipt_keys = λ k r g. receipt_sound k r (All-get _ k s.receipts each_receipt g);
      }
