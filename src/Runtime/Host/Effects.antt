-- ===== src/Runtime/Host/Effects.antt =====
-- What one host call may do to the world: the writes of each host function with the facts that hold
-- when it writes, and the relation of a world before a call to the world after it.
use aomori.Prelude.{
  ℕ, ◌<◌, ◌+◌, ◌≡◌, String, true, false, Option, none, some, List, [], ◌∷◌, ◌++◌, text_key, nat_key,
  ◌≟◌, wrapping_add, u64_mod, if◌then◌else◌,
}
use aomori.Map.{BTreeMap, get, contains_key, insert}
use aomori.Json.{Value}
use aomori.Lua.{LuaValue, lua_to_json}
use aomori.Result.{ok}
use aomori.Model.{
  WorldState, Account, Entity, EntityId, EntityKind, item, actor, zone, QuestDefinition,
  QuestProgress, accepted, completed,
}
use aomori.Model.Events.{mem_text}
use aomori.Model.Inventories.{contains}
use aomori.Text.{quest_progress_key}
use aomori.Runtime.Host.{Context, inventory_of}
use aomori.Runtime.Host.Items.{held_by_any, remove_first, place, push_item}
use aomori.Runtime.Host.Entities.{reserved_kinds, parse_kind, object_entries}
use aomori.Runtime.Host.Quests.{all_completed, find_item, consume}

module _ (ctx : Context) (s t : WorldState) where
  -- A write: only a command makes one, and the caller is there.
  abbrev pub Writes : Entity → Type 0
  Writes a = (ctx.command ≡ true) × (get ctx.entity_id s.entities ≡ some a)

  abbrev pub Walked : (id : EntityId) → (zone_id : EntityId) → Type 0
  Walked id zone_id =
      (e : Entity) × (z : Entity) × (ctx.command ≡ true)
      × (get id s.entities ≡ some e)
      × (e.kind ≡ actor)
      × (get zone_id s.entities ≡ some z)
      × (z.kind ≡ zone)
      × (t ≡ record s { entities = place id e z.id s.entities })

  abbrev pub Relocated : (id : EntityId) → (location : EntityId) → Type 0
  Relocated id location =
      (e : Entity) × (a : Entity) × Writes a
      × (get id s.entities ≡ some e)
      × ((e.owner ≟ a.owner) ≡ true)
      × (contains_key location s.entities ≡ true)
      × (t ≡ record s { entities = place id e location s.entities })

  abbrev pub Taken : (id : EntityId) → Type 0
  Taken id =
      (e : Entity) × (a : Entity) × Writes a
      × (get id s.entities ≡ some e)
      × (e.kind ≡ item)
      × (e.location ≡ a.location)
      × (held_by_any id s.inventories ≡ false)
      × (t ≡ record s {
        entities = place id e ctx.entity_id s.entities;
        inventories = push_item ctx.entity_id id s.inventories;
      })

  abbrev pub Dropped : (id : EntityId) → Type 0
  Dropped id =
      (a : Entity) × (location : EntityId) × (held : List EntityId) × (e : Entity) × Writes a
      × (a.location ≡ some location)
      × (get ctx.entity_id s.inventories ≡ some held)
      × (contains held id ≡ true)
      × (get id s.entities ≡ some e)
      × (t ≡ record s {
        inventories = insert ctx.entity_id (remove_first id held) s.inventories;
        entities = place id e location s.entities;
      })

  -- The fault of `drop_item`: an inventory held an id of no entity.
  abbrev pub DroppedMissing : (id : EntityId) → Type 0
  DroppedMissing id =
      (held : List EntityId) × (a : Entity) × Writes a
      × (get ctx.entity_id s.inventories ≡ some held)
      × (contains held id ≡ true)
      × (get id s.entities ≡ none)
      × (t ≡ record s { inventories = insert ctx.entity_id (remove_first id held) s.inventories })

  abbrev pub Transferred : (id : EntityId) → (target_id : EntityId) → Type 0
  Transferred id target_id =
      (held : List EntityId) × (e : Entity) × (target : Entity) × (a : Entity) × Writes a
      × (target_id ≡ ctx.entity_id → ⊥)
      × (get target_id s.entities ≡ some target)
      × (target.kind ≡ actor)
      × (target.location ≡ a.location)
      × (get ctx.entity_id s.inventories ≡ some held)
      × (contains held id ≡ true)
      × (get id s.entities ≡ some e)
      × (e.kind ≡ item)
      × (e.location ≡ some ctx.entity_id)
      × (t ≡ record s {
        inventories =
            push_item target_id id (insert ctx.entity_id (remove_first id held) s.inventories);
        entities = place id e target_id s.entities;
      })

  abbrev pub Spawned :
      (kind_text : String) → (location : Option EntityId) → (data_value : LuaValue) → Type 0
  Spawned kind_text location data_value =
      (kind : EntityKind) × (value : Value) × (attributes : BTreeMap String Value) × (a : Entity)
      × Writes a
      × (parse_kind kind_text ≡ ok kind)
      × (lua_to_json data_value ≡ ok value)
      × (object_entries value ≡ ok attributes)
      × (contains_key a.owner s.accounts ≡ true)
      × (t ≡ record s {
        next_entity_id = wrapping_add s.next_entity_id 1;
        entities =
            insert s.next_entity_id
              (record {
                id = s.next_entity_id;
                kind = kind;
                owner = a.owner;
                location = location;
                contract = none;
                attributes = attributes;
              })
              s.entities;
        head = wrapping_add s.head 1;
      })

  abbrev pub Updated : (id : EntityId) → (key : String) → (data_value : LuaValue) → Type 0
  Updated id key data_value =
      (value : Value) × (e : Entity) × (a : Entity) × Writes a
      × (lua_to_json data_value ≡ ok value)
      × (get id s.entities ≡ some e)
      × ((a.owner ≟ e.owner) ≡ true)
      × (t ≡ record s {
        entities = insert id (record e { attributes = insert key value e.attributes }) s.entities;
      })

  abbrev pub Emitted :
      (kind : String) → (entity_id : Option EntityId) → (data_value : LuaValue) → Type 0
  Emitted kind entity_id data_value =
      (payload : Value) × (ctx.command ≡ true)
      × (lua_to_json data_value ≡ ok payload)
      × ((kind ≟ "") ≡ false)
      × (mem_text kind reserved_kinds ≡ false)
      × (t ≡ record s {
        next_event_id = wrapping_add s.next_event_id 1;
        events =
            s.events
            ++ record {
              id = s.next_event_id;
              head = s.head;
              kind = kind;
              entity_id = entity_id;
              payload = payload;
            }
              ∷ [];
      })

  abbrev pub Accepted : (quest_id : String) → Type 0
  Accepted quest_id =
      (quest : QuestDefinition) × (ctx.command ≡ true)
      × (get quest_id s.quests ≡ some quest)
      × (all_completed ctx.entity_id s quest.prerequisite_quest_ids ≡ true)
      × (get (quest_progress_key ctx.entity_id quest_id) s.quest_progress ≡ none)
      × (t ≡ record s {
        quest_progress =
            insert (quest_progress_key ctx.entity_id quest_id)
              (record { quest_id = quest_id; actor_id = ctx.entity_id; status = accepted })
              s.quest_progress;
      })

  abbrev pub Credited : (credit : ℕ) → Type 0
  Credited credit =
      (a : Entity) × (account : Account) × Writes a
      × (get a.owner s.accounts ≡ some account)
      × (account.balance + credit < u64_mod)
      × (t ≡ record s {
        accounts =
            insert a.owner (record account { balance = account.balance + credit }) s.accounts;
      })

  abbrev pub Completed : (quest_id : String) → Type 0
  Completed quest_id =
      (quest : QuestDefinition) × (progress : QuestProgress) × (a : Entity) × (item_id : EntityId)
      × (account : Account) × Writes a
      × (get quest_id s.quests ≡ some quest)
      × (get (quest_progress_key ctx.entity_id quest_id) s.quest_progress ≡ some progress)
      × (progress.status ≡ accepted)
      × (find_item quest.required_item s (inventory_of ctx.entity_id s) ≡ some item_id)
      × (get a.owner s.accounts ≡ some account)
      × (account.balance + quest.reward_balance < u64_mod)
      × (t ≡ record s {
        accounts =
            insert a.owner (record account { balance = account.balance + quest.reward_balance })
              s.accounts;
        inventories =
            if quest.consume_required_item
            then (consume ctx.entity_id item_id s).inventories
            else s.inventories;
        entities =
            if quest.consume_required_item
            then (consume ctx.entity_id item_id s).entities
            else s.entities;
        quest_progress =
            insert (quest_progress_key ctx.entity_id quest_id)
              (record progress { status = completed }) s.quest_progress;
      })

-- One host call, from the world `s` to the world `t`.
pub data HostStep (ctx : Context) (s t : WorldState) : Type 0 where
  idle : t ≡ s → HostStep ctx s t
  walked : (id zone_id : EntityId) → Walked ctx s t id zone_id → HostStep ctx s t
  relocated : (id location : EntityId) → Relocated ctx s t id location → HostStep ctx s t
  taken : (id : EntityId) → Taken ctx s t id → HostStep ctx s t
  dropped : (id : EntityId) → Dropped ctx s t id → HostStep ctx s t
  dropped_missing : (id : EntityId) → DroppedMissing ctx s t id → HostStep ctx s t
  transferred : (id target_id : EntityId) → Transferred ctx s t id target_id → HostStep ctx s t
  spawned :
      (kind : String) (location : Option EntityId) (payload : LuaValue)
      → Spawned ctx s t kind location payload
      → HostStep ctx s t
  updated :
      (id : EntityId) (key : String) (payload : LuaValue)
      → Updated ctx s t id key payload
      → HostStep ctx s t
  emitted :
      (kind : String) (id : Option EntityId) (payload : LuaValue)
      → Emitted ctx s t kind id payload
      → HostStep ctx s t
  accepted_quest : (quest_id : String) → Accepted ctx s t quest_id → HostStep ctx s t
  completed_quest : (quest_id : String) → Completed ctx s t quest_id → HostStep ctx s t
  credited : (credit : ℕ) → Credited ctx s t credit → HostStep ctx s t

-- Host calls one after another.
pub data HostSteps (ctx : Context) (s : WorldState) : WorldState → Type 0 where
  done : HostSteps ctx s s
  more : {t u : WorldState} → HostSteps ctx s t → HostStep ctx t u → HostSteps ctx s u
