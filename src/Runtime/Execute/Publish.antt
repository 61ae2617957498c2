-- ===== src/Runtime/Execute/Publish.antt =====
-- src/runtime.rs: the part of `execute_internal` that writes the events of a command.
use mathlib.Core.List.{append-nil, append_assoc}
use aomori.Prelude.{
  ◌≡◌, refl, sym, ◌∙◌, String, Option, none, some, List, [], ◌∷◌, ◌++◌, wrapping_add, true, All,
  All-append, text_key,
}
use aomori.Map.{get}
use aomori.Json.{Value}
use aomori.Model.{WorldState, WorldEvent, EntityId, QuestProgress}
use aomori.Model.Events.{mem_text}
use aomori.Runtime.World.{push_event}
use aomori.Runtime.Host.Entities.{reserved_kinds}
use aomori.Runtime.Changes.{push_entity_changes, push_quest_change, push_quest_changes}
use aomori.Runtime.Execute.{publish}

-- Only the log and its next id differ, and the log is longer by events of the runtime.
pub record Logged (s t : WorldState) : Type 0 where
  pub accounts : t.accounts ≡ s.accounts
  pub entities : t.entities ≡ s.entities
  pub contracts : t.contracts ≡ s.contracts
  pub receipts : t.receipts ≡ s.receipts
  pub quests : t.quests ≡ s.quests
  pub quest_progress : t.quest_progress ≡ s.quest_progress
  pub inventories : t.inventories ≡ s.inventories
  pub next_entity_id : t.next_entity_id ≡ s.next_entity_id
  pub head : t.head ≡ s.head
  pub new : List WorldEvent
  pub appended : t.events ≡ s.events ++ new
  pub reserved : All (λ e. mem_text e.kind reserved_kinds ≡ true) new

pub Logged-refl : (s : WorldState) → Logged s s
Logged-refl s = record {
  accounts = refl;
  entities = refl;
  contracts = refl;
  receipts = refl;
  quests = refl;
  quest_progress = refl;
  inventories = refl;
  next_entity_id = refl;
  head = refl;
  new = [];
  appended = sym (append-nil s.events);
  reserved = tt;
}

pub Logged-trans : {s t u : WorldState} → Logged s t → Logged t u → Logged s u
Logged-trans {s} h k = record {
  accounts = k.accounts ∙ h.accounts;
  entities = k.entities ∙ h.entities;
  contracts = k.contracts ∙ h.contracts;
  receipts = k.receipts ∙ h.receipts;
  quests = k.quests ∙ h.quests;
  quest_progress = k.quest_progress ∙ h.quest_progress;
  inventories = k.inventories ∙ h.inventories;
  next_entity_id = k.next_entity_id ∙ h.next_entity_id;
  head = k.head ∙ h.head;
  new = h.new ++ k.new;
  appended = rw (k.appended, h.appended) (append_assoc s.events h.new k.new);
  reserved = All-append _ h.new k.new h.reserved k.reserved;
}

pub push_event-Logged :
    (s : WorldState) (kind : String) (id : Option EntityId) (payload : Value)
    → mem_text kind reserved_kinds ≡ true
    → Logged s (push_event s kind id payload)
unfolding push_event
push_event-Logged s kind id payload own = record {
  accounts = refl;
  entities = refl;
  contracts = refl;
  receipts = refl;
  quests = refl;
  quest_progress = refl;
  inventories = refl;
  next_entity_id = refl;
  head = refl;
  new =
      record { id = s.next_event_id; head = s.head; kind = kind; entity_id = id; payload = payload }
      ∷ [];
  appended = refl;
  reserved = (own, tt);
}

push_entity_changes-Logged :
    (ids : List EntityId) (original s : WorldState) → Logged s (push_entity_changes original s ids)
unfolding push_entity_changes
push_entity_changes-Logged [] original s = Logged-refl s
push_entity_changes-Logged (id ∷ ids) original s =
    Logged-trans (push_event-Logged s _ _ _ refl) (push_entity_changes-Logged ids original _)

push_quest_change-Logged :
    (s : WorldState) (p : Option QuestProgress) → Logged s (push_quest_change s p)
unfolding push_quest_change
push_quest_change-Logged s none = Logged-refl s
push_quest_change-Logged s (some p) = push_event-Logged s _ _ _ refl

push_quest_changes-Logged :
    (keys : List String) (s : WorldState) → Logged s (push_quest_changes s keys)
unfolding push_quest_changes
push_quest_changes-Logged [] s = Logged-refl s
push_quest_changes-Logged (key ∷ keys) s =
    Logged-trans (push_quest_change-Logged s (get key s.quest_progress))
      (push_quest_changes-Logged keys (push_quest_change s (get key s.quest_progress)))

-- Publishing a command raises the head by one, adds events of the runtime's own kinds behind the log,
-- and leaves the rest of the world as the script left it.
pub publish-Logged :
    (original next : WorldState) (id : EntityId) (action : String)
    → Logged (record next { head = wrapping_add next.head 1 }) (publish original next id action)
unfolding publish
publish-Logged original next id action =
    Logged-trans (push_entity_changes-Logged _ original _)
      (Logged-trans (push_quest_changes-Logged _ _) (push_event-Logged _ _ _ _ refl))
