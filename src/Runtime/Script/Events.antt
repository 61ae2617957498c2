-- ===== src/Runtime/Script/Events.antt =====
-- src/runtime.rs: the event log under the host functions, and the parts of the world that they
-- do not write.
use mathlib.Core.List.{append-nil, append_assoc}
use aomori.Prelude.{
  ℕ, ◌≡◌, refl, sym, ◌∙◌, ap, String, false, List, [], ◌∷◌, ◌++◌, text_key, ◌≟◌, All, All-append,
}
use aomori.Model.{WorldState, WorldEvent}
use aomori.Model.Events.{mem_text}
use aomori.Runtime.Host.{Context}
use aomori.Runtime.Host.Entities.{reserved_kinds}
use aomori.Runtime.Host.Effects.{
  HostStep, idle, walked, relocated, taken, dropped, dropped_missing, transferred, spawned, updated,
  emitted, accepted_quest, completed_quest, credited,
}
use aomori.Runtime.Script.{Script, run_script}
use aomori.Runtime.Script.Trace.{run_script-HostSteps, HostSteps-keep}

-- An event of a script: its kind is not empty and not one of the runtime's own.
abbrev pub IsUnreserved : WorldEvent → Type 0
IsUnreserved event = ((event.kind ≟ "") ≡ false) × (mem_text event.kind reserved_kinds ≡ false)

-- The log of `t` is the log of `s` with events of scripts behind it.
pub record EventsKept (s t : WorldState) : Type 0 where
  pub new : List WorldEvent
  pub appended : t.events ≡ s.events ++ new
  pub unreserved : All IsUnreserved new

-- The parts of the world that no host function writes.
pub record FixedKept (s t : WorldState) : Type 0 where
  pub contracts : t.contracts ≡ s.contracts
  pub quests : t.quests ≡ s.quests
  pub receipts : t.receipts ≡ s.receipts

module _ {s₀ : WorldState} where
  EventsKept-same : {s t : WorldState} → t.events ≡ s.events → EventsKept s₀ s → EventsKept s₀ t
  EventsKept-same e h = record { new = h.new; appended = e ∙ h.appended; unreserved = h.unreserved }

  EventsKept-emit :
      {s t : WorldState} (event : WorldEvent)
      → IsUnreserved event
      → t.events ≡ s.events ++ event ∷ []
      → EventsKept s₀ s
      → EventsKept s₀ t
  EventsKept-emit event free e h = record {
    new = h.new ++ event ∷ [];
    appended = rw (e, h.appended) (append_assoc s₀.events h.new (event ∷ []));
    unreserved = All-append IsUnreserved h.new (event ∷ []) h.unreserved (free, tt);
  }

  EventsKept-step :
      {ctx : Context} (s t : WorldState) → HostStep ctx s t → EventsKept s₀ s → EventsKept s₀ t
  EventsKept-step s t (idle e) = EventsKept-same (ap (λ v. v.events) e)
  EventsKept-step s t (walked _ _ w) = EventsKept-same (ap (λ v. v.events) w.7)
  EventsKept-step s t (relocated _ _ w) = EventsKept-same (ap (λ v. v.events) w.6)
  EventsKept-step s t (taken _ w) = EventsKept-same (ap (λ v. v.events) w.7)
  EventsKept-step s t (dropped _ w) = EventsKept-same (ap (λ v. v.events) w.9)
  EventsKept-step s t (dropped_missing _ w) = EventsKept-same (ap (λ v. v.events) w.6)
  EventsKept-step s t (transferred _ _ w) = EventsKept-same (ap (λ v. v.events) w.14)
  EventsKept-step s t (spawned _ _ _ w) = EventsKept-same (ap (λ v. v.events) w.9)
  EventsKept-step s t (updated _ _ _ w) = EventsKept-same (ap (λ v. v.events) w.7)
  EventsKept-step s t (emitted kind id _ w) =
      EventsKept-emit
        (record { id = s.next_event_id; head = s.head; kind = kind; entity_id = id; payload = w.0 })
        (w.3, w.4) (ap (λ v. v.events) w.5)
  EventsKept-step s t (accepted_quest _ w) = EventsKept-same (ap (λ v. v.events) w.5)
  EventsKept-step s t (completed_quest _ w) = EventsKept-same (ap (λ v. v.events) w.12)
  EventsKept-step s t (credited _ w) = EventsKept-same (ap (λ v. v.events) w.5)

  FixedKept-same :
      {s t : WorldState}
      → t.contracts ≡ s.contracts
      → t.quests ≡ s.quests
      → t.receipts ≡ s.receipts
      → FixedKept s₀ s
      → FixedKept s₀ t
  FixedKept-same c q r h = record {
    contracts = c ∙ h.contracts;
    quests = q ∙ h.quests;
    receipts = r ∙ h.receipts;
  }

  FixedKept-of :
      {s t u : WorldState}
      → t ≡ u
      → u.contracts ≡ s.contracts
      → u.quests ≡ s.quests
      → u.receipts ≡ s.receipts
      → FixedKept s₀ s
      → FixedKept s₀ t
  FixedKept-of e c q r =
      FixedKept-same (ap (λ v. v.contracts) e ∙ c) (ap (λ v. v.quests) e ∙ q)
        (ap (λ v. v.receipts) e ∙ r)

  FixedKept-step :
      {ctx : Context} (s t : WorldState) → HostStep ctx s t → FixedKept s₀ s → FixedKept s₀ t
  FixedKept-step s t (idle e) = FixedKept-of e refl refl refl
  FixedKept-step s t (walked _ _ w) = FixedKept-of w.7 refl refl refl
  FixedKept-step s t (relocated _ _ w) = FixedKept-of w.6 refl refl refl
  FixedKept-step s t (taken _ w) = FixedKept-of w.7 refl refl refl
  FixedKept-step s t (dropped _ w) = FixedKept-of w.9 refl refl refl
  FixedKept-step s t (dropped_missing _ w) = FixedKept-of w.6 refl refl refl
  FixedKept-step s t (transferred _ _ w) = FixedKept-of w.14 refl refl refl
  FixedKept-step s t (spawned _ _ _ w) = FixedKept-of w.9 refl refl refl
  FixedKept-step s t (updated _ _ _ w) = FixedKept-of w.7 refl refl refl
  FixedKept-step s t (emitted _ _ _ w) = FixedKept-of w.5 refl refl refl
  FixedKept-step s t (accepted_quest _ w) = FixedKept-of w.5 refl refl refl
  FixedKept-step s t (completed_quest _ w) = FixedKept-of w.12 refl refl refl
  FixedKept-step s t (credited _ w) = FixedKept-of w.5 refl refl refl

module _ (f64_of : ℕ → ℕ) (ctx : Context) (script : Script) (s : WorldState)
    (messages : List String) where
  -- Whatever a script calls, the log only grows, and each event that the script adds has a kind that
  -- is not empty and not reserved for the runtime.
  pub run_script-EventsKept : EventsKept s (run_script f64_of ctx script s messages).1
  run_script-EventsKept =
      HostSteps-keep (EventsKept s) (λ u v. EventsKept-step u v)
        (record { new = []; appended = sym (append-nil s.events); unreserved = tt })
        (run_script-HostSteps f64_of ctx script s messages)

  -- Whatever a script calls, the contracts, the quest definitions and the receipts stay the same.
  pub run_script-FixedKept : FixedKept s (run_script f64_of ctx script s messages).1
  run_script-FixedKept =
      HostSteps-keep (FixedKept s) (λ u v. FixedKept-step u v)
        (record { contracts = refl; quests = refl; receipts = refl })
        (run_script-HostSteps f64_of ctx script s messages)
