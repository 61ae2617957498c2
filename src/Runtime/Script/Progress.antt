-- ===== src/Runtime/Script/Progress.antt =====
-- src/runtime.rs: the progress of quests under the host functions: available, accepted, completed.
use aomori.Prelude.{
  ℕ, ◌≡◌, refl, ap, ◌∙◌, String, Option, none, some, true, List, arith, text_key, ◌≟◌, ≟_iff,
  Bool-cases, inl, inr,
}
use aomori.Map.{get, insert, get-insert, get-insert_self}
use mathlib.Core.Path.{subst}
use aomori.Result.{ok, err, quest_already_completed}
use aomori.Model.{WorldState, QuestDefinition, QuestProgress, accepted, completed}
use aomori.Text.{quest_progress_key}
use aomori.Runtime.Host.{Context, Reply}
use aomori.Runtime.Host.Quests.{complete_quest}
use aomori.Runtime.Host.Effects.{
  HostStep, idle, walked, relocated, taken, dropped, dropped_missing, transferred, spawned, updated,
  emitted, accepted_quest, completed_quest, credited,
}
use aomori.Runtime.Host.Steps.{complete_quest_wrote}
use aomori.Runtime.Script.{Script, run_script}
use aomori.Runtime.Script.Trace.{run_script-HostSteps, HostSteps-keep}

-- The progress under one key before and after: once there it stays, for the same actor and quest,
-- and a completed quest stays completed.
abbrev pub ProgressStays : Option QuestProgress → Option QuestProgress → Type 0
ProgressStays none o = Unit {0}
ProgressStays (some p) o =
    (q : QuestProgress) × (o ≡ some q)
    × (q.quest_id ≡ p.quest_id)
    × (q.actor_id ≡ p.actor_id)
    × (p.status ≡ completed → q.status ≡ completed)

pub record ProgressKept (s t : WorldState) : Type 0 where
  pub at : (key : String) → ProgressStays (get key s.quest_progress) (get key t.quest_progress)

ProgressStays-refl : (o : Option QuestProgress) → ProgressStays o o
ProgressStays-refl none = tt
ProgressStays-refl (some p) = (p, refl, refl, refl, λ h. h)

ProgressStays-complete :
    (o p : Option QuestProgress) {a : QuestProgress}
    → ProgressStays o p
    → p ≡ some a
    → ProgressStays o (some (record a { status = completed }))
ProgressStays-complete none p h e = tt
ProgressStays-complete (some b) p {a} h e =
    (record a { status = completed }, refl, ground arith, ground arith, λ _. refl)

-- A new entry under a key that was free.
ProgressStays-fresh :
    (o p : Option QuestProgress) (a : QuestProgress)
    → ProgressStays o p
    → p ≡ none
    → ProgressStays o (some a)
ProgressStays-fresh none p a h e = tt
ProgressStays-fresh (some b) p a h e = cc

module _ {s₀ : WorldState} where
  ProgressKept-same :
      {s t : WorldState}
      → t.quest_progress ≡ s.quest_progress
      → ProgressKept s₀ s
      → ProgressKept s₀ t
  ProgressKept-same e h = record { at = λ key. rw e (h.at key) }

  -- A write under one key that keeps the progress there.
  ProgressKept-insert :
      {s t : WorldState} (k : String) (p : QuestProgress)
      → ProgressStays (get k s₀.quest_progress) (some p)
      → t.quest_progress ≡ insert k p s.quest_progress
      → ProgressKept s₀ s
      → ProgressKept s₀ t
  ProgressKept-insert k p there e h = record {
    at = λ key.
        rw (e, get-insert)
          (elim (Bool-cases (k ≟ key)) [
            | inl same ↦ rw (same, ← (≟_iff k key).0 same) there
            | inr other ↦ rw other (h.at key)
          ]);
  }

  ProgressKept-step :
      {ctx : Context} (s t : WorldState) → HostStep ctx s t → ProgressKept s₀ s → ProgressKept s₀ t
  ProgressKept-step s t (idle e) = ProgressKept-same (ap (λ v. v.quest_progress) e)
  ProgressKept-step s t (walked _ _ w) = ProgressKept-same (ap (λ v. v.quest_progress) w.7)
  ProgressKept-step s t (relocated _ _ w) = ProgressKept-same (ap (λ v. v.quest_progress) w.6)
  ProgressKept-step s t (taken _ w) = ProgressKept-same (ap (λ v. v.quest_progress) w.7)
  ProgressKept-step s t (dropped _ w) = ProgressKept-same (ap (λ v. v.quest_progress) w.9)
  ProgressKept-step s t (dropped_missing _ w) = ProgressKept-same (ap (λ v. v.quest_progress) w.6)
  ProgressKept-step s t (transferred _ _ w) = ProgressKept-same (ap (λ v. v.quest_progress) w.14)
  ProgressKept-step s t (spawned _ _ _ w) = ProgressKept-same (ap (λ v. v.quest_progress) w.9)
  ProgressKept-step s t (updated _ _ _ w) = ProgressKept-same (ap (λ v. v.quest_progress) w.7)
  ProgressKept-step s t (emitted _ _ _ w) = ProgressKept-same (ap (λ v. v.quest_progress) w.5)
  ProgressKept-step {ctx} s t (accepted_quest quest_id w) = λ h.
      let k = quest_progress_key ctx.entity_id quest_id in
      let p : QuestProgress = record {
        quest_id = quest_id;
        actor_id = ctx.entity_id;
        status = accepted;
      } in
      ProgressKept-insert k p
        (ProgressStays-fresh (get k s₀.quest_progress) (get k s.quest_progress) p (h.at k) w.4)
        (ap (λ v. v.quest_progress) w.5) h
  ProgressKept-step {ctx} s t (completed_quest quest_id w) = λ h.
      let k = quest_progress_key ctx.entity_id quest_id in
      ProgressKept-insert k (record (w.1) { status = completed })
        (ProgressStays-complete (get k s₀.quest_progress) (get k s.quest_progress) (h.at k) w.7)
        (ap (λ v. v.quest_progress) w.12) h
  ProgressKept-step s t (credited _ w) = ProgressKept-same (ap (λ v. v.quest_progress) w.5)

-- Whatever a script calls, no progress is lost, moved to another actor or quest, or set back from
-- completed.
pub run_script-ProgressKept :
    (f64_of : ℕ → ℕ) (ctx : Context) (script : Script) (s : WorldState) (messages : List String)
    → ProgressKept s (run_script f64_of ctx script s messages).1
run_script-ProgressKept f64_of ctx script s messages =
    HostSteps-keep (ProgressKept s) (λ u v. ProgressKept-step u v)
      (record { at = λ key. ProgressStays-refl (get key s.quest_progress) })
      (run_script-HostSteps f64_of ctx script s messages)

complete_quest-completes :
    (ctx : Context) (s : WorldState) (quest_id : String) {r : Reply}
    → (complete_quest ctx s quest_id).0 ≡ ok r
    → (p : QuestProgress) × (get
          (quest_progress_key ctx.entity_id quest_id)
          (complete_quest ctx s quest_id).1.quest_progress
        ≡ some p)
      × (p.status ≡ completed)
complete_quest-completes ctx s quest_id done =
    let w = complete_quest_wrote ctx s quest_id done in
    let k = quest_progress_key ctx.entity_id quest_id in
    let p = record (w.1) { status = completed } in
    (p, ap (λ v. get k v.quest_progress) w.12 ∙ get-insert_self k p s.quest_progress, refl)

complete_quest_again :
    (ctx : Context) (u : WorldState) (quest_id : String) {quest : QuestDefinition}
    {p : QuestProgress}
    → ctx.command ≡ true
    → get quest_id u.quests ≡ some quest
    → get (quest_progress_key ctx.entity_id quest_id) u.quest_progress ≡ some p
    → p.status ≡ completed
    → complete_quest ctx u quest_id ≡ (err quest_already_completed, u)
unfolding complete_quest
complete_quest_again ctx u quest_id command defined there c = ground arith

-- The world after a completion, and any world that keeps its progress: the quest is completed.
completed_after :
    (ctx : Context) (s u : WorldState) (quest_id : String) {r : Reply}
    → (complete_quest ctx s quest_id).0 ≡ ok r
    → ProgressKept (complete_quest ctx s quest_id).1 u
    → (p : QuestProgress) × (get (quest_progress_key ctx.entity_id quest_id) u.quest_progress
        ≡ some p)
      × (p.status ≡ completed)
completed_after ctx s u quest_id done kept =
    let k = quest_progress_key ctx.entity_id quest_id in
    let (p, e, c) = complete_quest-completes ctx s quest_id done in
    let (q, f, _, _, g) = subst (λ o. ProgressStays o (get k u.quest_progress)) e (kept.at k) in
    (q, f, g c)

-- A quest pays its reward once: after a completion, in every later world that keeps the progress and
-- the definitions, completing it again fails with `quest_already_completed` and writes nothing.
pub complete_quest-once :
    (ctx : Context) (s u : WorldState) (quest_id : String) {r : Reply}
    → (complete_quest ctx s quest_id).0 ≡ ok r
    → ProgressKept (complete_quest ctx s quest_id).1 u
    → u.quests ≡ s.quests
    → complete_quest ctx u quest_id ≡ (err quest_already_completed, u)
complete_quest-once ctx s u quest_id done kept same =
    let (p, e, c) = completed_after ctx s u quest_id done kept in
    let w = complete_quest_wrote ctx s quest_id done in
    complete_quest_again ctx u quest_id w.5.0 (ap (get quest_id) same ∙ w.6) e c
