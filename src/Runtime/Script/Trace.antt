-- ===== src/Runtime/Script/Trace.antt =====
-- src/runtime.rs: the run of a contract as a sequence of host calls.
use aomori.Prelude.{ℕ, ◌≡◌, refl, ◌∙◌, String, false, List}
use aomori.Model.{WorldState}
use aomori.Runtime.Host.{Context}
use aomori.Runtime.Host.Call.{call_host, narration}
use aomori.Runtime.Host.Effects.{
  HostStep, HostSteps, done, more, idle, walked, relocated, taken, dropped, dropped_missing,
  transferred, spawned, updated, emitted, accepted_quest, completed_quest, credited,
}
use aomori.Runtime.Host.Steps.{call_host-HostStep}
use aomori.Runtime.Script.{Script, returned, raised, calls, run_script}

module _ (f64_of : ℕ → ℕ) (ctx : Context) where
  run_from-HostSteps :
      {s₀ : WorldState} (script : Script) (s : WorldState) (messages : List String)
      → HostSteps ctx s₀ s
      → HostSteps ctx s₀ (run_script f64_of ctx script s messages).1
  unfolding run_script
  run_from-HostSteps (returned v) s messages h = h
  run_from-HostSteps (raised e) s messages h = h
  run_from-HostSteps (calls c k) s messages h =
      let (r, s') = call_host f64_of ctx s c in
      run_from-HostSteps (k r) s' (narration c messages)
        (more h (call_host-HostStep f64_of ctx s c))

  -- Whatever the script, its run is made of host steps.
  pub run_script-HostSteps :
      (script : Script) (s : WorldState) (messages : List String)
      → HostSteps ctx s (run_script f64_of ctx script s messages).1
  run_script-HostSteps script s messages = run_from-HostSteps script s messages done

-- What each step keeps, a sequence of steps keeps.
pub HostSteps-keep {ℓ} :
    (P : WorldState → Type ℓ) {ctx : Context} {s t : WorldState}
    → ((u v : WorldState) → HostStep ctx u v → P u → P v)
    → P s
    → HostSteps ctx s t
    → P t
HostSteps-keep P keep h done = h
HostSteps-keep P keep h (more {t = u} {u = v} steps step) =
    keep u v step (HostSteps-keep P keep h steps)

-- A step of a query writes nothing: every write is guarded by the command flag.
HostStep-query : {ctx : Context} {s t : WorldState} → ctx.command ≡ false → HostStep ctx s t → t ≡ s
HostStep-query q (idle e) = e
HostStep-query q (walked _ _ w) = cc
HostStep-query q (relocated _ _ w) = cc (w.2.0)
HostStep-query q (taken _ w) = cc (w.2.0)
HostStep-query q (dropped _ w) = cc (w.4.0)
HostStep-query q (dropped_missing _ w) = cc (w.2.0)
HostStep-query q (transferred _ _ w) = cc (w.4.0)
HostStep-query q (spawned _ _ _ w) = cc (w.4.0)
HostStep-query q (updated _ _ _ w) = cc (w.3.0)
HostStep-query q (emitted _ _ _ w) = cc (w.1)
HostStep-query q (accepted_quest _ w) = cc (w.1)
HostStep-query q (completed_quest _ w) = cc (w.5.0)
HostStep-query q (credited _ w) = cc (w.2.0)

-- A query leaves the world that it reads as it was, whatever its script calls.
pub run_script-query :
    (f64_of : ℕ → ℕ) (ctx : Context) (script : Script) (s : WorldState) (messages : List String)
    → ctx.command ≡ false
    → (run_script f64_of ctx script s messages).1 ≡ s
run_script-query f64_of ctx script s messages q =
    HostSteps-keep (λ t. t ≡ s) (λ u v step same. HostStep-query q step ∙ same) refl
      (run_script-HostSteps f64_of ctx script s messages)
