-- ===== src/Runtime/Execute/Growth.antt =====
-- src/runtime.rs: the event log over `execute_internal`.
use aomori.Prelude.{◌≡◌, sym, ap, ◌∙◌, String, Bool, List, [], ◌++◌, inl, inr}
use mathlib.Core.List.{append_assoc, append-nil}
use aomori.Json.{Value}
use aomori.Lua.{json_to_lua}
use aomori.Model.{WorldState, EntityId, WorldEvent}
use aomori.External.{External}
use aomori.Runtime.Script.{Engine, LuaLimits}
use aomori.Runtime.Script.Events.{run_script-EventsKept}
use aomori.Runtime.Execute.{execute_internal, function_name, publish}
use aomori.Runtime.Execute.Publish.{publish-Logged}
use aomori.Runtime.Execute.Runs.{executed-world, run_of}

-- The log of the second world is that of the first with more events behind it.
pub record Grown (s t : WorldState) : Type 0 where
  pub new : List WorldEvent
  pub appended : t.events ≡ s.events ++ new

pub Grown-same : {s t : WorldState} → t ≡ s → Grown s t
Grown-same {s} e = record { new = []; appended = ap (λ w. w.events) e ∙ sym (append-nil s.events) }

pub Grown-trans : {s t u : WorldState} → Grown s t → Grown t u → Grown s u
Grown-trans {s} h k = record {
  new = h.new ++ k.new;
  appended = rw (k.appended, h.appended) (append_assoc s.events h.new k.new);
}

module _ (ext : External) (engine : Engine) (s : WorldState) (id : EntityId) (action : String)
    (args : Value) (command : Bool) (limits : LuaLimits) (ledger : Bool) where
  run_of-Grown :
      (source : String)
      → Grown s (run_of ext engine s id action args command limits ledger source).1
  run_of-Grown source =
      let kept =
        run_script-EventsKept engine.f64_of (record { entity_id = id; command = command })
          (engine.run limits ledger source (function_name command action) id
            (json_to_lua engine.f64_of args))
          s [] in
      record { new = kept.new; appended = kept.appended }

  publish-Grown : (next : WorldState) → Grown next (publish s next id action)
  publish-Grown next =
      let logged = publish-Logged s next id action in
      record { new = logged.new; appended = logged.appended }

  -- The event log after an execution is the log before it with the new events behind it, whatever
  -- the script and its outcome.
  pub execute-Grown : Grown s (execute_internal ext engine s id action args command limits ledger).1
  execute-Grown = elim (executed-world ext engine s id action args command limits ledger) [
    | inl same ↦ Grown-same same
    | inr (source, v, found, returned, cmd, written) ↦ Grown-trans (run_of-Grown source) (
        Grown-trans
          (publish-Grown (run_of ext engine s id action args command limits ledger source).1)
          (Grown-same written))
  ]
