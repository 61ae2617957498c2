-- ===== src/Runtime/Execute/Runs.antt =====
-- src/runtime.rs: the outcomes of `execute_internal`.
use aomori.Prelude.{
  ◌≡◌, refl, sym, ap, ◌∙◌, String, [], Bool, true, false, arith, text_key, ◌⊎◌, inl, inr,
  Bool-cases,
}
use aomori.Json.{Value}
use aomori.Lua.{json_to_lua, lua_to_json, LuaValue}
use aomori.Result.{Error, ok, err, Result-cases}
use aomori.Model.{WorldState, EntityId, Receipt}
use aomori.External.{External}
use aomori.Runtime.{Outcome}
use aomori.Runtime.Script.{Engine, LuaLimits, Ran, run_script}
use aomori.Runtime.Script.Accounts.{
  AccountsKept, AccountsKept-refl, AccountsKept-same, run_script-AccountsKept,
}
use aomori.Runtime.Execute.{contract_source, function_name, publish, finish, execute_internal}
use aomori.Runtime.Execute.Publish.{publish-Logged}

module _ (ext : External) (engine : Engine) (s : WorldState) (id : EntityId) (action : String)
    (args : Value) (command : Bool) (limits : LuaLimits) (ledger : Bool) where
  -- The run of the contract with a source, in the world `s`.
  abbrev pub run_of : String → Ran
  run_of source =
      run_script engine.f64_of (record { entity_id = id; command = command })
        (engine.run limits ledger source (function_name command action) id
          (json_to_lua engine.f64_of args))
        s []

  abbrev pub executed : Outcome Receipt
  executed = execute_internal ext engine s id action args command limits ledger

  -- The run failed before the contract, or its end is finished.
  executed-cases :
      (executed.1 ≡ s)
      ⊎ ((source : String) × (contract_source s id ≡ ok source)
          × (executed ≡ finish ext engine s id action command (run_of source)))
  unfolding execute_internal
  executed-cases = elim (Result-cases (contract_source s id)) [
    | inl (source, e) ↦ inr (source, e, rw (e, execute_internal))
    | inr (error, e) ↦ inl (rw (e, execute_internal))
  ]

  finish-world :
      (ran : Ran)
      → let t = (finish ext engine s id action command ran).1 in
        (t ≡ s)
        ⊎ ((v : LuaValue) × (ran.0 ≡ ok v) × (command ≡ true) × (t ≡ publish s ran.1 id action))
  unfolding finish
  finish-world (err e, next, messages) = inl refl
  finish-world (ok v, next, messages) = elim (Bool-cases command) [
    | inl cmd ↦ inr (v, refl, cmd, rw cmd)
    | inr query ↦ inl (rw query)
  ]

  -- The world after an execution: the world before it, or that of a command whose script returned.
  pub executed-world :
      (executed.1 ≡ s)
      ⊎ ((source : String) × (v : LuaValue) × (contract_source s id ≡ ok source)
          × ((run_of source).0 ≡ ok v)
          × (command ≡ true)
          × (executed.1 ≡ publish s (run_of source).1 id action))
  executed-world = elim executed-cases [
    | inl same ↦ inl same
    | inr (source, found, e) ↦ elim (finish-world (run_of source)) [
      | inl same ↦ inl (ap (λ o. o.1) e ∙ same)
      | inr (v, returned, cmd, written) ↦
          inr (source, v, found, returned, cmd, ap (λ o. o.1) e ∙ written)
    ]
  ]

  -- A query leaves the world as it was, whether it returns or fails.
  pub execute-query : command ≡ false → executed.1 ≡ s
  execute-query query = elim executed-world [
    | inl same ↦ same
    | inr (source, v, found, returned, cmd, written) ↦ cc
  ]

  finish-failed :
      (ran : Ran) (e : Error)
      → (finish ext engine s id action command ran).0 ≡ err e
      → let t = (finish ext engine s id action command ran).1 in
        (t ≡ s)
        ⊎ ((v : LuaValue) × (command ≡ true)
            × (ran.0 ≡ ok v)
            × (lua_to_json v ≡ err e)
            × (t ≡ publish s ran.1 id action))
  unfolding finish
  finish-failed (err f, next, messages) e failed = inl refl
  finish-failed (ok v, next, messages) e failed = elim (Bool-cases command) [
    | inl cmd ↦ inr (v, cmd, refl, ground arith, rw cmd)
    | inr query ↦ inl (rw query)
  ]

  -- An execution that fails leaves the world as it was, with one exception: a command whose script
  -- returned a value that is no JSON. It fails with the error of the conversion, and the world is then
  -- that of the script with the events of the command.
  pub execute-failed :
      (e : Error)
      → executed.0 ≡ err e
      → (executed.1 ≡ s)
        ⊎ ((source : String) × (v : LuaValue) × (command ≡ true)
            × (contract_source s id ≡ ok source)
            × ((run_of source).0 ≡ ok v)
            × (lua_to_json v ≡ err e)
            × (executed.1 ≡ publish s (run_of source).1 id action))
  execute-failed e failed = elim executed-cases [
    | inl same ↦ inl same
    | inr (source, found, done) ↦
        elim (finish-failed (run_of source) e (ap (λ o. o.0) (sym done) ∙ failed)) [
          | inl same ↦ inl (ap (λ o. o.1) done ∙ same)
          | inr (v, cmd, returned, bad, written) ↦
              inr (source, v, cmd, found, returned, bad, ap (λ o. o.1) done ∙ written)
        ]
  ]

  -- An execution, whatever the script and its outcome, keeps the name, key and nonce of every
  -- account, lowers no balance, and opens or closes no account.
  pub execute-AccountsKept : AccountsKept s executed.1
  execute-AccountsKept = elim executed-world [
    | inl same ↦ AccountsKept-same (ap (λ w. w.accounts) same) (AccountsKept-refl s)
    | inr (source, v, found, returned, cmd, written) ↦
        AccountsKept-same
          (ap (λ w. w.accounts) written ∙ (publish-Logged s (run_of source).1 id action).accounts)
          (run_script-AccountsKept engine.f64_of (record { entity_id = id; command = command })
            (engine.run limits ledger source (function_name command action) id
              (json_to_lua engine.f64_of args))
            s [])
  ]
