-- ===== src/Tests/Run.antt =====
-- Scripts, executions and transactions in the town.
use aomori.Prelude.{◌≡◌, refl, ◌⊎◌, ℕ, String, true, false, none, some, [], ◌∷◌, text_key, nat_key}
use aomori.Map.{get}
use aomori.Json.{text, object, end}
use aomori.Lua.{LuaValue, lua_to_json, nil_value, lua_text}
use aomori.Result.{ok, err, lua_table_key, quest_already_completed, invalid_nonce}
use aomori.Model.{WorldState, Account, Entity, Receipt, actor}
use aomori.Runtime.Host.{Context, HostCall, amount}
use aomori.Runtime.Host.Call.{call_host}
use aomori.Runtime.Host.Quests.{complete_quest}
use aomori.Runtime.Script.{Script, run_script, default_limits}
use aomori.Runtime.Script.Accounts.{AccountsKept, run_script-AccountsKept}
use aomori.Runtime.Script.Events.{EventsKept, run_script-EventsKept}
use aomori.Runtime.Script.Progress.{ProgressKept, run_script-ProgressKept, complete_quest-once}
use aomori.Runtime.Script.Entities.{EntityKept, call_host-EntityKept}
use aomori.Runtime.Execute.{contract_source, execute_internal, publish}
use aomori.Runtime.Changes.{changed_keys, eq_entity, eq_progress}
use aomori.Runtime.Execute.Runs.{run_of, executed, execute-query, execute-failed}
use aomori.Runtime.Execute.Growth.{Grown, execute-Grown}
use aomori.Runtime.Transaction.{check_signature, check_transaction, execute_transaction_with_limits}
use aomori.Runtime.Transaction.Replay.{execute_transaction-replay}
use aomori.Tests.Data.{crypto, town, waving, engine, endless, odd, alice, wave, wave_receipt}

abbrev asking : Context
asking = record { entity_id = 2; command = false }

abbrev same : ℕ → ℕ
same n = n

abbrev rename : HostCall
rename = HostCall.update_entity_data 2 "name" (lua_text (some "al"))

run_script-AccountsKept_example : AccountsKept town (run_script same alice waving town []).1
run_script-AccountsKept_example = run_script-AccountsKept same alice waving town []

run_script-EventsKept_example : EventsKept town (run_script same alice waving town []).1
run_script-EventsKept_example = run_script-EventsKept same alice waving town []

run_script-ProgressKept_example : ProgressKept town (run_script same alice waving town []).1
run_script-ProgressKept_example = run_script-ProgressKept same alice waving town []

abbrev errand_done : WorldState
errand_done = (complete_quest alice town "errand").1

errand-pays : (complete_quest alice town "errand").0 ≡ ok (amount 5)
unfolding aomori.Map.get aomori.Text.quest_progress_key aomori.Runtime.Host.Quests.complete_quest
errand-pays = refl

-- The reward is paid, and the apple is gone.
errand-world :
    (get "alice" errand_done.accounts
      ≡ some (record { name = "alice"; public_key = some "key"; nonce = 4; balance = 15 }))
    × (get 3 errand_done.entities ≡ none)
unfolding aomori.Map.get aomori.Map.insert aomori.Map.remove aomori.Text.quest_progress_key
    aomori.Runtime.Host.Quests.complete_quest
errand-world = (refl, refl)

errand-quests : errand_done.quests ≡ town.quests
unfolding aomori.Map.get aomori.Text.quest_progress_key aomori.Runtime.Host.Quests.complete_quest
errand-quests = refl

errand-kept :
    ProgressKept errand_done (run_script same alice (Script.returned nil_value) errand_done []).1
errand-kept = run_script-ProgressKept same alice (Script.returned nil_value) errand_done []

after_errand-quests :
    (run_script same alice (Script.returned nil_value) errand_done []).1.quests ≡ town.quests
unfolding aomori.Map.get aomori.Text.quest_progress_key aomori.Runtime.Host.Quests.complete_quest
    aomori.Runtime.Script.run_script
after_errand-quests = refl

complete_quest-once_example :
    complete_quest alice
      (run_script same alice (Script.returned nil_value) errand_done []).1
      "errand"
    ≡ (
      err quest_already_completed,
      (run_script same alice (Script.returned nil_value) errand_done []).1,
    )
complete_quest-once_example =
    complete_quest-once alice town
      (run_script same alice (Script.returned nil_value) errand_done []).1 "errand" errand-pays
      errand-kept after_errand-quests

abbrev alice_actor : Entity
alice_actor = record {
  id = 2;
  kind = actor;
  owner = "alice";
  location = some 1;
  contract = some "greeter";
  attributes = ("name", text "alice") ∷ [];
}

town-alice : get 2 town.entities ≡ some alice_actor
unfolding get
town-alice = refl

town-free : get town.next_entity_id town.entities ≡ none
unfolding get
town-free = refl

call_host-EntityKept_example :
    EntityKept "alice" (get 3 town.entities) (get 3 (call_host same alice town rename).1.entities)
call_host-EntityKept_example = call_host-EntityKept same alice town rename town-alice town-free 3

execute-query_example :
    (executed crypto engine town 2 "wave" (object end) false default_limits false).1 ≡ town
execute-query_example =
    execute-query crypto engine town 2 "wave" (object end) false default_limits false refl

execute-Grown_example :
    Grown town
      (execute_internal crypto engine town 2 "wave" (object end) true default_limits false).1
execute-Grown_example =
    execute-Grown crypto engine town 2 "wave" (object end) true default_limits false

abbrev waved : WorldState
waved = (execute_transaction_with_limits crypto engine town wave default_limits).1

wave-succeeds :
    (execute_transaction_with_limits crypto engine town wave default_limits).0 ≡ ok wave_receipt
unfolding aomori.Map.get aomori.Map.insert aomori.Map.remove aomori.Text.quest_progress_key
    aomori.Runtime.Changes.eq_entity aomori.Runtime.Changes.eq_progress
    aomori.Runtime.Changes.changed_keys aomori.Runtime.Changes.push_entity_changes
    aomori.Runtime.Changes.push_quest_change aomori.Runtime.Changes.push_quest_changes
    aomori.Runtime.Execute.contract_source aomori.Runtime.Execute.publish
    aomori.Runtime.Execute.receipt_of aomori.Runtime.Execute.finish
    aomori.Runtime.Execute.execute_internal aomori.Runtime.Execute.execute_with_limits
    aomori.Runtime.Host.Call.call_host aomori.Runtime.Host.Entities.emit_event
    aomori.Runtime.Host.Quests.complete_quest aomori.Runtime.Script.run_script
    aomori.Runtime.Transaction.transaction_signing_bytes aomori.Runtime.Transaction.verify_signature
    aomori.Runtime.Transaction.check_signature aomori.Runtime.Transaction.check_transaction
    aomori.Runtime.Transaction.settle aomori.Runtime.Transaction.settle_result
    aomori.Runtime.Transaction.execute_transaction_with_limits aomori.Runtime.World.push_event
    aomori.Model.Validate.root aomori.Lua.lua_to_json
wave-succeeds = refl

-- The sender with the nonce behind that of the transaction, and a later world in which the account has
-- another key and less to spend, and another account was opened.
abbrev sender : Account
sender = record { name = "alice"; public_key = some "key"; nonce = 5; balance = 15 }

waved-sender : get "alice" waved.accounts ≡ some sender
unfolding aomori.Map.get aomori.Map.insert aomori.Map.remove aomori.Text.quest_progress_key
    aomori.Runtime.Changes.eq_entity aomori.Runtime.Changes.eq_progress
    aomori.Runtime.Changes.changed_keys aomori.Runtime.Changes.push_entity_changes
    aomori.Runtime.Changes.push_quest_change aomori.Runtime.Changes.push_quest_changes
    aomori.Runtime.Execute.contract_source aomori.Runtime.Execute.publish
    aomori.Runtime.Execute.receipt_of aomori.Runtime.Execute.finish
    aomori.Runtime.Execute.execute_internal aomori.Runtime.Execute.execute_with_limits
    aomori.Runtime.Host.Call.call_host aomori.Runtime.Host.Entities.emit_event
    aomori.Runtime.Host.Quests.complete_quest aomori.Runtime.Script.run_script
    aomori.Runtime.Transaction.transaction_signing_bytes aomori.Runtime.Transaction.verify_signature
    aomori.Runtime.Transaction.check_signature aomori.Runtime.Transaction.check_transaction
    aomori.Runtime.Transaction.settle aomori.Runtime.Transaction.settle_result
    aomori.Runtime.Transaction.execute_transaction_with_limits aomori.Runtime.World.push_event
    aomori.Model.Validate.root aomori.Lua.lua_to_json
waved-sender = refl

abbrev poorer : Account
poorer = record sender { public_key = some "other"; balance = 0 }

abbrev later : WorldState
later = record waved {
  accounts =
      ("alice", poorer)
      ∷ ("bob", record { name = "bob"; public_key = none; nonce = 0; balance = 1 })
      ∷ [];
}

later-sender : get "alice" later.accounts ≡ some poorer
unfolding get
later-sender = refl

execute_transaction-replay_example :
    execute_transaction_with_limits crypto endless later wave default_limits
    ≡ (err invalid_nonce, later)
execute_transaction-replay_example =
    execute_transaction-replay crypto engine endless town later wave default_limits default_limits
      sender poorer wave-succeeds waved-sender later-sender refl

odd-fails :
    (executed crypto odd town 2 "wave" (object end) true default_limits false).0 ≡ err lua_table_key
unfolding aomori.Map.get aomori.Map.insert aomori.Map.remove aomori.Text.quest_progress_key
    aomori.Runtime.Changes.eq_entity aomori.Runtime.Changes.eq_progress
    aomori.Runtime.Changes.changed_keys aomori.Runtime.Changes.push_entity_changes
    aomori.Runtime.Changes.push_quest_change aomori.Runtime.Changes.push_quest_changes
    aomori.Runtime.Execute.contract_source aomori.Runtime.Execute.publish
    aomori.Runtime.Execute.receipt_of aomori.Runtime.Execute.finish
    aomori.Runtime.Execute.execute_internal aomori.Runtime.Execute.execute_with_limits
    aomori.Runtime.Host.Call.call_host aomori.Runtime.Host.Entities.emit_event
    aomori.Runtime.Host.Quests.complete_quest aomori.Runtime.Script.run_script
    aomori.Runtime.Transaction.transaction_signing_bytes aomori.Runtime.Transaction.verify_signature
    aomori.Runtime.Transaction.check_signature aomori.Runtime.Transaction.check_transaction
    aomori.Runtime.Transaction.settle aomori.Runtime.Transaction.settle_result
    aomori.Runtime.Transaction.execute_transaction_with_limits aomori.Runtime.World.push_event
    aomori.Model.Validate.root aomori.Lua.lua_to_json
odd-fails = refl

execute-failed_example :
    let (answer, after) =
      executed crypto odd town 2 "wave" (object end) true default_limits false in
    (after ≡ town)
    ⊎ ((source : String) × (v : LuaValue) × (true ≡ true)
        × (contract_source town 2 ≡ ok source)
        × ((run_of crypto odd town 2 "wave" (object end) true default_limits false source).0 ≡ ok v)
        × (lua_to_json v ≡ err lua_table_key)
        × (after
            ≡ publish town
                (run_of crypto odd town 2 "wave" (object end) true default_limits false source).1
                2
                "wave"))
execute-failed_example =
    execute-failed crypto odd town 2 "wave" (object end) true default_limits false lua_table_key
      odd-fails
