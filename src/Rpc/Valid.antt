-- ===== src/Rpc/Valid.antt =====
-- src/rpc.rs: `dispatch` and `process_rpc`, for every method, parameter and contract.
use mathlib.Core.Path.{subst}
use aomori.Prelude.{
  ℕ, ◌≡◌, refl, ap, ◌∙◌, String, true, false, Option, List, ◌++◌, arith, inl, inr, text_key,
}
use aomori.Map.{BTreeMap}
use aomori.Json.{Value}
use aomori.Result.{Error, Result, ok, err}
use aomori.Model.{WorldState, EntityId, EntityKind, Receipt, Transaction, WorldEvent}
use aomori.Model.Validate.{validate}
use aomori.External.{External}
use aomori.Storage.Store.{SnapshotStore}
use aomori.Runtime.{Outcome}
use aomori.Runtime.World.{deploy_version, create_entity}
use aomori.Runtime.Script.{Engine, LuaLimits}
use aomori.Runtime.Execute.{execute_with_limits}
use aomori.Runtime.Execute.Runs.{execute-query}
use aomori.Runtime.Execute.Growth.{Grown, execute-Grown}
use aomori.Runtime.Transaction.{execute_transaction_with_limits}
use aomori.Runtime.Transaction.Replay.{execute_transaction-Grown}
use aomori.Rpc.{AppState, Answer}
use aomori.Rpc.Requests.{Derived, Request}
use aomori.Rpc.Methods.{
  store_receipt, open_account, create_account, submitted, submit_transaction, deploy_params,
  deploy_contract, entity_params, add_entity, call_params, queried, run_query, command_params,
  run_command,
}
use aomori.Rpc.Reads.{}
use aomori.Rpc.Dispatch.{match_text-All, arms, dispatch, authorize, process_request}
use aomori.Rpc.Atomic.{Served, still-Served, with_params-Served, silent-Served, loud-Served}

open_account-events :
    (name : String) (key : Option String) (balance : ℕ) (w v : WorldState) (a : Unit {0})
    → open_account name key balance w ≡ (ok a, v)
    → v.events ≡ w.events
unfolding open_account
open_account-events name key balance w v a h = ground arith

deploy_version-events :
    (hash_text : String → String) (w v : WorldState) (name : String) (version : ℕ) (source : String)
    (a : Unit {0})
    → deploy_version hash_text w name version source ≡ (ok a, v)
    → v.events ≡ w.events
unfolding deploy_version
deploy_version-events hash_text w v name version source a h = ground arith

create_entity-events :
    (w v : WorldState) (kind : EntityKind) (owner : String) (contract : Option String)
    (location : Option EntityId) (attributes : BTreeMap String Value) (id : EntityId)
    → create_entity w kind owner contract location attributes ≡ (ok id, v)
    → v.events ≡ w.events
unfolding create_entity
create_entity-events w v kind owner contract location attributes id h = ground arith

module _ (ext : External) (store : SnapshotStore ext) (engine : Engine) (derived : Derived) where
  read-Served : (s : AppState) (r : Result Answer) → Served ext s (r, s)
  read-Served s r = still-Served ext s s r refl refl (refl, refl, refl)

  create_account-Served :
      (s : AppState) (p : Value) → Served ext s (create_account ext store engine derived s p)
  unfolding create_account
  create_account-Served s p =
      with_params-Served ext s _ _
        λ name. silent-Served store s _ _ (λ a w. open_account-events _ _ _ s.world w a)

  pub store_receipt-ok :
      (o : Outcome Receipt) (receipt : Receipt) (w : WorldState)
      → store_receipt o ≡ (ok receipt, w)
      → (o.0 ≡ ok receipt) × (w.events ≡ o.1.events)
  store_receipt-ok (err e, v) receipt w h = cc
  store_receipt-ok (ok r, v) receipt w h = ground arith

  stored-Grown :
      (tx : Transaction) (limits : LuaLimits) (s : WorldState) (receipt : Receipt) (w : WorldState)
      → store_receipt (execute_transaction_with_limits ext engine s tx limits) ≡ (ok receipt, w)
      → Grown s w
  stored-Grown tx limits s receipt w h =
      let (done, same) = store_receipt-ok _ receipt w h in
      let grown = execute_transaction-Grown ext engine s tx limits done in
      record { new = grown.new; appended = same ∙ grown.appended }

  command-Grown :
      (s : WorldState) (id : EntityId) (action : String) (args : Value) (limits : LuaLimits)
      (receipt : Receipt) (w : WorldState)
      → execute_with_limits ext engine s id action args true limits ≡ (ok receipt, w)
      → Grown s w
  unfolding execute_with_limits
  command-Grown s id action args limits receipt w h =
      subst (λ o. Grown s o.1) h (execute-Grown ext engine s id action args true limits false)

  pub submit_transaction-Served :
      (s : AppState) (p : Value) → Served ext s (submit_transaction ext store engine derived s p)
  unfolding submit_transaction
  submit_transaction-Served s p =
      with_params-Served ext s (submitted ext store engine derived p s) _
        λ tx. loud-Served store s _ _ (stored-Grown tx s.lua_limits s.world)

  deploy_contract-Served :
      (s : AppState) (p : Value) → Served ext s (deploy_contract ext store engine derived s p)
  unfolding deploy_contract
  deploy_contract-Served s p =
      with_params-Served ext s (deploy_params ext store engine derived p) _
        λ (name, version, source).
          silent-Served store s _ _
            (λ a w. deploy_version-events ext.hash_text s.world w name version source a)

  add_entity-Served :
      (s : AppState) (p : Value) → Served ext s (add_entity ext store engine derived s p)
  unfolding add_entity
  add_entity-Served s p =
      with_params-Served ext s (entity_params ext store engine derived p) _
        λ (kind, owner, contract, location, attributes).
          silent-Served store s _ _
            (λ id w. create_entity-events s.world w kind owner contract location attributes id)

  queried-Served :
      (s : AppState) (o : Outcome Receipt)
      → o.1 ≡ s.world
      → Served ext s (queried ext store engine derived s o)
  queried-Served s (err e, w) h = still-Served ext s _ _ h refl (refl, refl, refl)
  queried-Served s (ok receipt, w) h = still-Served ext s _ _ h refl (refl, refl, refl)

  pub run_query-Served :
      (s : AppState) (p : Value) → Served ext s (run_query ext store engine derived s p)
  unfolding run_query execute_with_limits
  run_query-Served s p =
      with_params-Served ext s (call_params ext store engine derived p) _ λ (id, action, args).
        queried-Served s _
          (execute-query ext engine s.world id action args false s.lua_limits false refl)

  pub run_command-Served :
      (s : AppState) (p : Value) → Served ext s (run_command ext store engine derived s p)
  unfolding run_command
  run_command-Served s p =
      with_params-Served ext s (command_params ext store engine derived p s) _ λ (id, action, args).
        loud-Served store s _ _ (command-Grown s.world id action args s.lua_limits)

  pub dispatch-Served :
      (s : AppState) (method : String) (p : Value)
      → Served ext s (dispatch ext store engine derived s method p)
  unfolding dispatch arms
  dispatch-Served s method p =
      match_text-All (Served ext s) method (arms ext store engine derived s p) (read-Served s _) (
        λ _. read-Served s _,
        (
          λ _. create_account-Served s p,
          (
            λ _. read-Served s _,
            (
              λ _. submit_transaction-Served s p,
              (
                λ _. read-Served s _,
                (
                  λ _. read-Served s _,
                  (
                    λ _. read-Served s _,
                    (
                      λ _. read-Served s _,
                      (
                        λ _. read-Served s _,
                        (
                          λ _. deploy_contract-Served s p,
                          (
                            λ _. add_entity-Served s p,
                            (λ _. run_query-Served s p, (λ _. run_command-Served s p, tt)),
                          ),
                        ),
                      ),
                    ),
                  ),
                ),
              ),
            ),
          ),
        ),
      )

  pub process_request-Served :
      (s : AppState) (supplied : Option String) (req : Request)
      → Served ext s (process_request ext store engine derived s supplied req)
  unfolding process_request
  process_request-Served s supplied req =
      with_params-Served ext s (authorize ext store engine derived s supplied req) _
        λ method. dispatch-Served s method _

  -- A request that fails, for whatever reason, leaves the world as it was and sends no event.
  pub process_request-atomic :
      (s : AppState) (supplied : Option String) (req : Request) (e : Error)
      → let r = process_request ext store engine derived s supplied req in
        r.0 ≡ err e → (r.1.world ≡ s.world) × (r.1.events ≡ s.events)
  process_request-atomic s supplied req e = (process_request-Served s supplied req).failed e

  -- The world of the server passes the validation after every request, when it did before.
  pub process_request-validate :
      (s : AppState) (supplied : Option String) (req : Request)
      → validate ext s.world ≡ ok tt
      → validate ext (process_request ext store engine derived s supplied req).1.world ≡ ok tt
  process_request-validate s supplied req h = elim (process_request-Served s supplied req).valid [
    | inl same ↦ ap (validate ext) same ∙ h
    | inr valid ↦ valid
  ]

  -- A request sends to the subscribers the events that it appended to the log of the world, in
  -- their order, each once, and takes none out of the log.
  pub process_request-sent :
      (s : AppState) (supplied : Option String) (req : Request)
      → let r = process_request ext store engine derived s supplied req in
        (new : List WorldEvent) × (r.1.world.events ≡ s.world.events ++ new)
        × (r.1.events ≡ s.events ++ new)
  process_request-sent s supplied req =
      let served = process_request-Served s supplied req in
      (served.new, served.appended, served.sent)
