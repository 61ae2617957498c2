-- ===== src/Rpc/Authority.antt =====
-- src/rpc.rs: the guards on who may write the world through the server.
use aomori.Prelude.{
  ◌≡◌, refl, ap, ◌∙◌, String, true, false, Option, arith, inl, inr, text_key, nat_key, ◌≟◌, ≟_iff,
}
use aomori.Json.{Value, object, end}
use aomori.Result.{ok, err, Result-cases}
use aomori.Model.{WorldState, Receipt}
use aomori.External.{External}
use aomori.Storage.Store.{SnapshotStore}
use aomori.Runtime.{Outcome}
use aomori.Runtime.Script.{Engine}
use aomori.Runtime.Execute.{execute_with_limits}
use aomori.Runtime.Execute.Runs.{execute-query}
use aomori.Rpc.{AppState}
use aomori.Rpc.Requests.{Derived, Request, is_admin_method, unwrap_or}
use aomori.Rpc.Methods.{
  submit_transaction, run_command, command_params, call_params, queried, run_query,
}
use aomori.Rpc.Dispatch.{match_text-All, arms, dispatch, authorize, is_authorized, process_request}
use aomori.Rpc.Valid.{submit_transaction-Served}
use aomori.Rpc.Signed.{SignedBy, submit_transaction-SignedBy}

module _ (ext : External) (store : SnapshotStore ext) (engine : Engine) (derived : Derived) where
  -- Why a request may have changed the world.
  pub data Authority (s : AppState) (supplied : Option String) (p : Value) (t : WorldState)
      : Type 0 where
    unchanged : t ≡ s.world → Authority s supplied p t
    administrator :
        is_authorized ext store engine derived s.admin_token supplied ≡ true
        → Authority s supplied p t
    signed : SignedBy ext store engine derived s p → Authority s supplied p t

  submit_transaction-Authority :
      (s : AppState) (supplied : Option String) (p : Value)
      → s.allow_unsigned_commands ≡ false
      → Authority s supplied p (submit_transaction ext store engine derived s p).1.world
  submit_transaction-Authority s supplied p closed =
      elim (Result-cases (submit_transaction ext store engine derived s p).0) [
        | inl (b, h) ↦ signed (submit_transaction-SignedBy ext store engine derived s p closed h)
        | inr (e, h) ↦
            unchanged ((submit_transaction-Served ext store engine derived s p).failed e h).0
      ]

  run_command-closed :
      (s : AppState) (p : Value)
      → s.allow_unsigned_commands ≡ false
      → (run_command ext store engine derived s p).1.world ≡ s.world
  unfolding run_command command_params
  run_command-closed s p closed = rw closed refl

  queried_world :
      (s : AppState) (o : Outcome Receipt)
      → o.1 ≡ s.world
      → (queried ext store engine derived s o).1.world ≡ s.world
  queried_world s (err e, w) h = h
  queried_world s (ok receipt, w) h = h

  run_query-same :
      (s : AppState) (p : Value) → (run_query ext store engine derived s p).1.world ≡ s.world
  unfolding run_query execute_with_limits
  run_query-same s p = elim (Result-cases (call_params ext store engine derived p)) [
    | inl ((id, action, args), h) ↦ rw h (
        queried_world s _
          (execute-query ext engine s.world id action args false s.lua_limits false refl))
    | inr (e, h) ↦ rw h refl
  ]

  by_administrator :
      (s : AppState) (supplied : Option String) (method name : String) (p : Value) (t : WorldState)
      → (is_admin_method method ≡ true
          → is_authorized ext store engine derived s.admin_token supplied ≡ true)
      → is_admin_method name ≡ true
      → (method ≟ name) ≡ true
      → Authority s supplied p t
  by_administrator s supplied method name p t admin is_admin same =
      administrator (admin (ap is_admin_method ((≟_iff method name).0 same) ∙ is_admin))

  dispatch-Authority :
      (s : AppState) (supplied : Option String) (method : String) (p : Value)
      → s.allow_unsigned_commands ≡ false
      → (is_admin_method method ≡ true
          → is_authorized ext store engine derived s.admin_token supplied ≡ true)
      → Authority s supplied p (dispatch ext store engine derived s method p).1.world
  unfolding dispatch arms
  dispatch-Authority s supplied method p closed admin =
      match_text-All (λ r. Authority s supplied p r.1.world) method
        (arms ext store engine derived s p) (unchanged refl)
        (
          λ _. unchanged refl,
          (
            by_administrator s supplied method "aomori_create_account" p _ admin refl,
            (
              λ _. unchanged refl,
              (
                λ _. submit_transaction-Authority s supplied p closed,
                (
                  λ _. unchanged refl,
                  (
                    λ _. unchanged refl,
                    (
                      λ _. unchanged refl,
                      (
                        λ _. unchanged refl,
                        (
                          λ _. unchanged refl,
                          (
                            by_administrator s supplied method "aomori_deploy" p _ admin refl,
                            (
                              by_administrator s supplied method "aomori_create_entity" p _ admin
                                  refl,
                              (
                                λ _. unchanged (run_query-same s p),
                                (λ _. unchanged (run_command-closed s p closed), tt),
                              ),
                            ),
                          ),
                        ),
                      ),
                    ),
                  ),
                ),
              ),
            ),
          ),
        )

  authorize_sound :
      (s : AppState) (supplied : Option String) (req : Request) (method : String)
      → authorize ext store engine derived s supplied req ≡ ok method
      → is_admin_method method ≡ true
      → is_authorized ext store engine derived s.admin_token supplied ≡ true
  unfolding authorize
  authorize_sound s supplied req method h admin = ground arith

  -- With unsigned commands disabled, a request that changes the world carries the administrator's
  -- token, or a transaction that is signed by an account with a key for an entity of its own.
  pub process_request-Authority :
      (s : AppState) (supplied : Option String) (req : Request)
      → s.allow_unsigned_commands ≡ false
      → Authority s supplied
          (unwrap_or (object end) req.params)
          (process_request ext store engine derived s supplied req).1.world
  unfolding process_request
  process_request-Authority s supplied req closed =
      elim (Result-cases (authorize ext store engine derived s supplied req)) [
        | inl (method, h) ↦ rw h (
            dispatch-Authority s supplied method _ closed (authorize_sound s supplied req method h))
        | inr (e, h) ↦ rw h (unchanged refl)
      ]
