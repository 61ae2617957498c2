-- ===== src/Rpc/Dispatch.antt =====
-- src/rpc.rs: `dispatch`, and `process_rpc` from the parsed request on.
use aomori.Prelude.{
  String, Bool, true, false, not, Option, none, some, ◌&&◌, text_key, ◌≟◌, if◌then◌else◌, List, [],
  ◌∷◌, ◌≡◌, All, Bool-cases, inl, inr,
}
use aomori.Json.{Value, object, end}
use aomori.Result.{
  Result, ok, err, ◌>>=◌, ◌>>◌, require, refuse_if, unknown_method, invalid_request,
  admin_authorization_required,
}
use aomori.External.{External}
use aomori.Storage.Store.{SnapshotStore}
use aomori.Runtime.Script.{Engine}
use aomori.Rpc.{AppState, Answer, Answered}
use aomori.Rpc.Requests.{Derived, Request, is_admin_method, unwrap_or}
use aomori.Rpc.Methods.{
  with_params, create_account, submit_transaction, deploy_contract, add_entity, run_query,
  run_command,
}
use aomori.Rpc.Reads.{
  get_account, get_receipt, list_entities, get_quests, get_events, get_entity, get_info,
}

-- `match` on a text: the first arm with that text, or the last one, `_`.
abbrev pub match_text {ℓ} : {A : Type ℓ} → String → List (String × A) → A → A
match_text method [] otherwise = otherwise
match_text method ((name, arm) ∷ arms) otherwise =
    if method ≟ name then arm else match_text method arms otherwise

-- What holds of the arm that is taken.
pub match_text-All {ℓ κ} :
    {A : Type ℓ} (P : A → Type κ) (method : String) (arms : List (String × A)) {otherwise : A}
    → P otherwise
    → All (λ arm. (method ≟ arm.0) ≡ true → P arm.1) arms
    → P (match_text method arms otherwise)
match_text-All P method [] other h = other
match_text-All P method ((name, arm) ∷ arms) other h = elim (Bool-cases (method ≟ name)) [
  | inl same ↦ rw same (h.0 same)
  | inr different ↦ rw different (match_text-All P method arms other h.1)
]

module _ (ext : External) (store : SnapshotStore ext) (engine : Engine) (derived : Derived) where
  unfoldable pub arms : AppState → Value → List (String × Answered Answer)
  arms s p =
      ("aomori_get_account", (get_account s.world p, s))
      ∷ ("aomori_create_account", create_account ext store engine derived s p)
      ∷ ("aomori_get_receipt", (get_receipt s.world p, s))
      ∷ ("aomori_submit_transaction", submit_transaction ext store engine derived s p)
      ∷ ("aomori_list_entities", (list_entities s.world p, s))
      ∷ ("aomori_get_quests", (get_quests s.world p, s))
      ∷ ("aomori_get_events", (get_events s.world p, s))
      ∷ ("aomori_get_info", (get_info ext s.lua_limits s.world, s))
      ∷ ("aomori_get_entity", (get_entity s.world p, s))
      ∷ ("aomori_deploy", deploy_contract ext store engine derived s p)
      ∷ ("aomori_create_entity", add_entity ext store engine derived s p)
      ∷ ("aomori_query", run_query ext store engine derived s p)
      ∷ ("aomori_command", run_command ext store engine derived s p)
      ∷ []

  unfoldable pub dispatch : AppState → String → Value → Answered Answer
  unfolding arms
  dispatch s method p = match_text method (arms s p) (err unknown_method, s)

  -- The method of a request, if it is one of JSON-RPC 2.0.
  abbrev pub request_method : Option String → Option String → Result String
  request_method (some version) (some method) = do
    require (version ≟ "2.0") invalid_request
    refuse_if (method ≟ "") invalid_request
    ok method
  request_method (some version) none = err invalid_request
  request_method none method = err invalid_request

  -- `admin_token.as_deref().zip(supplied)` with equal parts
  abbrev pub is_authorized : Option String → Option String → Bool
  is_authorized (some expected) (some supplied) = expected ≟ supplied
  is_authorized (some expected) none = false
  is_authorized none supplied = false

  unfoldable pub authorize : AppState → Option String → Request → Result String
  authorize s supplied req = do
    method ← request_method req.jsonrpc req.method
    refuse_if (is_admin_method method && not (is_authorized s.admin_token supplied))
        admin_authorization_required
    ok method

  -- `supplied` is what follows `Bearer ` in the header of the authorization.
  unfoldable pub process_request : AppState → Option String → Request → Answered Answer
  process_request s supplied req =
      with_params s (authorize s supplied req)
        λ method. dispatch s method (unwrap_or (object end) req.params)
