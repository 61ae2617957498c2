-- ===== src/Runtime/Transaction/Replay.antt =====
-- src/runtime.rs: the checks of `execute_transaction_with_limits` and the world behind them.
use mathlib.Core.Path.{subst}
use aomori.Prelude.{
  ℕ, ◌≡◌, ◌≢◌, refl, sym, ap, ◌∙◌, String, Option, none, some, [], ◌∷◌, ◌++◌, true, false, arith,
  text_key, nat_key, ◌≟◌, wrapping_add,
}
use aomori.Map.{get, insert, get-insert_self}
use aomori.Json.{Value}
use aomori.Result.{ok, err, invalid_nonce}
use aomori.Model.{WorldState, Account, Entity, Transaction, Receipt}
use aomori.External.{External}
use aomori.Runtime.World.{push_event}
use aomori.Runtime.Script.{Engine, LuaLimits}
use aomori.Runtime.Script.Accounts.{AccountsKept, AccountKept}
use aomori.Runtime.Execute.{execute_with_limits}
use aomori.Runtime.Execute.Runs.{execute-AccountsKept}
use aomori.Runtime.Execute.Growth.{Grown, Grown-trans, execute-Grown}
use aomori.Runtime.Transaction.{
  check_signature, check_transaction, settle, settle_result, transaction_payload,
  execute_transaction_with_limits,
}

-- The next number modulo 2^64 is another number.
next_differs : (n : ℕ) → wrapping_add n 1 ≡ n → ⊥
next_differs n h = omega arith

module _ (ext : External) where
  -- When the checks of a transaction pass, its account is there with the nonce of the transaction,
  -- the signature is checked with the key of the account, and the entity is there and the account
  -- owns it.
  pub check_transaction_sound :
      (s : WorldState) (tx : Transaction)
      → check_transaction ext s tx ≡ ok tt
      → (a : Account) × (e : Entity) × (get tx.from s.accounts ≡ some a)
        × (a.nonce ≡ tx.nonce)
        × (check_signature ext a.public_key tx.signature tx ≡ ok tt)
        × (get tx.entity_id s.entities ≡ some e)
        × ((e.owner ≟ tx.from) ≡ true)
  unfolding check_transaction
  check_transaction_sound s tx h = ground arith

  -- The world after a settlement that succeeds: the account with its nonce raised, and the event.
  settle-wrote :
      (tx : Transaction) (receipt : Receipt) (s : WorldState) {r : Receipt}
      → (settle ext tx receipt s).0 ≡ ok r
      → (a : Account) × (get tx.from s.accounts ≡ some a)
        × ((settle ext tx receipt s).1
            ≡ push_event
                (record s {
                  accounts =
                      insert tx.from (record a { nonce = wrapping_add a.nonce 1 }) s.accounts;
                })
                "transaction_executed"
                (some tx.entity_id)
                (transaction_payload r.tx_id tx))
        × (r.from ≡ tx.from)
        × (r.nonce ≡ tx.nonce)
  unfolding settle
  settle-wrote tx receipt s h = ground arith

  -- The checks passed, the run returned, and the settlement succeeded.
  pub execute_transaction-parts :
      (engine : Engine) (s : WorldState) (tx : Transaction) (limits : LuaLimits) {r : Receipt}
      → (execute_transaction_with_limits ext engine s tx limits).0 ≡ ok r
      → let o = execute_with_limits ext engine s tx.entity_id tx.action tx.args true limits in
        (receipt : Receipt) × (check_transaction ext s tx ≡ ok tt)
        × (o.0 ≡ ok receipt)
        × (execute_transaction_with_limits ext engine s tx limits ≡ settle ext tx receipt o.1)
  unfolding execute_transaction_with_limits settle_result
  execute_transaction-parts engine s tx limits h = ground arith

  executed_accounts :
      (engine : Engine) (s : WorldState) (tx : Transaction) (limits : LuaLimits)
      → AccountsKept s
          (execute_with_limits ext engine s tx.entity_id tx.action tx.args true limits).1
  unfolding execute_with_limits
  executed_accounts engine s tx limits =
      execute-AccountsKept ext engine s tx.entity_id tx.action tx.args true limits false

  -- The accounts behind the event of a transaction.
  accounts-push_event :
      (s : WorldState) (kind : String) (id : Option ℕ) (payload : Value)
      → (push_event s kind id payload).accounts ≡ s.accounts
  unfolding push_event
  accounts-push_event s kind id payload = refl

  events-push_event :
      (s : WorldState) (kind : String) (id : Option ℕ) (payload : Value)
      → (push_event s kind id payload).events
        ≡ s.events
          ++ record {
            id = s.next_event_id;
            head = s.head;
            kind = kind;
            entity_id = id;
            payload = payload;
          }
            ∷ []
  unfolding push_event
  events-push_event s kind id payload = refl

  kept_nonce :
      (o p : Option Account) {a b : Account}
      → AccountKept o p
      → o ≡ some a
      → p ≡ some b
      → b.nonce ≡ a.nonce
  kept_nonce none p h e f = cc
  kept_nonce (some c) p h e f = ground arith

  -- After a transaction that succeeds, the account of the sender is there with the nonce of the
  -- transaction plus one.
  pub execute_transaction-nonce :
      (engine : Engine) (s : WorldState) (tx : Transaction) (limits : LuaLimits) {r : Receipt}
      → (execute_transaction_with_limits ext engine s tx limits).0 ≡ ok r
      → (b : Account) × (get tx.from
            (execute_transaction_with_limits ext engine s tx limits).1.accounts
          ≡ some b)
        × (b.nonce ≡ wrapping_add tx.nonce 1)
  execute_transaction-nonce engine s tx limits h =
      let o = execute_with_limits ext engine s tx.entity_id tx.action tx.args true limits in
      let (receipt, checked, ran, e) = execute_transaction-parts engine s tx limits h in
      let (a, _, found, nonce, _, _, _) = check_transaction_sound s tx checked in
      let (b, found', written, _, _) = settle-wrote tx receipt o.1 (sym (ap (λ p. p.0) e) ∙ h) in
      let same = kept_nonce _ _ ((executed_accounts engine s tx limits).at tx.from) found found' in
      let bumped : Account = record b { nonce = wrapping_add b.nonce 1 } in
      (
        bumped,
        ap (λ p. get tx.from p.1.accounts) e
            ∙ (ap (λ w. get tx.from w.accounts) written
                ∙ (ap (get tx.from) (accounts-push_event _ _ _ _)
                    ∙ get-insert_self tx.from bumped o.1.accounts)),
        ap (λ n. wrapping_add n 1) (same ∙ nonce),
      )

  -- A wrong nonce is refused by the first check after the account.
  wrong_nonce :
      (engine : Engine) (s : WorldState) (tx : Transaction) (limits : LuaLimits) (b : Account)
      → get tx.from s.accounts ≡ some b
      → b.nonce ≢ tx.nonce
      → execute_transaction_with_limits ext engine s tx limits ≡ (err invalid_nonce, s)
  unfolding execute_transaction_with_limits check_transaction
  wrong_nonce engine s tx limits b found differ = ground arith

  -- A transaction is executed once: in any world in which the sender's account has the nonce that it
  -- had right after the success, the same transaction fails with `invalid_nonce` and writes nothing,
  -- whatever else has changed and under any limits.
  pub execute_transaction-replay :
      (engine engine' : Engine) (s t : WorldState) (tx : Transaction) (limits limits' : LuaLimits)
      (b c : Account) {r : Receipt}
      → (execute_transaction_with_limits ext engine s tx limits).0 ≡ ok r
      → get tx.from (execute_transaction_with_limits ext engine s tx limits).1.accounts ≡ some b
      → get tx.from t.accounts ≡ some c
      → c.nonce ≡ b.nonce
      → execute_transaction_with_limits ext engine' t tx limits' ≡ (err invalid_nonce, t)
  execute_transaction-replay engine engine' s t tx limits limits' b c h found there same =
      let (d, found', nonce) = execute_transaction-nonce engine s tx limits h in
      let one : b ≡ d = ground (arith, found, found') in
      wrong_nonce engine' t tx limits' c there
        (λ e. next_differs tx.nonce (sym nonce ∙ (sym (ap (λ x. x.nonce) one) ∙ (sym same ∙ e))))

  transaction-Grown-settled :
      (s t : WorldState) (tx : Transaction) (receipt : Receipt) {r : Receipt}
      → Grown s t
      → (settle ext tx receipt t).0 ≡ ok r
      → Grown s (settle ext tx receipt t).1
  transaction-Grown-settled s t tx receipt {r} grown done =
      let (a, _, written, _, _) = settle-wrote tx receipt t done in
      Grown-trans grown (record {
        new =
            record {
              id = t.next_event_id;
              head = t.head;
              kind = "transaction_executed";
              entity_id = some tx.entity_id;
              payload = transaction_payload r.tx_id tx;
            }
            ∷ [];
        appended = ap (λ w. w.events) written ∙ events-push_event _ _ _ _;
      })

  -- The log over a transaction that succeeds: it only grows.
  pub execute_transaction-Grown :
      (engine : Engine) (s : WorldState) (tx : Transaction) (limits : LuaLimits) {r : Receipt}
      → (execute_transaction_with_limits ext engine s tx limits).0 ≡ ok r
      → Grown s (execute_transaction_with_limits ext engine s tx limits).1
  unfolding execute_with_limits
  execute_transaction-Grown engine s tx limits h =
      let (receipt, _, _, e) = execute_transaction-parts engine s tx limits h in
      subst (λ o. Grown s o.1) (sym e)
        (transaction-Grown-settled s _ tx receipt
          (execute-Grown ext engine s tx.entity_id tx.action tx.args true limits false)
          (sym (ap (λ p. p.0) e) ∙ h))
