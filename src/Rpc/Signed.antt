-- ===== src/Rpc/Signed.antt =====
-- src/rpc.rs and src/runtime.rs: the guards on a transaction that comes to the server.
use aomori.Prelude.{
  ◌≡◌, refl, sym, ap, ◌∙◌, String, true, false, Option, none, some, arith, inl, inr, text_key,
  nat_key, ◌≟◌, is_some,
}
use aomori.Map.{get}
use aomori.Json.{Value}
use aomori.Result.{Result, ok, err}
use aomori.Model.{Account, Entity, Transaction}
use aomori.External.{External}
use aomori.Storage.Store.{SnapshotStore}
use aomori.Runtime.Script.{Engine}
use aomori.Runtime.Transaction.{check_signature, verify_signature, execute_transaction_with_limits}
use aomori.Runtime.Transaction.Replay.{execute_transaction-parts, check_transaction_sound}
use aomori.Rpc.{AppState, Answer, Answered}
use aomori.Rpc.Requests.{Derived}
use aomori.Rpc.Methods.{
  answer, with_params, keyed_or_missing, store_receipt, submitted, submit_transaction,
}
use aomori.Rpc.Atomic.{mutate_and_save-atomic}
use aomori.Rpc.Valid.{store_receipt-ok}

-- The value behind `answer` and `with_params` when they succeed.
answer-ok {ℓ} :
    {A : Type ℓ} (g : A → AppState → Answer × AppState) (r : Answered A) {b : Answer}
    → (answer g r).0 ≡ ok b
    → (a : A) × (r.0 ≡ ok a)
answer-ok g (err e, s) h = cc
answer-ok g (ok a, s) h = (a, refl)

with_params-ok {ℓ} :
    {A : Type ℓ} (s : AppState) (r : Result A) (k : A → Answered Answer) {b : Answer}
    → (with_params s r k).0 ≡ ok b
    → (a : A) × (r ≡ ok a) × ((k a).0 ≡ ok b)
with_params-ok s (err e) k h = cc
with_params-ok s (ok a) k h = (a, refl, h)

module _ (ext : External) (store : SnapshotStore ext) (engine : Engine) (derived : Derived) where
  -- A transaction of a request, signed with the key of the account that it is from, for an entity
  -- that this account owns.
  pub record SignedBy (s : AppState) (p : Value) : Type 0 where
    pub tx : Transaction
    pub account : Account
    pub entity : Entity
    pub key : String
    pub signature : String
    pub is_request : derived.transaction p ≡ some tx
    pub sender : get tx.from s.world.accounts ≡ some account
    pub has_key : account.public_key ≡ some key
    pub has_signature : tx.signature ≡ some signature
    pub verified : verify_signature ext key signature tx ≡ ok tt
    pub next_nonce : account.nonce ≡ tx.nonce
    pub target : get tx.entity_id s.world.entities ≡ some entity
    pub owned : (entity.owner ≟ tx.from) ≡ true

  submitted_sound :
      (p : Value) (s : AppState) (tx : Transaction)
      → s.allow_unsigned_commands ≡ false
      → submitted ext store engine derived p s ≡ ok tx
      → (derived.transaction p ≡ some tx) × (keyed_or_missing (get tx.from s.world.accounts) ≡ true)
  unfolding submitted
  submitted_sound p s tx closed h = ground arith

  key_of : (o : Option String) → is_some o ≡ true → (key : String) × (o ≡ some key)
  key_of none h = cc
  key_of (some key) h = (key, refl)

  keyed :
      (o : Option Account) (a : Account)
      → keyed_or_missing o ≡ true
      → o ≡ some a
      → (key : String) × (a.public_key ≡ some key)
  keyed none a h found = cc
  keyed (some account) a h found = key_of a.public_key (ground arith)

  check_signature-keyed :
      (key : String) (o : Option String) (tx : Transaction)
      → check_signature ext (some key) o tx ≡ ok tt
      → (signature : String) × (o ≡ some signature)
        × (verify_signature ext key signature tx ≡ ok tt)
  unfolding check_signature
  check_signature-keyed key none tx h = cc
  check_signature-keyed key (some signature) tx h = (signature, refl, h)

  -- With unsigned commands disabled, a transaction that is accepted is signed with the key of an
  -- account of the world, has the account's nonce, and acts on an entity of that account.
  pub submit_transaction-SignedBy :
      (s : AppState) (p : Value) {b : Answer}
      → s.allow_unsigned_commands ≡ false
      → (submit_transaction ext store engine derived s p).0 ≡ ok b
      → SignedBy s p
  unfolding submit_transaction
  submit_transaction-SignedBy s p closed h =
      let (tx, params, done) = with_params-ok s (submitted ext store engine derived p s) _ h in
      let (receipt, stored) = answer-ok _ _ done in
      elim (mutate_and_save-atomic store s
        λ world. store_receipt (execute_transaction_with_limits ext engine world tx s.lua_limits)) [
          | inl (e, failed, _) ↦ cc
          | inr (r, _, ran, _) ↦
              let (ran', _) = store_receipt-ok ext store engine derived _ r _ ran in
              let (_, checked, _, _) =
                execute_transaction-parts ext engine s.world tx s.lua_limits ran' in
              let (a, entity, found, nonce, signed, target, owned) =
                check_transaction_sound ext s.world tx checked in
              let (is_tx, allowed) = submitted_sound p s tx closed params in
              let (key, has_key) = keyed _ a allowed found in
              let (signature, has_signature, verified) =
                check_signature-keyed key tx.signature tx
                  (ap (λ k. check_signature ext k tx.signature tx) (sym has_key) ∙ signed) in
              record {
                tx = tx;
                account = a;
                entity = entity;
                key = key;
                signature = signature;
                is_request = is_tx;
                sender = found;
                has_key = has_key;
                has_signature = has_signature;
                verified = verified;
                next_nonce = nonce;
                target = target;
                owned = owned;
              }
        ]
