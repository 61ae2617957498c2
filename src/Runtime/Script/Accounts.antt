-- ===== src/Runtime/Script/Accounts.antt =====
-- src/runtime.rs: the accounts under the host functions of `install`.
use native.Mathlib.Nat.{le_refl}
use aomori.Prelude.{
  ℕ, ◌+◌, ◌≤◌, ◌≡◌, refl, String, Option, none, some, arith, text_key, ◌≟◌, ≟_iff, Bool-cases, inl,
  inr, ap, List,
}
use aomori.Map.{get, insert, get-insert}
use aomori.Model.{WorldState, Account}
use aomori.Runtime.Host.{Context}
use aomori.Runtime.Host.Effects.{
  HostStep, idle, walked, relocated, taken, dropped, dropped_missing, transferred, spawned, updated,
  emitted, accepted_quest, completed_quest, credited,
}
use aomori.Runtime.Script.{Script, run_script}
use aomori.Runtime.Script.Trace.{run_script-HostSteps, HostSteps-keep}

-- An account before and after: as it was, but for a balance that may have grown. None is opened.
abbrev pub AccountKept : Option Account → Option Account → Type 0
AccountKept none o = o ≡ none
AccountKept (some a) o =
    (b : Account) × (o ≡ some b)
    × (b.name ≡ a.name)
    × (b.public_key ≡ a.public_key)
    × (b.nonce ≡ a.nonce)
    × (a.balance ≤ b.balance)

pub record AccountsKept (s t : WorldState) : Type 0 where
  pub at : (name : String) → AccountKept (get name s.accounts) (get name t.accounts)

AccountKept-refl : (o : Option Account) → AccountKept o o
AccountKept-refl none = refl
AccountKept-refl (some a) = (a, refl, refl, refl, refl, le_refl a.balance)

-- A payment of `n` into an account that is there.
AccountKept-pay :
    (o p : Option Account) {a : Account} (n : ℕ)
    → AccountKept o p
    → p ≡ some a
    → AccountKept o (some (record a { balance = a.balance + n }))
AccountKept-pay none p n h e = cc
AccountKept-pay (some b) p n h e = ground arith

module _ {s₀ : WorldState} where
  pub AccountsKept-same :
      {s t : WorldState} → t.accounts ≡ s.accounts → AccountsKept s₀ s → AccountsKept s₀ t
  AccountsKept-same e h = record { at = λ name. rw e (h.at name) }

  AccountsKept-pay :
      {s t : WorldState} (owner : String) {a : Account} (n : ℕ)
      → get owner s.accounts ≡ some a
      → t.accounts ≡ insert owner (record a { balance = a.balance + n }) s.accounts
      → AccountsKept s₀ s
      → AccountsKept s₀ t
  AccountsKept-pay {s} owner n found e h = record {
    at = λ name.
        rw (e, get-insert)
          (elim (Bool-cases (owner ≟ name)) [
            | inl same ↦ rw same (
                AccountKept-pay (get name s₀.accounts) (get name s.accounts) n (h.at name)
                  (rw (← (≟_iff owner name).0 same) found))
            | inr other ↦ rw other (h.at name)
          ]);
  }

  AccountsKept-step :
      {ctx : Context} (s t : WorldState) → HostStep ctx s t → AccountsKept s₀ s → AccountsKept s₀ t
  AccountsKept-step s t (idle e) = AccountsKept-same (ap (λ w. w.accounts) e)
  AccountsKept-step s t (walked _ _ w) = AccountsKept-same (ap (λ v. v.accounts) w.7)
  AccountsKept-step s t (relocated _ _ w) = AccountsKept-same (ap (λ v. v.accounts) w.6)
  AccountsKept-step s t (taken _ w) = AccountsKept-same (ap (λ v. v.accounts) w.7)
  AccountsKept-step s t (dropped _ w) = AccountsKept-same (ap (λ v. v.accounts) w.9)
  AccountsKept-step s t (dropped_missing _ w) = AccountsKept-same (ap (λ v. v.accounts) w.6)
  AccountsKept-step s t (transferred _ _ w) = AccountsKept-same (ap (λ v. v.accounts) w.14)
  AccountsKept-step s t (spawned _ _ _ w) = AccountsKept-same (ap (λ v. v.accounts) w.9)
  AccountsKept-step s t (updated _ _ _ w) = AccountsKept-same (ap (λ v. v.accounts) w.7)
  AccountsKept-step s t (emitted _ _ _ w) = AccountsKept-same (ap (λ v. v.accounts) w.5)
  AccountsKept-step s t (accepted_quest _ w) = AccountsKept-same (ap (λ v. v.accounts) w.5)
  AccountsKept-step s t (completed_quest _ w) =
      AccountsKept-pay w.2.owner w.0.reward_balance w.10 (ap (λ v. v.accounts) w.12)
  AccountsKept-step s t (credited n w) = AccountsKept-pay w.0.owner n w.3 (ap (λ v. v.accounts) w.5)

pub AccountsKept-refl : (s : WorldState) → AccountsKept s s
AccountsKept-refl s = record { at = λ name. AccountKept-refl (get name s.accounts) }

-- Whatever a script calls, every account keeps its name, key and nonce, no balance falls, and no
-- account is opened or closed.
pub run_script-AccountsKept :
    (f64_of : ℕ → ℕ) (ctx : Context) (script : Script) (s : WorldState) (messages : List String)
    → AccountsKept s (run_script f64_of ctx script s messages).1
run_script-AccountsKept f64_of ctx script s messages =
    HostSteps-keep (AccountsKept s) (λ u v. AccountsKept-step u v) (AccountsKept-refl s)
      (run_script-HostSteps f64_of ctx script s messages)
