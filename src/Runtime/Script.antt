-- ===== src/Runtime/Script.antt =====
-- A run of a contract's Lua code as the host sees it: the host functions that it calls one after
-- another, each call depending on the replies so far, and how it ends. The limits on instructions
-- and memory make every run end, so a run is a finite tree.
pub mod Trace
pub mod Accounts
pub mod Events
pub mod Progress
pub mod Entities
use aomori.Prelude.{ℕ, String, Bool, List}
use aomori.Lua.{LuaValue}
use aomori.Result.{Error, Result, ok, err}
use aomori.Model.{WorldState, EntityId}
use aomori.Runtime.{Outcome}
use aomori.Runtime.Host.{Context, HostCall, Reply}
use aomori.Runtime.Host.Call.{call_host, narration}

pub data Script : Type 0 where
  returned : LuaValue → Script
  raised : Error → Script
  calls : HostCall → (Result Reply → Script) → Script

-- `LuaLimits`
pub record LuaLimits : Type 0 where
  pub instruction_limit : ℕ
  pub memory_limit : ℕ

abbrev pub default_limits : LuaLimits
default_limits = record { instruction_limit = 200000; memory_limit = 16777216 }

-- The Lua engine, a third-party library: what it does with the limits, whether the sandbox is that
-- of the ledger, the source of the contract, the name of the function, the entity and the
-- arguments. Loading the source, a missing function and a limit that is met are part of the run.
-- `f64_of` is the double nearest to a number. A value of this type is one execution;
-- another execution may be another value.
pub record Engine : Type 0 where
  pub f64_of : ℕ → ℕ
  pub run : LuaLimits → Bool → String → String → EntityId → LuaValue → Script

-- What is left after a run: its result, the shared world and the messages.
abbrev pub Ran : Type 0
Ran = Result LuaValue × WorldState × List String

unfoldable pub run_script : (ℕ → ℕ) → Context → Script → WorldState → List String → Ran
run_script f64_of ctx (returned v) s messages = (ok v, s, messages)
run_script f64_of ctx (raised e) s messages = (err e, s, messages)
run_script f64_of ctx (calls c k) s messages =
    let (r, s') = call_host f64_of ctx s c in run_script f64_of ctx (k r) s' (narration c messages)
