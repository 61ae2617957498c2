-- ===== src/Runtime.antt =====
-- src/runtime.rs: what an operation on the world returns. The world comes back after an error too,
-- since what was written before it stays written.
pub mod World
pub mod Host
pub mod Script
pub mod Changes
pub mod Execute
pub mod Transaction
use aomori.Result.{Result, ok, err}
use aomori.Model.{WorldState}

abbrev pub Outcome {ℓ} : Type ℓ → Type ℓ
Outcome A = Result A × WorldState

-- An operation that writes only when nothing more can fail.
abbrev pub commit {ℓ} : {A : Type ℓ} → WorldState → Result (A × WorldState) → Outcome A
commit s (ok (a, s')) = (ok a, s')
commit s (err e) = (err e, s)
