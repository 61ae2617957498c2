-- ===== src/Text.antt =====
-- `format!` with numbers and texts: a number in decimal, texts put together.
use Prim.Native.Char.{Char}
use Prim.Native.String.{◌++◌, ◌∷◌}
use aomori.Prelude.{ℕ, zero, suc, ◌+◌, ◌/◌, ◌%◌, String, ltb, ◌==◌, if◌then◌else◌}

abbrev pub digit : ℕ → Char
digit d =
    if d == 0
    then "0"
    else if d == 1
    then "1"
    else if d == 2
    then "2"
    else if d == 3
    then "3"
    else if d == 4
    then "4"
    else if d == 5
    then "5"
    else if d == 6
    then "6"
    else if d == 7
    then "7"
    else if d == 8
    then "8"
    else "9"

-- The digits of `n` in front of `rest`; `n + 1` rounds are enough.
unfoldable pub decimal_from : ℕ → ℕ → String → String
decimal_from zero n rest = rest
decimal_from (suc fuel) n rest =
    let more = decimal_from fuel (n / 10) (digit (n % 10) ∷ rest) in
    if ltb n 10 then digit n ∷ rest else more

-- `n.to_string()`
unfoldable pub decimal : ℕ → String
unfolding decimal_from
decimal n = decimal_from (n + 1) n ""

-- `format!("{actor_id}:{quest_id}")`
unfoldable pub quest_progress_key : ℕ → String → String
unfolding decimal
quest_progress_key actor_id quest_id = decimal actor_id ++ (":" ++ quest_id)

-- `contract_key`, also `expected_key` in the validation of contracts
unfoldable pub contract_key : String → ℕ → String
unfolding decimal
contract_key name version = if version == 1 then name else name ++ ("@" ++ decimal version)
