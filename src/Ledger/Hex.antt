-- ===== src/Ledger/Hex.antt =====
-- src/ledger.rs: `hash_hex`
use Prim.Native.Char.{Char, code}
use Prim.Native.String.{◌∷◌, len}
use aomori.Prelude.{ℕ, ◌*◌, String, Bool, true, ◌&&◌, ◌||◌, Option, List, leb, ◌==◌}
use aomori.Result.{Result, ◌>>◌, require, ok_or, invalid_lowercase_hex, not_hex}

-- `b.is_ascii_digit() || (b'a'..=b'f').contains(&b)`; no byte of another character passes.
abbrev is_lower_hex : Char → Bool
is_lower_hex c = (leb 48 (code c) && leb (code c) 57) || (leb 97 (code c) && leb (code c) 102)

abbrev all_lower_hex : String → Bool
all_lower_hex String.[] = true
all_lower_hex (c ∷ s) = is_lower_hex c && all_lower_hex s

unfoldable pub hash_hex : (String → Option (List ℕ)) → String → ℕ → Result (List ℕ)
hash_hex hex_decode s bytes =
    require ((len s == bytes * 2) && all_lower_hex s) invalid_lowercase_hex
    >> ok_or (hex_decode s) not_hex
