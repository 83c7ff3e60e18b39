-- ===== src/Js/Bytes.antt =====
-- Node's Buffer as a list of bytes: `Buffer.from(s, "hex")`, `b.toString("hex")`, `Buffer.concat`.
pub mod Laws
pub mod Hex
use zksoroban.Prelude.{ℕ, ◌+◌, ◌*◌, ◌/◌, ◌%◌, Bool, ◌&&◌, List, [], ◌∷◌, ◌++◌, if◌then◌else◌}
use zksoroban.Js.Text.{Text, is_hex_digit}
use zksoroban.Js.Numeral.{digit_value, digit_char}

abbrev pub Bytes : Type 0
Bytes = List ℕ

-- Pairs of hex digits, up to the first pair that is none; an odd last digit is dropped.
unfoldable pub from_hex : Text → Bytes
unfolding digit_value is_hex_digit
from_hex (a ∷ b ∷ s) =
    let rest = from_hex s in
    if is_hex_digit a && is_hex_digit b then (digit_value a * 16 + digit_value b) ∷ rest else []
from_hex _ = []

unfoldable pub to_hex : Bytes → Text
unfolding digit_char
to_hex [] = []
to_hex (b ∷ bytes) = digit_char (b / 16) ∷ digit_char (b % 16) ∷ to_hex bytes

unfoldable pub concat : List Bytes → Bytes
concat [] = []
concat (b ∷ rest) = b ++ concat rest

-- The number that bytes stand for behind `acc`, the most significant byte first.
unfoldable pub be_value : ℕ → Bytes → ℕ
be_value acc [] = acc
be_value acc (b ∷ bytes) = be_value (acc * 256 + b) bytes
