-- ===== src/Js/Numeral.antt =====
-- Numbers as text: `n.toString(radix)`, the number patterns, and `BigInt(s)` for the texts they fit.
pub mod Laws
use zksoroban.Prelude.{
  ℕ, zero, suc, ◌+◌, ◌-◌, ◌*◌, ◌/◌, ◌%◌, Bool, false, ◌&&◌, ◌||◌, [], ◌∷◌, leb, ltb, ◌==◌,
  if◌then◌else◌, drop,
}
use zksoroban.Js.Text.{Text, is_digit, is_hex_digit, some_of}

-- The character of a digit below sixteen, lower case, and the value of a digit of either case.
unfoldable pub digit_char : ℕ → ℕ
digit_char d = if ltb d 10 then b'0' + d else (b'a' - 10) + d

unfoldable pub digit_value : ℕ → ℕ
digit_value c =
    if leb c b'9' then c - b'0' else if leb c b'F' then c - (b'A' - 10) else c - (b'a' - 10)

-- The digits of `n` in front of `out`. A number is at least as large as the count of its digits
-- less one, so `n` is fuel enough.
unfoldable pub digits : ℕ → ℕ → ℕ → Text → Text
unfolding digit_char
digits zero radix n out = out
digits (suc fuel) radix n out =
    let rest = digits fuel radix (n / radix) (digit_char (n % radix) ∷ out) in
    if n == 0 then out else rest

-- `n.toString(radix)` for a bigint or an integer number that is not negative.
unfoldable pub to_string : ℕ → ℕ → Text
unfolding digits
to_string radix n = if n == 0 then b'0' ∷ [] else digits n radix n []

-- The number that digits spell behind `acc`.
unfoldable pub spelled : ℕ → ℕ → Text → ℕ
unfolding digit_value
spelled radix acc [] = acc
spelled radix acc (c ∷ s) = spelled radix (acc * radix + digit_value c) s

-- /^[0-9]+$/
unfoldable pub is_decimal : Text → Bool
unfolding some_of is_digit
is_decimal s = some_of is_digit s

-- /^0x[0-9a-fA-F]+$/
unfoldable pub is_hex : Text → Bool
unfolding some_of is_hex_digit
is_hex (c ∷ x ∷ s) = c == b'0' && x == b'x' && some_of is_hex_digit s
is_hex _ = false

-- /^(0x[0-9a-fA-F]+|[0-9]+)$/
unfoldable pub is_decimal_or_hex : Text → Bool
unfolding is_hex is_decimal
is_decimal_or_hex s = is_hex s || is_decimal s

-- `BigInt(s)` for a text of that pattern.
unfoldable pub big_int : Text → ℕ
unfolding is_hex spelled
big_int s = if is_hex s then spelled 16 0 (drop 2 s) else spelled 10 0 s
