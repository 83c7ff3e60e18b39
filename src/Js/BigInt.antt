-- ===== src/Js/BigInt.antt =====
-- `s.trim()`, and `BigInt(s)` for any text.
pub mod Laws
use zksoroban.Prelude.{
  ℕ, ◌+◌, ◌-◌, Bool, true, false, ◌&&◌, ◌||◌, List, [], ◌∷◌, ◌++◌, Option, none, some, ◌==◌, leb,
  if◌then◌else◌,
}
use zksoroban.Prelude.Int.{ℤ, pos, sub_ℕ}
use zksoroban.Js.Text.{Text, text, all_of, some_of, is_space, skip_spaces, is_digit, is_hex_digit}
use zksoroban.Js.Numeral.{spelled}
use zksoroban.Types.{native_error}
use zksoroban.Types.Result.{Result, ok, err}

unfoldable pub trim_end : Text → Text
trim_end [] = []
trim_end (c ∷ s) = if all_of is_space (c ∷ s) then [] else c ∷ trim_end s

unfoldable pub trim : Text → Text
trim s = trim_end (skip_spaces s)

-- Decimal digits, at least one.
unfoldable pub decimal_value : Text → Option ℕ
decimal_value s = if some_of is_digit s then some (spelled 10 0 s) else none

-- Digits of a radix behind its prefix, at least one.
unfoldable pub prefixed_value : ℕ → Text → Option ℕ
prefixed_value c s =
    if c == b'x' || c == b'X'
    then (if some_of is_hex_digit s then some (spelled 16 0 s) else none)
    else if c == b'o' || c == b'O'
    then (if some_of (λ d. leb b'0' d && leb d b'7') s then some (spelled 8 0 s) else none)
    else if c == b'b' || c == b'B'
    then (if some_of (λ d. leb b'0' d && leb d b'1') s then some (spelled 2 0 s) else none)
    else none

abbrev pub positive : Option ℕ → Option ℤ
positive none = none
positive (some n) = some (pos n)

abbrev pub negative : Option ℕ → Option ℤ
negative none = none
negative (some n) = some (sub_ℕ 0 n)

-- A text that starts with a decimal digit other than of a prefix, or with a prefix.
unfoldable pub unsigned_value : Text → Option ℕ
unsigned_value (z ∷ c ∷ s) =
    let plain = decimal_value (z ∷ c ∷ s) in
    if z == b'0'
      && some_of (λ d. d == b'x' || d == b'X' || d == b'o' || d == b'O' || d == b'b' || d == b'B')
          (c ∷ [])
    then prefixed_value c s
    else plain
unsigned_value s = decimal_value s

-- A literal without white space around it; an empty text is zero.
unfoldable pub literal_value : Text → Option ℤ
literal_value [] = some (pos 0)
literal_value (c ∷ s) =
    if c == b'-'
    then negative (decimal_value s)
    else if c == b'+'
    then positive (decimal_value s)
    else positive (unsigned_value (c ∷ s))

unfoldable pub to_bigint : Text → Result ℤ
to_bigint s = elim (literal_value (trim s)) [
  | some value ↦ ok value
  | none ↦ err (native_error (text "Cannot convert " ++ s ++ text " to a BigInt"))
]
