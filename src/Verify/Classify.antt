-- ===== src/Verify/Classify.antt =====
-- classifyError of sdk/src/verify.ts: the typed error for an exception, found from its message.
pub mod Laws
use zksoroban.Prelude.{
  ℕ, ◌+◌, Bool, true, false, ◌&&◌, ◌||◌, [], ◌∷◌, List, Option, none, some, leb, ltb, ◌==◌,
  if◌then◌else◌, map,
}
use zksoroban.Js.Text.{skip_spaces, Text, text, is_digit}
use zksoroban.Js.Numeral.{spelled}
use zksoroban.Types.{
  SorobanZkErrorCode, Thrown, soroban_zk_error, message, contract_not_initialized,
  rate_limit_exceeded, invalid_window_size, proof_expired, caller_not_allowed,
  resource_limit_exceeded, network_error, contract_invocation_failed,
}

-- CONTRACT_ERROR_CODES[n]
unfoldable pub contract_error_codes : ℕ → Option SorobanZkErrorCode
contract_error_codes n =
    if n == 1
    then some contract_not_initialized
    else if n == 2
    then some rate_limit_exceeded
    else if n == 3
    then some invalid_window_size
    else if n == 4
    then some proof_expired
    else if n == 5
    then some caller_not_allowed
    else none

-- The text behind a prefix.
unfoldable pub strip_prefix : Text → Text → Option Text
strip_prefix [] s = some s
strip_prefix (p ∷ ps) [] = none
strip_prefix (p ∷ ps) (c ∷ s) = let rest = strip_prefix ps s in if p == c then rest else none

-- `s.includes(part)`
unfoldable pub includes : Text → Text → Bool
includes part [] = elim (strip_prefix part []) [ none ↦ false | some rest ↦ true ]
includes part (c ∷ s) = elim (strip_prefix part (c ∷ s)) [
  | none ↦ includes part s
  | some rest ↦ true
]

-- `\d+\)` with the number so far: the digits up to a closing bracket, at least one of them.
unfoldable pub number_to_bracket : Bool → ℕ → Text → Option ℕ
number_to_bracket seen n [] = none
number_to_bracket seen n (c ∷ s) =
    let more = number_to_bracket true (spelled 10 n (c ∷ [])) s in
    if is_digit c then more else if seen && c == b')' then some n else none

-- /Error\(Contract,\s*#(\d+)\)/ at the front of a text: the number that it captures.
unfoldable pub match_here : Text → Option ℕ
match_here s = elim (strip_prefix (text "Error(Contract,") s) [
  | none ↦ none
  | some rest ↦ elim (strip_prefix (text "#") (skip_spaces rest)) [
    | none ↦ none
    | some number ↦ number_to_bracket false 0 number
  ]
]

-- `message.match(…)`: the leftmost place where the pattern matches.
unfoldable pub match_anywhere : Text → Option ℕ
match_anywhere [] = none
match_anywhere (c ∷ s) = elim (match_here (c ∷ s)) [ none ↦ match_anywhere s | some n ↦ some n ]

unfoldable pub extract_contract_error_code : Text → Option SorobanZkErrorCode
extract_contract_error_code m = elim (match_anywhere m) [
  | none ↦ none
  | some n ↦ contract_error_codes n
]

-- `toLowerCase` as far as the words below can tell: the letters A to Z, and the Kelvin sign, whose
-- lower case is k. No other character becomes an ASCII letter that could complete one of the words.
unfoldable pub lower : ℕ → ℕ
lower c = if leb b'A' c && leb c b'Z' then c + 32 else if c == 0x212a then b'k' else c

unfoldable pub classify_message : Text → SorobanZkErrorCode
classify_message m = elim (extract_contract_error_code m) [
  | some code ↦ code
  | none ↦
      let lowered = map lower m in
      if includes (text "resource") lowered
        || includes (text "instruction") lowered
        || includes (text "limit") lowered
      then resource_limit_exceeded
      else if includes (text "network") lowered
          || includes (text "fetch") lowered
          || includes (text "timeout") lowered
      then network_error
      else contract_invocation_failed
]

unfoldable pub classify_error : Thrown → Thrown
classify_error error = soroban_zk_error (message error) (classify_message (message error))
