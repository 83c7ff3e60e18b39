-- ===== src/Validate.antt =====
-- sdk/src/validate.ts: checks of proofs, public signals and encoded calldata before they are used.
pub mod Sound
pub mod Shape
pub mod Complete
pub mod Calldata
use zksoroban.Prelude.{
  ℕ, suc, ◌^◌, ◌-◌, Bool, true, false, not, List, [], ◌∷◌, ◌++◌, ltb, leb, if◌then◌else◌, length,
  get_elem?, Option, none, some,
}
use zksoroban.Js.Text.{Text, text, ellipsis}
use zksoroban.Js.Numeral.{to_string, is_decimal, is_decimal_or_hex, big_int}
use zksoroban.Js.Value.{
  JsValue, string, array, items, type_of, is_object, equals_text, property, string_of, or_undefined,
}
use zksoroban.Types.{SorobanZkErrorCode, invalid_proof_format, invalid_public_input, zk_input_error}
use zksoroban.Types.Result.{Result, ok, err, ◌>>=◌, ◌>>◌, throw_if}

-- The order of the BN254 scalar field.
unfoldable pub bn254_field_modulus : ℕ
bn254_field_modulus = 21888242871839275222246405745257275088548364400416034343698204186575808495617

unfoldable pub max_32_byte_value : ℕ
max_32_byte_value = 2 ^ 256

unfoldable pub describe_value : JsValue → Text
describe_value value = ellipsis (string_of value)

-- `${field}[${index}]`
unfoldable pub indexed : Text → ℕ → Text
indexed field index = field ++ text "[" ++ to_string 10 index ++ text "]"

unfoldable pub assert_array : JsValue → Text → ℕ → Result (List JsValue)
assert_array (array vs) field min_length =
    if ltb (length (items vs)) min_length
    then err (
        zk_input_error field
          (text "must have at least "
            ++ to_string 10 min_length
            ++ text " elements (received "
            ++ to_string 10 (length (items vs))
            ++ text ")")
          invalid_proof_format none)
    else ok (items vs)
assert_array value field min_length = err (
    zk_input_error field (text "is not an array (received " ++ type_of value ++ text ")")
      invalid_proof_format none)

unfoldable pub assert_proof_field_element : JsValue → Text → Result (Unit {0})
assert_proof_field_element (string s) field = do
  throw_if (not (is_decimal s))
      (zk_input_error field (text "is not a decimal string") invalid_proof_format none)
  throw_if (leb bn254_field_modulus (big_int s)) (
      zk_input_error field (text "exceeds the BN254 field size") invalid_proof_format
        (some (describe_value (string s))))
assert_proof_field_element value field = err (
    zk_input_error field (text "is not a string (received " ++ type_of value ++ text ")")
      invalid_proof_format (some (describe_value value)))

-- The body of the `forEach` of `validatePublicSignals`.
unfoldable pub validate_signal : JsValue → Text → Result (Unit {0})
validate_signal (string s) field = do
  throw_if (not (is_decimal_or_hex s)) (
      zk_input_error field (text "is not a decimal or hex string") invalid_public_input
        (some (describe_value (string s))))
  throw_if (leb max_32_byte_value (big_int s)) (
      zk_input_error field (text "does not fit in 32 bytes") invalid_public_input
        (some (describe_value (string s))))
  throw_if (leb bn254_field_modulus (big_int s)) (
      zk_input_error field (text "exceeds the BN254 field size") invalid_public_input
        (some (describe_value (string s))))
validate_signal value field = err (
    zk_input_error field (text "is not a string (received " ++ type_of value ++ text ")")
      invalid_public_input (some (describe_value value)))

-- The `forEach` from an index on.
unfoldable pub validate_signals_from : ℕ → List JsValue → Result (Unit {0})
validate_signals_from index [] = ok tt
validate_signals_from index (signal ∷ rest) = do
  validate_signal signal (indexed (text "publicSignals") index)
  validate_signals_from (suc index) rest

unfoldable pub validate_public_signals : JsValue → Result (Unit {0})
validate_public_signals (array vs) = validate_signals_from 0 (items vs)
validate_public_signals value = err (
    zk_input_error (text "publicSignals")
      (text "is not an array (received " ++ type_of value ++ text ")") invalid_public_input none)

-- `list[i]` on an array that `assertArray` returned.
abbrev pub at : List JsValue → ℕ → JsValue
at vs i = or_undefined (get_elem? vs i)

-- `pi_a` and `pi_c`: an array whose first two elements are coordinates.
unfoldable pub validate_point : JsValue → Text → Result (Unit {0})
validate_point value name = do
  point ← assert_array value name 2
  assert_proof_field_element (at point 0) (indexed name 0)
  assert_proof_field_element (at point 1) (indexed name 1)

unfoldable pub validate_proof_input : JsValue → JsValue → Result (Unit {0})
validate_proof_input proof public_signals = do
  throw_if (not (is_object proof)) (
      zk_input_error (text "proof")
        (text "is not an object (received " ++ type_of proof ++ text ")") invalid_proof_format none)
  protocol ← property proof (text "protocol")
  throw_if (not (equals_text protocol (text "groth16"))) (
      zk_input_error (text "proof.protocol") (text "must be \"groth16\"") invalid_proof_format none)
  pi_a ← property proof (text "pi_a")
  validate_point pi_a (text "pi_a")
  pi_b ← property proof (text "pi_b")
  rows ← assert_array pi_b (text "pi_b") 2
  validate_point (at rows 0) (indexed (text "pi_b") 0)
  validate_point (at rows 1) (indexed (text "pi_b") 1)
  pi_c ← property proof (text "pi_c")
  validate_point pi_c (text "pi_c")
  validate_public_signals public_signals
