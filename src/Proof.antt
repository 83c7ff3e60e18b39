-- ===== src/Proof.antt =====
-- sdk/src/proof.ts: snarkjs proofs and verifying keys as the byte layout of the contracts.
pub mod Encode
pub mod Layout
pub mod Format
pub mod Decode
pub mod Accepted
pub mod Errors
pub mod VerifyingKey
pub mod Words
use zksoroban.Prelude.{
  ℕ, suc, ◌-◌, Bool, true, false, not, ◌||◌, List, [], ◌∷◌, ◌++◌, ltb, leb, ◌==◌, if◌then◌else◌,
  length, Option, none, some,
}
use zksoroban.Prelude.Int.{ℤ, pos, negsuc}
use zksoroban.Js.Text.{Text, text, pad_start, ellipsis}
use zksoroban.Js.Bytes.{Bytes, from_hex, concat}
use zksoroban.Js.Numeral.{to_string, is_decimal_or_hex, big_int}
use zksoroban.Js.Value.{
  JsValue, undefined, integer, string, array, items, type_of, is_object, is_array, equals_text,
  property, element, length_lt, string_of,
}
use zksoroban.Types.{
  SorobanZkErrorCode, invalid_proof_format, invalid_public_input, soroban_zk_error,
  SorobanProofCalldata,
}
use zksoroban.Types.Result.{Result, ok, err, ◌>>=◌, ◌>>◌, throw_if}
use zksoroban.Validate.{validate_proof_input, bn254_field_modulus, indexed}

unfoldable pub parse_field_element : JsValue → SorobanZkErrorCode → Text → Result ℕ
parse_field_element (string s) code label = do
  throw_if (not (is_decimal_or_hex s)) (
      soroban_zk_error
        (label ++ text " must be a decimal or hex string, got: \"" ++ ellipsis s ++ text "\"") code)
  throw_if (leb bn254_field_modulus (big_int s))
      (soroban_zk_error (label ++ text " is outside the BN254 field: " ++ ellipsis s) code)
  ok (big_int s)
parse_field_element value code label = err (
    soroban_zk_error
      (label
        ++ text " must be a decimal or hex string, got "
        ++ type_of value
        ++ text ": "
        ++ ellipsis (string_of value))
      code)

unfoldable pub bigint_to_bytes32 : ℕ → Bytes
bigint_to_bytes32 value = from_hex (pad_start 64 b'0' (to_string 16 value))

unfoldable pub encode_g1 : JsValue → Text → Result Bytes
encode_g1 point label = do
  x_value ← element point 0
  x ← parse_field_element x_value invalid_proof_format (label ++ text ".x")
  y_value ← element point 1
  y ← parse_field_element y_value invalid_proof_format (label ++ text ".y")
  ok (concat (bigint_to_bytes32 x ∷ bigint_to_bytes32 y ∷ []))

-- `point[i][j]` as a coordinate.
unfoldable pub coordinate : JsValue → ℕ → ℕ → Text → Result ℕ
coordinate point i j label = do
  row ← element point i
  value ← element row j
  parse_field_element value invalid_proof_format label

unfoldable pub encode_g2 : JsValue → Text → Result Bytes
encode_g2 point label = do
  x_c0 ← coordinate point 0 0 (label ++ text ".x.c0")
  x_c1 ← coordinate point 0 1 (label ++ text ".x.c1")
  y_c0 ← coordinate point 1 0 (label ++ text ".y.c0")
  y_c1 ← coordinate point 1 1 (label ++ text ".y.c1")
  ok (
      concat (
        bigint_to_bytes32 x_c1
        ∷ bigint_to_bytes32 x_c0
        ∷ bigint_to_bytes32 y_c1
        ∷ bigint_to_bytes32 y_c0
        ∷ []))

-- The `map` over the public signals, from an index on.
unfoldable pub encode_signals_from : ℕ → List JsValue → Result (List Bytes)
encode_signals_from index [] = ok []
encode_signals_from index (signal ∷ rest) = do
  value ← parse_field_element signal invalid_public_input (indexed (text "publicSignals") index)
  words ← encode_signals_from (suc index) rest
  ok (bigint_to_bytes32 value ∷ words)

unfoldable pub encode_public_inputs : JsValue → Result (List Bytes)
encode_public_inputs (array vs) = encode_signals_from 0 (items vs)
encode_public_inputs value = err (
    soroban_zk_error (text "publicSignals must be an array of field elements") invalid_public_input)

abbrev pub max_u32 : ℕ
max_u32 = 0xffffffff

-- The words that `expiryLedger` adds: none if it is undefined, else one for an unsigned 32-bit
-- integer.
unfoldable pub expiry_words : JsValue → Result (List Bytes)
expiry_words undefined = ok []
expiry_words (integer (pos n)) =
    if ltb max_u32 n
    then err (
        soroban_zk_error (text "expiryLedger must be an unsigned 32-bit integer")
          invalid_public_input)
    else ok (bigint_to_bytes32 n ∷ [])
expiry_words value =
    err (
      soroban_zk_error (text "expiryLedger must be an unsigned 32-bit integer")
        invalid_public_input)

-- `proof.pi_a.length < 2 || proof.pi_b.length < 2 || proof.pi_c.length < 2`
unfoldable pub lacks_coordinates : JsValue → JsValue → JsValue → Result Bool
lacks_coordinates pi_a pi_b pi_c = do
  short_a ← length_lt pi_a 2
  short_b ← length_lt pi_b 2
  short_c ← length_lt pi_c 2
  ok (short_a || short_b || short_c)

unfoldable pub format_proof : JsValue → JsValue → JsValue → Result SorobanProofCalldata
format_proof proof public_signals expiry_ledger = do
  validate_proof_input proof public_signals
  protocol ← property proof (text "protocol")
  throw_if (not (equals_text protocol (text "groth16")))
      (soroban_zk_error (text "Proof must be a Groth16 snarkjs proof") invalid_proof_format)
  pi_a ← property proof (text "pi_a")
  pi_b ← property proof (text "pi_b")
  pi_c ← property proof (text "pi_c")
  short ← lacks_coordinates pi_a pi_b pi_c
  throw_if short
      (soroban_zk_error (text "Proof is missing required Groth16 coordinates") invalid_proof_format)
  inputs ← encode_public_inputs public_signals
  expiry ← expiry_words expiry_ledger
  proof_a ← encode_g1 pi_a (text "pi_a")
  proof_b ← encode_g2 pi_b (text "pi_b")
  proof_c ← encode_g1 pi_c (text "pi_c")
  throw_if (not (length proof_a == 64) || not (length proof_b == 128) || not (length proof_c == 64))
      (soroban_zk_error (text "Proof encoding produced an invalid byte length")
        invalid_proof_format)
  ok (record {
    proof_a = proof_a;
    proof_b = proof_b;
    proof_c = proof_c;
    public_inputs = inputs ++ expiry;
  })
