-- ===== src/Validate/Calldata.antt =====
-- validateCalldata and assertBufferLength of sdk/src/validate.ts. A field of the argument is a
-- Buffer or some other value; `publicInputs` is an array of such or some other value.
pub mod Laws
use zksoroban.Prelude.{
  ℕ, suc, Bool, true, false, not, List, [], ◌∷◌, ◌++◌, ◌==◌, if◌then◌else◌, length, map, none,
}
use zksoroban.Js.Text.{Text, text}
use zksoroban.Js.Numeral.{to_string}
use zksoroban.Js.Bytes.{Bytes}
use zksoroban.Js.Value.{JsValue, type_of}
use zksoroban.Types.{
  invalid_proof_format, invalid_public_input, zk_input_error, SorobanProofCalldata,
}
use zksoroban.Types.Result.{Result, ok, err, ◌>>=◌, ◌>>◌}
use zksoroban.Validate.{indexed}

pub data Slot : Type 0 where
  buffer : Bytes → Slot
  other : JsValue → Slot

pub data Inputs : Type 0 where
  array_of : List Slot → Inputs
  no_array : JsValue → Inputs

-- An object with the four fields of `SorobanProofCalldata`, or a value that is no object.
pub data Calldata : Type 0 where
  calldata : (proof_a proof_b proof_c : Slot) (public_inputs : Inputs) → Calldata
  no_object : JsValue → Calldata

-- The object that `formatProof` returns, as an argument.
unfoldable pub of_proof : SorobanProofCalldata → Calldata
of_proof c =
    calldata (buffer c.proof_a) (buffer c.proof_b) (buffer c.proof_c)
      (array_of (map buffer c.public_inputs))

unfoldable pub assert_buffer_length : Slot → ℕ → Text → Result (Unit {0})
assert_buffer_length (other value) expected field = err (
    zk_input_error field (text "is not a Buffer (received " ++ type_of value ++ text ")")
      invalid_proof_format none)
assert_buffer_length (buffer bytes) expected field =
    if length bytes == expected
    then ok tt
    else err (
        zk_input_error field
          (text "must be "
            ++ to_string 10 expected
            ++ text " bytes (received "
            ++ to_string 10 (length bytes)
            ++ text ")")
          invalid_proof_format none)

-- The `forEach` over the public inputs, from an index on.
unfoldable pub assert_inputs_from : ℕ → List Slot → Result (Unit {0})
assert_inputs_from index [] = ok tt
assert_inputs_from index (input ∷ rest) = do
  assert_buffer_length input 32 (indexed (text "calldata.publicInputs") index)
  assert_inputs_from (suc index) rest

unfoldable pub assert_inputs : Inputs → Result (Unit {0})
assert_inputs (array_of inputs) = assert_inputs_from 0 inputs
assert_inputs (no_array value) = err (
    zk_input_error (text "calldata.publicInputs")
      (text "is not an array (received " ++ type_of value ++ text ")") invalid_public_input none)

unfoldable pub validate_calldata : Calldata → Result (Unit {0})
validate_calldata (no_object value) = err (
    zk_input_error (text "calldata")
      (text "is not an object (received " ++ type_of value ++ text ")") invalid_proof_format none)
validate_calldata (calldata proof_a proof_b proof_c public_inputs) = do
  assert_buffer_length proof_a 64 (text "calldata.proofA")
  assert_buffer_length proof_b 128 (text "calldata.proofB")
  assert_buffer_length proof_c 64 (text "calldata.proofC")
  assert_inputs public_inputs
