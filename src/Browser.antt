-- ===== src/Browser.antt =====
-- generateProof of sdk/src/browser.ts.
pub mod Laws
use zksoroban.Prelude.{[], ◌++◌, Option, none}
use zksoroban.Js.Text.{Text, text}
use zksoroban.Js.Bytes.{Bytes}
use zksoroban.Js.Value.{JsValue, bigint, integer_text, type_of}
use zksoroban.Types.{
  Thrown, zk_input_error, soroban_zk_error, invalid_proof_format, proof_generation_failed, message,
}
use zksoroban.Types.Result.{Result, ok, err, ◌>>=◌, ◌>>◌}
use zksoroban.Prelude.Int.{ℤ}

-- An argument that is a Uint8Array or any other value.
pub data Binary : Type 0 where
  uint8_array : Bytes → Binary
  other_value : JsValue → Binary

pub record GenerateProofResult : Type 0 where
  pub proof : JsValue
  pub public_signals : JsValue

-- `typeof value !== "bigint"` for the argument of that name.
unfoldable pub require_bigint : Text → JsValue → Result ℤ
require_bigint field (bigint z) = ok z
require_bigint field value = err (
    zk_input_error field (text "must be a bigint (received " ++ type_of value ++ text ")")
      invalid_proof_format none)

-- `!(value instanceof Uint8Array)`
unfoldable pub require_bytes : Text → Binary → Result Bytes
require_bytes field (uint8_array bytes) = ok bytes
require_bytes field (other_value value) = err (
    zk_input_error field (text "must be a Uint8Array (received " ++ type_of value ++ text ")")
      invalid_proof_format none)

-- The exceptions of `fullProve` end as errors of the SDK.
abbrev pub as_proof_error : {A : Type 0} → Result A → Result A
as_proof_error (ok a) = ok a
as_proof_error (err t) = err (soroban_zk_error (message t) proof_generation_failed)

-- `loaded` is what `import("snarkjs")` does, and `full_prove` is `snarkjs.groth16.fullProve` on the
-- texts of the secret and the commitment.
unfoldable pub generate_proof :
    (loaded : Result (Unit {0}))
    (full_prove : Text → Text → Bytes → Bytes → Result GenerateProofResult)
    → JsValue
    → JsValue
    → Binary
    → Binary
    → Result GenerateProofResult
generate_proof loaded full_prove secret commitment wasm zkey = do
  s ← require_bigint (text "secret") secret
  c ← require_bigint (text "commitment") commitment
  w ← require_bytes (text "wasm") wasm
  z ← require_bytes (text "zkey") zkey
  loaded
  as_proof_error (full_prove (integer_text s) (integer_text c) w z)
