-- ===== src/Verify/OffChain.antt =====
-- verifyOffChain of sdk/src/verifyOffChain.ts.
pub mod Accepted
pub mod Errors
use zksoroban.Prelude.{Bool, true, false, ◌&&◌, not, if◌then◌else◌}
use zksoroban.Js.Text.{text}
use zksoroban.Js.Value.{JsValue, is_object, is_array, equals_text, property}
use zksoroban.Types.{soroban_zk_error, invalid_proof_format, invalid_public_input}
use zksoroban.Types.Result.{Result, ok, err, throw_if, ◌>>=◌, ◌>>◌}

-- `v && typeof v === "object" && v.protocol === "groth16"`
unfoldable pub is_groth16 : JsValue → Result Bool
is_groth16 v =
    if is_object v
    then property v (text "protocol") >>= (λ protocol. ok (equals_text protocol (text "groth16")))
    else ok false

-- `groth16_verify` is `snarkjs.groth16.verify`, with the key, the signals and the proof, and what
-- loading snarkjs may throw.
unfoldable pub verify_off_chain :
    (groth16_verify : JsValue → JsValue → JsValue → Result Bool)
    → JsValue
    → JsValue
    → JsValue
    → Result Bool
verify_off_chain groth16_verify proof public_signals verification_key = do
  is_proof ← is_groth16 proof
  throw_if (not is_proof)
      (soroban_zk_error (text "proof must be a Groth16 snarkjs proof object") invalid_proof_format)
  pi_a ← property proof (text "pi_a")
  pi_b ← property proof (text "pi_b")
  pi_c ← property proof (text "pi_c")
  throw_if (not (is_array pi_a && is_array pi_b && is_array pi_c)) (
      soroban_zk_error (text "proof is missing required Groth16 coordinates (pi_a, pi_b, pi_c)")
        invalid_proof_format)
  throw_if (not (is_array public_signals)) (
      soroban_zk_error (text "publicSignals must be an array of field element strings")
        invalid_public_input)
  is_key ← is_groth16 verification_key
  throw_if (not is_key) (
      soroban_zk_error (text "verificationKey must be a Groth16 verification key object")
        invalid_proof_format)
  groth16_verify verification_key public_signals proof
