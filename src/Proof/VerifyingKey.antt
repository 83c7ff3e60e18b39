-- ===== src/Proof/VerifyingKey.antt =====
-- formatVerifyingKey of sdk/src/proof.ts, on any run-time value, such as JSON.parse returns for a
-- key's file.
pub mod Shape
pub mod Laws
pub mod Sound
use zksoroban.Prelude.{
  ℕ, suc, Bool, true, false, not, ◌||◌, List, [], ◌∷◌, ◌==◌, if◌then◌else◌, length,
}
use zksoroban.Js.Text.{Text, text}
use zksoroban.Js.Bytes.{Bytes}
use zksoroban.Js.Value.{
  JsValue, array, Items, nil, cons, items, property, length_lt, equals_text, is_falsy,
}
use zksoroban.Types.{invalid_proof_format, soroban_zk_error, native_error, RegistryVerifyingKey}
use zksoroban.Types.Result.{Result, ok, err, ◌>>=◌, ◌>>◌, throw_if}
use zksoroban.Validate.{indexed}
use zksoroban.Proof.{encode_g1, encode_g2}

-- The callback of the `map` over `vk.IC`, for the points from an index on.
unfoldable pub encode_ic_from : ℕ → List JsValue → Result (List Bytes)
encode_ic_from index [] = ok []
encode_ic_from index (point ∷ rest) = do
  p ← encode_g1 point (indexed (text "IC") index)
  ps ← encode_ic_from (suc index) rest
  ok (p ∷ ps)

-- `vk.IC.map(…)`
unfoldable pub encode_ic : JsValue → Result (List Bytes)
encode_ic (array vs) = encode_ic_from 0 (items vs)
encode_ic v = err (native_error (text "vk.IC.map is not a function"))

abbrev has_wrong_length : ℕ → Bytes → Bool
has_wrong_length n bytes = not (length bytes == n)

-- `ic.some((point) => point.length !== 64)`
unfoldable pub some_wrong_length : List Bytes → Bool
some_wrong_length [] = false
some_wrong_length (p ∷ ps) = has_wrong_length 64 p || some_wrong_length ps

-- `a || b`, where `b` is read only if `a` is false.
abbrev pub or_else : Result Bool → Result Bool → Result Bool
or_else a b = a >>= λ x. if x then ok true else b

-- `vk.protocol !== "groth16"`
abbrev pub wrong_protocol : JsValue → Result Bool
wrong_protocol vk = property vk (text "protocol") >>= λ p. ok (not (equals_text p (text "groth16")))

-- `vk.name.length < 2`
abbrev pub is_short : JsValue → Text → Result Bool
is_short vk name = property vk name >>= λ v. length_lt v 2

abbrev pub has_short_field : JsValue → Result Bool
has_short_field vk = or_else (is_short vk (text "vk_alpha_1")) (
    or_else (is_short vk (text "vk_beta_2"))
      (or_else (is_short vk (text "vk_gamma_2")) (is_short vk (text "vk_delta_2"))))

-- `!Array.isArray(ic) || ic.length === 0`
unfoldable pub lacks_points : JsValue → Bool
lacks_points (array nil) = true
lacks_points (array (cons v vs)) = false
lacks_points v = true

-- `encodeG1(vk.name, "name")` and `encodeG2(vk.name, "name")`
unfoldable pub encode_g1_field : JsValue → Text → Result Bytes
encode_g1_field vk name = property vk name >>= λ v. encode_g1 v name

unfoldable pub encode_g2_field : JsValue → Text → Result Bytes
encode_g2_field vk name = property vk name >>= λ v. encode_g2 v name

-- From the object literal on, for the value of `vk.IC`.
unfoldable pub encode_key : JsValue → JsValue → Result RegistryVerifyingKey
encode_key vk points = do
  alpha ← encode_g1_field vk (text "vk_alpha_1")
  beta ← encode_g2_field vk (text "vk_beta_2")
  gamma ← encode_g2_field vk (text "vk_gamma_2")
  delta ← encode_g2_field vk (text "vk_delta_2")
  ic ← encode_ic points
  throw_if
      (has_wrong_length 64 alpha
        || has_wrong_length 128 beta
        || has_wrong_length 128 gamma
        || has_wrong_length 128 delta
        || some_wrong_length ic)
      (soroban_zk_error (text "Verifying key encoding produced an invalid byte length")
        invalid_proof_format)
  ok (record { alpha = alpha; beta = beta; gamma = gamma; delta = delta; ic = ic })

unfoldable pub format_verifying_key : JsValue → Result RegistryVerifyingKey
format_verifying_key vk = do
  refused ← or_else (ok (is_falsy vk)) (wrong_protocol vk)
  throw_if refused (
      soroban_zk_error (text "Verifying key must be a Groth16 snarkjs verification key")
        invalid_proof_format)
  short ← has_short_field vk
  throw_if short (
      soroban_zk_error (text "Verifying key is missing required Groth16 coordinates")
        invalid_proof_format)
  points ← property vk (text "IC")
  throw_if (lacks_points points) (
      soroban_zk_error (text "Verifying key IC must be a non-empty array of G1 points")
        invalid_proof_format)
  encode_key vk points
