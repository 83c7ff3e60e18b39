-- ===== src/Tests/Proofs.antt =====
-- formatProof and the checks around it, at the sample proof.
use zksoroban.Prelude.{ℕ, List, [], ◌∷◌, ◌++◌, ◌≡◌, refl, true, arith, none, drop, ◌⊎◌, ◌↔◌}
use zksoroban.Prelude.Int.{pos}
use zksoroban.Js.Text.{text, text_eq, pad_start}
use zksoroban.Js.Numeral.{is_decimal, is_decimal_or_hex, is_hex, big_int, spelled, to_string}
use zksoroban.Js.Bytes.{from_hex, be_value}
use zksoroban.Js.Value.{
  JsValue, integer, undefined, array, object, field, end, nil, property, element, field_of, type_of,
}
use zksoroban.Types.{SorobanProofCalldata, invalid_proof_format, zk_input_error, Thrown}
use zksoroban.Types.Result.{Result, ok, err}
use zksoroban.Validate.{
  validate_proof_input, validate_point, assert_array, assert_proof_field_element, indexed,
  bn254_field_modulus,
}
use zksoroban.Validate.Shape.{IsProof, IsSignalArray, Coordinates}
use zksoroban.Validate.Calldata.{of_proof, validate_calldata}
use zksoroban.Validate.Sound.{validate_proof_input_iff}
use zksoroban.Proof.{format_proof, bigint_to_bytes32, parse_field_element, expiry_words}
use zksoroban.Proof.Words.{be_value-bigint_to_bytes32}
use zksoroban.Proof.Layout.{IsExpiry, ledger, layout}
use zksoroban.Proof.Format.{format_proof_complete, format_proof_sound, format_proof_throws}
use zksoroban.Proof.Decode.{decode, decode-format_proof}
use zksoroban.Proof.Accepted.{validate_calldata-format_proof}
use zksoroban.Verify.OffChain.{is_groth16, verify_off_chain}
use zksoroban.Verify.OffChain.Accepted.{verify_off_chain-format_proof}
use zksoroban.Prelude.{Bool}
use zksoroban.Verify.OffChain.Errors.{IsExpected, verify_off_chain-OnlyThrows}
use zksoroban.Types.Errors.{OnlyThrows}
use zksoroban.Tests.Sample.{
  str, sample, sample_numbers, sample_signals, sample-IsProof, sample-IsSignalArray,
}

runs : Unit {0}
unfolding format_proof validate_proof_input property field_of element text text_eq type_of
    assert_array validate_point assert_proof_field_element parse_field_element to_string is_decimal
    is_decimal_or_hex is_hex big_int spelled bn254_field_modulus bigint_to_bytes32 from_hex
    pad_start indexed
runs = tt

abbrev expiry : JsValue
expiry = integer (pos 123456)

abbrev written : SorobanProofCalldata
written = layout sample_numbers ((42 ∷ 255 ∷ []) ++ (123456 ∷ []))

format_proof_complete_example : format_proof sample sample_signals expiry ≡ ok written
format_proof_complete_example =
    format_proof_complete sample sample_signals expiry sample_numbers (42 ∷ 255 ∷ []) (123456 ∷ [])
      sample-IsProof sample-IsSignalArray (ledger (omega arith))

formatted : format_proof sample sample_signals expiry ≡ ok written
formatted =
    format_proof_complete sample sample_signals expiry sample_numbers (42 ∷ 255 ∷ []) (123456 ∷ [])
      sample-IsProof sample-IsSignalArray (ledger (omega arith))

format_proof_sound_example :
    (n : Coordinates) × (ns ms : List ℕ) × IsProof sample n
    × IsSignalArray sample_signals ns
    × IsExpiry expiry ms
    × (written ≡ layout n (ns ++ ms))
format_proof_sound_example = format_proof_sound sample sample_signals expiry written formatted

decode-format_proof_example : decode written ≡ (sample_numbers, (42 ∷ 255 ∷ []) ++ (123456 ∷ []))
decode-format_proof_example =
    decode-format_proof sample sample_signals expiry sample_numbers (42 ∷ 255 ∷ []) (123456 ∷ [])
      written sample-IsProof sample-IsSignalArray (ledger (omega arith)) formatted

validate_calldata-format_proof_example : validate_calldata (of_proof written) ≡ ok tt
validate_calldata-format_proof_example =
    validate_calldata-format_proof sample sample_signals expiry written formatted

validate_proof_input_iff_example :
    (validate_proof_input sample sample_signals ≡ ok tt)
    ↔ ((n : Coordinates) × (ns : List ℕ) × IsProof sample n × IsSignalArray sample_signals ns)
validate_proof_input_iff_example = validate_proof_input_iff sample sample_signals

-- An empty array of coordinates is refused by validateProofInput.
abbrev pointless : JsValue
pointless = object (field (text "pi_a") (array nil) (field (text "protocol") (str "groth16") end))

abbrev too_short : Thrown
too_short =
    zk_input_error (text "pi_a") (text "must have at least 2 elements (received 0)")
      invalid_proof_format none

refused : format_proof pointless sample_signals undefined ≡ err too_short
unfolding runs
refused = refl

format_proof_throws_example :
    (validate_proof_input pointless sample_signals ≡ err too_short)
    ⊎ ((validate_proof_input pointless sample_signals ≡ ok tt)
        × (expiry_words undefined ≡ err too_short))
format_proof_throws_example =
    format_proof_throws pointless sample_signals undefined too_short refused

be_value-bigint_to_bytes32_example : be_value 0 (bigint_to_bytes32 123456789) ≡ 123456789
be_value-bigint_to_bytes32_example = be_value-bigint_to_bytes32 123456789 (omega arith)

-- 256 is the bytes 0 … 0 1 0.
word_256 : drop 30 (bigint_to_bytes32 256) ≡ 1 ∷ 0 ∷ []
unfolding runs
word_256 = refl

-- A verifier that accepts everything, and a key that is an object with a protocol.
abbrev accepting : JsValue → JsValue → JsValue → Result Bool
accepting k s p = ok true

abbrev groth16_key : JsValue
groth16_key = object (field (text "protocol") (str "groth16") end)

groth16_key-accepted : is_groth16 groth16_key ≡ ok true
unfolding is_groth16 runs
groth16_key-accepted = refl

verify_off_chain-format_proof_example :
    verify_off_chain accepting sample sample_signals groth16_key ≡ ok true
verify_off_chain-format_proof_example =
    verify_off_chain-format_proof accepting sample sample_signals expiry groth16_key written
      formatted groth16_key-accepted

verify_off_chain-OnlyThrows_example :
    OnlyThrows
      (IsExpected accepting sample_signals groth16_key sample)
      (verify_off_chain accepting sample sample_signals groth16_key)
verify_off_chain-OnlyThrows_example =
    verify_off_chain-OnlyThrows accepting sample_signals groth16_key sample
