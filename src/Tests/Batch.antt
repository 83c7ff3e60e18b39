-- ===== src/Tests/Batch.antt =====
-- verifyBatchOnChain of sdk/src/verify.ts at the small server.
use zksoroban.Prelude.{List, [], ◌≡◌, refl}
use zksoroban.Js.Text.{text, text_eq}
use zksoroban.Types.{SorobanProofCalldata}
use zksoroban.Types.Result.{ok}
use zksoroban.Validate.Calldata.{
  of_proof, validate_calldata, assert_buffer_length, assert_inputs, assert_inputs_from,
}
use zksoroban.Verify.Run.Laws.{Calls}
use zksoroban.Verify.Calls.{
  caller_transaction, submit, check_status, is_accepted, poll, settle_reply,
}
use zksoroban.Verify.Calls.Answer.{Answers}
use zksoroban.Verify.Calls.Allowed.{IsAllowed}
use zksoroban.Verify.OnChain.Submission.{IsBatchCall, verify_batch_on_chain-Calls}
use zksoroban.Verify.Batch.{
  verify_batch_on_chain, verify_batch_body, settle_batch, batch_result, format_items,
  validate_items, require_items, decode_bool_array_from_diagnostics, or_empty, scan_raw_events,
  fn_returns_of,
}
use zksoroban.Verify.Batch.Outcome.{IsBatchReported, verify_batch_sound}
use zksoroban.Js.Text.{pad_start}
use zksoroban.Js.Numeral.{to_string, is_decimal, is_decimal_or_hex, is_hex, big_int, spelled}
use zksoroban.Js.Bytes.{from_hex, concat}
use zksoroban.Js.Value.{property, element, field_of, type_of, length_lt}
use zksoroban.Validate.{
  validate_proof_input, validate_point, assert_array, assert_proof_field_element, indexed,
  bn254_field_modulus, validate_public_signals, validate_signals_from, validate_signal,
  max_32_byte_value,
}
use zksoroban.Proof.{
  format_proof, bigint_to_bytes32, parse_field_element, lacks_coordinates, encode_public_inputs,
  encode_signals_from, expiry_words, encode_g1, encode_g2, coordinate,
}
use zksoroban.Tests.Server.{batch_options, batch_outcome, stellar, server}

runs : Unit {0}
unfolding validate_calldata assert_buffer_length assert_inputs assert_inputs_from caller_transaction
    submit check_status is_accepted poll settle_reply text_eq text of_proof pad_start to_string
    verify_batch_on_chain verify_batch_body settle_batch batch_result format_items validate_items
    require_items decode_bool_array_from_diagnostics or_empty scan_raw_events fn_returns_of
    format_proof validate_proof_input property field_of element type_of assert_array validate_point
    assert_proof_field_element parse_field_element is_decimal is_decimal_or_hex is_hex big_int
    spelled bn254_field_modulus bigint_to_bytes32 from_hex indexed validate_public_signals
    validate_signals_from validate_signal max_32_byte_value lacks_coordinates length_lt
    encode_public_inputs encode_signals_from expiry_words encode_g1 encode_g2 coordinate concat
runs = tt

batch_returns : (verify_batch_on_chain stellar server batch_options).result ≡ ok batch_outcome
unfolding runs
batch_returns = refl

verify_batch_sound_example :
    (cs : List SorobanProofCalldata) × (format_items batch_options.items ≡ ok cs)
    × (validate_items cs ≡ ok tt)
    × Answers server.polled_raw (λ p. IsBatchReported stellar p batch_outcome) 0
verify_batch_sound_example =
    verify_batch_sound stellar server batch_options batch_outcome batch_returns

verify_batch_on_chain-Calls_example :
    Calls
      (IsAllowed stellar server [] []
        (text "verify_batch")
        (λ passphrase. server.network ≡ ok passphrase)
        (IsBatchCall stellar server batch_options))
      (verify_batch_on_chain stellar server batch_options)
verify_batch_on_chain-Calls_example = verify_batch_on_chain-Calls stellar server batch_options
