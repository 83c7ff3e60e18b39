-- ===== src/Tests/Verify.antt =====
-- sdk/src/verify.ts at the small server.
use zksoroban.Prelude.{ℕ, suc, ◌<◌, ◌≤◌, [], ◌∷◌, ◌≡◌, refl, some, none, arith}
use zksoroban.Js.Text.{text, text_eq}
use zksoroban.Types.{SorobanProofCalldata, network_mismatch_error}
use zksoroban.Types.Result.{ok, err}
use zksoroban.Validate.Calldata.{
  of_proof, validate_calldata, assert_buffer_length, assert_inputs, assert_inputs_from,
}
use zksoroban.Verify.Run.{get_network}
use zksoroban.Verify.Run.Laws.{Calls}
use zksoroban.Verify.Run.Sends.{submissions}
use zksoroban.Verify.Calls.{
  resolve, resolve_calldata, resolve_registry_calldata, check_bundle, caller_transaction, submit,
  check_status, is_accepted, poll, settle_reply,
}
use zksoroban.Verify.Calls.Answer.{Answers}
use zksoroban.Verify.Calls.Allowed.{IsAllowed}
use zksoroban.Verify.OnChain.{
  verify_on_chain, verify_on_chain_body, settle_verify, decode_verify_return_value, result_of,
}
use zksoroban.Verify.OnChain.Outcome.{IsReported, verify_on_chain_sound}
use zksoroban.Verify.OnChain.Submission.{IsProofCall, verify_on_chain-Calls}
use zksoroban.Verify.Returned.{Decoded, direct}
use zksoroban.Verify.Sends.{verify_submissions}
use zksoroban.Verify.OnChain.Refused.{verify_network_mismatch}
use zksoroban.Verify.Batch.{verify_batch_on_chain}
use zksoroban.Verify.Fee.{estimate_verify_fee}
use zksoroban.Verify.Registry.{verify_via_registry, verify_batch_via_registry}
use zksoroban.Verify.Config.{get_contract_config, get_contract_version}
use zksoroban.Prelude.{false}
use zksoroban.Verify.OnChain.Complete.{IsSubmitted, verify_on_chain_complete}
use zksoroban.Verify.Stellar.{not_found}
use zksoroban.Prelude.{zero, false}
use zksoroban.Tests.Server.{
  keeps_time, flag, thing, second_payload, batch_options, registry_options, registry_batch_options,
  bundle, bundle_options, bundle_registry_options, config, version_text, stellar, server, calldata,
  options, on_chain_result,
}

runs : Unit {0}
unfolding verify_on_chain verify_on_chain_body resolve_calldata resolve check_bundle
    validate_calldata assert_buffer_length assert_inputs assert_inputs_from caller_transaction
    submit check_status is_accepted poll settle_reply settle_verify decode_verify_return_value
    result_of text_eq text of_proof resolve_registry_calldata
runs = tt

on_chain_returns : (verify_on_chain stellar server options).result ≡ ok on_chain_result
unfolding runs
on_chain_returns = refl

verify_on_chain_sound_example :
    (c : SorobanProofCalldata) × (resolve_calldata (some calldata) none ≡ ok c)
    × (validate_calldata (of_proof c) ≡ ok tt)
    × Answers server.polled (λ p. IsReported stellar p on_chain_result) 0
verify_on_chain_sound_example =
    verify_on_chain_sound stellar server options on_chain_result on_chain_returns

submitted : IsSubmitted stellar server options
unfolding runs
submitted = record {
  calldata = calldata;
  resolved = refl;
  valid = refl;
  connected = refl;
  passphrase = 1 ∷ [];
  asked = refl;
  matched = refl;
  account = [];
  loaded = refl;
  contract = [];
  opened = refl;
  caller = thing;
  named = refl;
  tx = text "verify_proof";
  built = refl;
  prepared = text "verify_proof";
  from_server = refl;
  reply = record { status = text "PENDING"; hash = 7 ∷ [] };
  sent = refl;
  accepted = refl;
}

first_answer : (j : ℕ) → j < 1 → server.polled j ≡ ok not_found
first_answer zero h = refl
first_answer (suc j) h = absurd (omega arith)

Decoded-flag : Decoded stellar second_payload false
Decoded-flag = direct (flag false) refl refl

verify_on_chain_complete_example :
    (verify_on_chain stellar server options).result ≡ ok on_chain_result
verify_on_chain_complete_example =
    verify_on_chain_complete stellar server options submitted 1 second_payload 12 (9 ∷ []) false
      keeps_time (omega arith) first_answer refl refl refl Decoded-flag

verify_on_chain-Calls_example :
    Calls
      (IsAllowed stellar server [] []
        (text "verify_proof")
        (λ passphrase. check_bundle none passphrase ≡ ok tt)
        (IsProofCall stellar server options))
      (verify_on_chain stellar server options)
verify_on_chain-Calls_example = verify_on_chain-Calls stellar server options

verify_submissions_example :
    (submissions (verify_on_chain stellar server options).calls ≤ 1)
    × (submissions (verify_batch_on_chain stellar server batch_options).calls ≤ 1)
    × (submissions (estimate_verify_fee stellar server options).calls ≤ 0)
    × (submissions (verify_via_registry stellar server registry_options).calls ≤ 0)
    × (submissions (verify_batch_via_registry stellar server registry_batch_options).calls ≤ 0)
    × (submissions (get_contract_config stellar config server []).calls ≤ 0)
    × (submissions (get_contract_version stellar version_text server []).calls ≤ 0)
verify_submissions_example =
    verify_submissions stellar server options registry_options batch_options registry_batch_options
      config version_text []

valid_calldata : validate_calldata (of_proof calldata) ≡ ok tt
unfolding runs
valid_calldata = refl

chosen_calldata : resolve_calldata (some calldata) (some bundle) ≡ ok calldata
unfolding runs
chosen_calldata = refl

chosen_registry_calldata : resolve_registry_calldata (some calldata) (some bundle) ≡ ok calldata
unfolding runs
chosen_registry_calldata = refl

other_network : text_eq (2 ∷ []) (1 ∷ []) ≡ false
unfolding runs
other_network = refl

verify_network_mismatch_example :
    (verify_on_chain stellar server bundle_options ≡ record {
      calls = get_network ∷ [];
      result = err (network_mismatch_error (2 ∷ []) (1 ∷ []));
    })
    × (estimate_verify_fee stellar server bundle_options ≡ record {
      calls = get_network ∷ [];
      result = err (network_mismatch_error (2 ∷ []) (1 ∷ []));
    })
    × (verify_via_registry stellar server bundle_registry_options ≡ record {
      calls = get_network ∷ [];
      result = err (network_mismatch_error (2 ∷ []) (1 ∷ []));
    })
verify_network_mismatch_example =
    verify_network_mismatch stellar server (1 ∷ []) bundle calldata refl refl other_network
      valid_calldata bundle_options bundle_registry_options refl refl chosen_calldata
      chosen_registry_calldata
