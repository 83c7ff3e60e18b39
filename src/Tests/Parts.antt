-- ===== src/Tests/Parts.antt =====
-- The parts of sdk/src/verify.ts that need no whole run, at concrete inputs.
use zksoroban.Prelude.{◌≤◌, [], ◌++◌, ◌≡◌, refl}
use zksoroban.Js.Text.{text}
use zksoroban.Types.{Thrown, soroban_zk_error, native_error, proof_expired, message}
use zksoroban.Verify.Classify.{classify_error, strip_prefix}
use zksoroban.Verify.Classify.Laws.{
  contract_error, classify-contract_error, NoneIn, strip-none, expired_proof,
}
use zksoroban.Verify.Calls.{poll}
use zksoroban.Verify.Calls.Polling.{Loops, asked, poll-Loops, poll_calls}
use zksoroban.Verify.OnChain.{settle_verify}
use zksoroban.Verify.Fee.{stroops_to_xlm}
use zksoroban.Verify.Fee.Readback.{xlm_to_stroops, xlm_to_stroops-stroops_to_xlm}
use zksoroban.Verify.Fee.{trim_zeros, with_fraction}
use zksoroban.Js.Text.{pad_start, all_of}
use zksoroban.Js.Numeral.{to_string}
use zksoroban.Tests.Server.{keeps_time, stellar, server}

runs : Unit {0}
unfolding stroops_to_xlm trim_zeros with_fraction pad_start all_of to_string text
runs = tt

stroops_example : xlm_to_stroops (stroops_to_xlm 12_000_100) ≡ 12_000_100
stroops_example = xlm_to_stroops-stroops_to_xlm 12_000_100

stroops_text : stroops_to_xlm 12_000_100 ≡ text "1.20001"
unfolding runs
stroops_text = refl

abbrev expired : Thrown
expired = native_error (text "HostError: " ++ contract_error 4 (text " at verify_proof"))

expired-message : message expired ≡ text "HostError: " ++ contract_error 4 (text " at verify_proof")
unfolding message
expired-message = refl

first_place : NoneIn (text "HostError: ") (contract_error 4 (text " at verify_proof"))
unfolding strip_prefix text to_string
first_place = (
  strip-none _ _ refl,
  (
    strip-none _ _ refl,
    (
      strip-none _ _ refl,
      (
        strip-none _ _ refl,
        (
          strip-none _ _ refl,
          (
            strip-none _ _ refl,
            (
              strip-none _ _ refl,
              (
                strip-none _ _ refl,
                (strip-none _ _ refl, (strip-none _ _ refl, (strip-none _ _ refl, tt))),
              ),
            ),
          ),
        ),
      ),
    ),
  ),
)

classify_example : classify_error expired ≡ soroban_zk_error (message expired) proof_expired
classify_example =
    classify-contract_error expired (text "HostError: ") 4 (text " at verify_proof") proof_expired
      expired-message first_place expired_proof

poll-Loops_example :
    Loops stellar server.clock server.polled
      (settle_verify stellar)
      []
      0
      0
      (poll stellar server.clock server.polled (settle_verify stellar) [] 30_000 0 0)
poll-Loops_example =
    poll-Loops stellar server.clock server.polled (settle_verify stellar) [] keeps_time

poll_calls_example :
    asked stellar server.clock server.polled
      (settle_verify stellar)
      []
      (poll stellar server.clock server.polled (settle_verify stellar) [] 30_000 0 0).calls
    ≤ 30
poll_calls_example =
    poll_calls stellar server.clock server.polled (settle_verify stellar) [] keeps_time
