-- ===== src/Tests/Demo.antt =====
-- The browser's proof generation and the demo's programs at concrete inputs.
use zksoroban.Prelude.{Option, Bool, ◌≤◌, none, some, ◌≡◌, ◌↔◌, List, [], ◌∷◌, arith}
use zksoroban.Prelude.Int.{pos}
use zksoroban.Js.Text.{Text, text}
use zksoroban.Js.Bytes.{Bytes}
use zksoroban.Js.Value.{bigint}
use zksoroban.Types.Result.{Result, ok}
use zksoroban.Verify.Run.Sends.{submissions}
use zksoroban.Browser.{uint8_array, GenerateProofResult, generate_proof}
use zksoroban.Browser.Laws.{IsProved, generate_proof_iff}
use zksoroban.Demo.{networks}
use zksoroban.Demo.Ask.{Answers, collect_answers}
use zksoroban.Demo.Answers.{Fine, AreValid, collect_answers-Fine}
use zksoroban.Demo.Main.{FullProof, run_scenarios}
use zksoroban.Demo.Fee.{Surroundings, fee_main}
use zksoroban.Demo.Batch.{CircuitIds, batch_main}
use zksoroban.Demo.Submissions.{demo_submissions}
use zksoroban.Tests.Sample.{sample, sample_signals}
use zksoroban.Tests.Server.{stellar, server}
use zksoroban.Tests.Poseidon.{constants}
use zksoroban.Tests.Cli.{files}

abbrev made : GenerateProofResult
made = record { proof = sample; public_signals = sample_signals }

abbrev prover : Text → Text → Bytes → Bytes → Result GenerateProofResult
prover secret commitment wasm zkey = ok made

generate_proof_iff_example :
    (generate_proof
        (ok tt)
        prover
        (bigint (pos 42))
        (bigint (pos 7))
        (uint8_array [])
        (uint8_array [])
      ≡ ok made)
    ↔ IsProved
        (ok tt)
        prover
        (bigint (pos 42))
        (bigint (pos 7))
        (uint8_array [])
        (uint8_array [])
        made
generate_proof_iff_example =
    generate_proof_iff (ok tt) prover (bigint (pos 42)) (bigint (pos 7)) (uint8_array [])
      (uint8_array []) made

-- A secret in decimal digits, an unknown network, and three defaults.
abbrev typed : List Text
typed = text "42" ∷ text "devnet" ∷ [] ∷ [] ∷ [] ∷ []

abbrev same : Text → Text
same s = s

collect_answers-Fine_example : Fine AreValid (collect_answers same (1 ∷ 2 ∷ []) typed).ended
collect_answers-Fine_example =
    collect_answers-Fine same 1 (2 ∷ []) typed (omega arith, (omega arith, tt))

-- A prover that returns the sample, and surroundings with a secret key.
abbrev full_prove : Text → Text → Result FullProof
full_prove secret commitment = ok (record { proof = sample; public_signals = sample_signals })

abbrev around : Surroundings stellar
around = record {
  env = λ name. some (text "S");
  keypair_from_secret = ok;
  random_bytes = 1 ∷ [];
  constants = ok constants;
  full_prove = full_prove;
  now = [];
  testnet_passphrase = 1 ∷ [];
}

abbrev answers : Answers
answers = record {
  secret = pos 42;
  network = text "testnet";
  rpc_url = networks (text "testnet");
  contract_id = [];
  verbosity = text "verbose";
}

abbrev inspect : List Bool → Text
inspect results = []

abbrev no_env : Text → Option Text
no_env name = none

abbrev ids : CircuitIds
ids = record { range_proof = 2; threshold_2of3 = 3; merkle_inclusion = 4 }

demo_submissions_example :
    (submissions (fee_main stellar server server around).calls ≤ 1)
    × (submissions (run_scenarios stellar server server (ok constants) full_prove [] answers).calls
        ≤ 0)
    × (submissions (batch_main stellar server same inspect files [] no_env ids).calls ≤ 0)
demo_submissions_example =
    demo_submissions stellar server server around (ok constants) full_prove [] answers same inspect
      files [] no_env ids
