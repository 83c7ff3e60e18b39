-- ===== src/Demo/Batch.antt =====
-- demo/src/batchVerify.ts: three proofs for three circuits in one call.
use zksoroban.Prelude.{
  ℕ, Bool, true, false, not, List, [], ◌∷◌, ◌++◌, Option, none, some, all, if◌then◌else◌,
}
use zksoroban.Js.Text.{Text, text}
use zksoroban.Js.Numeral.{to_string}
use zksoroban.Types.{native_error}
use zksoroban.Types.Result
use zksoroban.Types.Result.{Result, ok, err, throw_if}
use zksoroban.Cli.{Files, newline, or_default}
use zksoroban.Verify.Run.{Run, ◌>>=◌, ◌>>◌, lift}
use zksoroban.Verify.Stellar.{Stellar, Server}
use zksoroban.Verify.Registry.{RegistryBatchItem, verify_batch_via_registry}
use zksoroban.Demo.{networks, is_network, log_line}
use zksoroban.Demo.Ask.{testnet_registry_contract_id}
use zksoroban.Demo.Main.{FullProof}

-- `loadFixture(circuit)`, with the directory of the circuits.
unfoldable pub load_fixture : Files → (circuits circuit : Text) → Result FullProof
load_fixture files circuits circuit =
    Result.◌>>=◌ (files.read_json (circuits ++ text "/" ++ circuit ++ text "/fixtures/proof.json"))
      λ proof.
        Result.◌>>=◌
          (files.read_json (circuits ++ text "/" ++ circuit ++ text "/fixtures/public.json"))
          λ public_signals. ok (record { proof = proof; public_signals = public_signals })

-- `Boolean(process.env.SOROBAN_TEST_REGISTRY_CONTRACT_ID)`
abbrev pub is_given : Option Text → Bool
is_given none = false
is_given (some []) = false
is_given (some (c ∷ s)) = true

unfoldable pub live_registry_notice : Text
live_registry_notice =
    text
      "SOROBAN_TEST_REGISTRY_CONTRACT_ID is not set, so this run targets the live Testnet registry ("
    ++ testnet_registry_contract_id
    ++ text
        "), which today only has poseidon_preimage (circuit ID 1) registered — not range_proof/threshold_2of3/merkle_inclusion (IDs 2/3/4), which is what this batch asks about. Every result below is expected to come back `false` against that deployment; that's the registry correctly reporting 'unknown circuit', not a bug in verify_batch."
    ++ newline
    ++ text
        "To see real `true` results, register those three circuits' verifying keys (see docs/multi-circuit.md and sdk/src/proof.ts's formatVerifyingKey) with a registry instance of your own, and point SOROBAN_TEST_REGISTRY_CONTRACT_ID at it."
    ++ newline

unfoldable pub unknown_network : Text → Text
unknown_network network =
    text "Unknown SOROBAN_NETWORK \"" ++ network ++ text "\". Expected \"testnet\" or \"mainnet\"."

abbrev pub all_verified : Text
all_verified = text "✓ All 3 proofs verified true, across 3 circuit IDs, in a single batch call."

abbrev pub not_all_verified : Text
not_all_verified =
    text
      "✗ Expected all 3 proofs to verify true against the configured test registry — check that range_proof/threshold_2of3/merkle_inclusion are registered there under the circuit IDs this script used."

-- The ids of the three circuits.
pub record CircuitIds : Type 0 where
  pub range_proof : ℕ
  pub threshold_2of3 : ℕ
  pub merkle_inclusion : ℕ

-- `if (!rpcUrl) throw …`
unfoldable pub require_network : Text → Result (Unit {0})
require_network network =
    throw_if (not (is_network (networks network))) (native_error (unknown_network network))

module _ (s : Stellar) where
  open s use {Tx}

  -- The lines behind the results, with the exit code of the program.
  unfoldable pub report_results : (is_test_registry : Bool) → List Bool → Run Tx ℕ
  report_results false results = lift (ok 0)
  report_results true results =
      if all (λ b. b) results
      then (log_line all_verified >> lift (ok 0))
      else (log_line not_all_verified >> lift (ok 1))

  -- `if (!targetsTestRegistry) console.log(…);`
  unfoldable pub announce_registry : Option Text → Run Tx (Unit {0})
  announce_registry given = if is_given given then lift (ok tt) else log_line live_registry_notice

  abbrev pub item : ℕ → FullProof → RegistryBatchItem
  item id fixture = record {
    circuit_id = id;
    proof = fixture.proof;
    public_signals = fixture.public_signals;
  }

  -- `to_lower` is `toLowerCase`, `inspect` the text that the console has for the results, and
  -- `files` reads the fixtures under `circuits`.
  unfoldable pub batch_main :
      Server s
      → (to_lower : Text → Text) → (inspect : List Bool → Text) → Files
      → (circuits : Text) → (env : Text → Option Text) → CircuitIds
      → Run Tx ℕ
  batch_main server to_lower inspect files circuits env ids = do
    let network = to_lower (or_default (env (text "SOROBAN_NETWORK")) (text "testnet"))
    lift (require_network network)
    let given = env (text "SOROBAN_TEST_REGISTRY_CONTRACT_ID")
    let registry = or_default given testnet_registry_contract_id
    announce_registry given
    range_proof ← lift (load_fixture files circuits (text "range_proof"))
    threshold ← lift (load_fixture files circuits (text "threshold_2of3"))
    merkle ← lift (load_fixture files circuits (text "merkle_inclusion"))
    log_line (
        text "Batch-verifying 3 proofs across 3 circuit IDs ("
        ++ to_string 10 ids.range_proof
        ++ text ", "
        ++ to_string 10 ids.threshold_2of3
        ++ text ", "
        ++ to_string 10 ids.merkle_inclusion
        ++ text ") against "
        ++ registry
        ++ text " in one call...")
    results ← verify_batch_via_registry s server (record {
      registry_contract_id = registry;
      items =
          item ids.range_proof range_proof
          ∷ item ids.threshold_2of3 threshold
          ∷ item ids.merkle_inclusion merkle
          ∷ [];
    })
    log_line (text "Results (in order): " ++ inspect results)
    report_results (is_given given) results
