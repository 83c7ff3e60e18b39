-- ===== src/Verify/Calls.antt =====
-- The arguments of the functions of sdk/src/verify.ts, and the steps that these share.
pub mod Polling
pub mod Answer
pub mod Settled
pub mod Allowed
use zksoroban.Prelude.{
  ℕ, zero, suc, ◌+◌, ◌-◌, ◌≤◌, Bool, true, false, ◌||◌, not, List, [], ◌∷◌, ◌++◌, Option, none,
  some, ltb, if◌then◌else◌, map, length,
}
use zksoroban.Js.Text.{Text, text, text_eq}
use zksoroban.Js.Numeral.{to_string}
use zksoroban.Js.Bytes.{Bytes}
use zksoroban.Js.Value.{JsValue, undefined}
use zksoroban.Types.{
  SorobanProofCalldata, soroban_zk_error, network_mismatch_error, invalid_proof_format,
  transaction_rejected, contract_invocation_failed, network_error,
}
use zksoroban.Types.Result.{Result, ok, err, throw_if}
use zksoroban.Validate.Calldata.{of_proof, validate_calldata}
use zksoroban.Proof.{format_proof}
use zksoroban.Verify.Run.{
  Call, get_network, get_account, send_transaction, get_transaction, prepare_transaction, wait, Run,
  ◌>>=◌, ◌>>◌, lift, await,
}
use zksoroban.Verify.Stellar.{
  Stellar, bytes_hint, u32_hint, no_hint, SendReply, TxReply, not_found, failed, confirmed, Server,
}

pub record ProofBundle : Type 0 where
  pub proof : JsValue
  pub public_signals : JsValue
  pub circuit : Text
  pub generated_at : Text
  pub network_passphrase : Text

-- `VerifyOptions` and `VerifyViaRegistryOptions` have a calldata, a bundle, both or none.
unfoldable pub resolve :
    Text → Option SorobanProofCalldata → Option ProofBundle → Result SorobanProofCalldata
resolve complaint (some calldata) bundle = ok calldata
resolve complaint none (some bundle) = format_proof bundle.proof bundle.public_signals undefined
resolve complaint none none = err (soroban_zk_error complaint invalid_proof_format)

unfoldable pub resolve_calldata :
    Option SorobanProofCalldata → Option ProofBundle → Result SorobanProofCalldata
resolve_calldata = resolve (text "verifyOnChain requires either calldata or a bundle")

unfoldable pub resolve_registry_calldata :
    Option SorobanProofCalldata → Option ProofBundle → Result SorobanProofCalldata
resolve_registry_calldata = resolve (text "verifyViaRegistry requires either calldata or a bundle")

unfoldable pub assert_bundle_network : ProofBundle → Text → Result (Unit {0})
assert_bundle_network bundle passphrase =
    throw_if (not (text_eq bundle.network_passphrase passphrase))
      (network_mismatch_error bundle.network_passphrase passphrase)

-- `if (opts.bundle) assertBundleNetwork(opts.bundle, network.passphrase);`
unfoldable pub check_bundle : Option ProofBundle → Text → Result (Unit {0})
check_bundle none passphrase = ok tt
check_bundle (some bundle) passphrase = assert_bundle_network bundle passphrase

abbrev pub default_timeout_ms : ℕ
default_timeout_ms = 30_000

abbrev pub poll_interval_ms : ℕ
poll_interval_ms = 1000

unfoldable pub timed_out : {A : Type 0} → Result A
timed_out =
    err (soroban_zk_error (text "Timed out waiting for transaction confirmation") network_error)

-- `status` of `sendTransaction` is PENDING or DUPLICATE.
unfoldable pub is_accepted : Text → Bool
is_accepted status = text_eq status (text "PENDING") || text_eq status (text "DUPLICATE")

unfoldable pub check_status : Text → Result (Unit {0})
check_status status = throw_if (not (is_accepted status)) (
    soroban_zk_error (text "Transaction submission failed with status " ++ status)
      transaction_rejected)

module _ (s : Stellar) where
  open s use {
    ScVal, Account, Contract, Tx, Keypair, scv_bytes, scv_vec, scv_struct, address, public_key,
    new_contract, build, sign,
  }

  unfoldable pub make_public_inputs_sc_val : List Bytes → ScVal
  make_public_inputs_sc_val inputs = scv_vec (map scv_bytes inputs)

  unfoldable pub make_proof_item_sc_val : SorobanProofCalldata → ScVal
  make_proof_item_sc_val c = scv_struct (
      (text "proof_a", bytes_hint c.proof_a)
      ∷ (text "proof_b", bytes_hint c.proof_b)
      ∷ (text "proof_c", bytes_hint c.proof_c)
      ∷ (text "public_inputs", no_hint c.public_inputs)
      ∷ [])

  unfoldable pub make_registry_batch_item_sc_val : ℕ → SorobanProofCalldata → ScVal
  make_registry_batch_item_sc_val circuit_id c = scv_struct (
      (text "id", u32_hint circuit_id)
      ∷ (text "proof_a", bytes_hint c.proof_a)
      ∷ (text "proof_b", bytes_hint c.proof_b)
      ∷ (text "proof_c", bytes_hint c.proof_c)
      ∷ (text "public_inputs", no_hint c.public_inputs)
      ∷ [])

  -- The arguments of `verify_proof` behind the caller or the circuit.
  unfoldable pub proof_arguments : ScVal → SorobanProofCalldata → List ScVal
  proof_arguments first c =
      first
      ∷ scv_bytes c.proof_a
      ∷ scv_bytes c.proof_b
      ∷ scv_bytes c.proof_c
      ∷ make_public_inputs_sc_val c.public_inputs
      ∷ []

  -- The account of the caller, and the transaction that calls `function` with the caller first.
  unfoldable pub caller_transaction :
      Server s → Keypair → Text → Text → Text → (ScVal → List ScVal) → Run Tx Tx
  caller_transaction server keypair contract_id passphrase function arguments = do
    account ← await (get_account (public_key keypair)) (server.account (public_key keypair))
    contract ← lift (new_contract contract_id)
    caller ← lift (address (public_key keypair))
    lift (build account passphrase contract function (arguments caller))

  -- `prepareTransaction`, `sign`, `sendTransaction`, and the check of the status.
  unfoldable pub submit : Server s → Keypair → Tx → Run Tx Text
  submit server keypair transaction = do
    prepared ← await (prepare_transaction transaction) (server.prepared transaction)
    reply ← await (send_transaction (sign keypair prepared)) (server.sent (sign keypair prepared))
    lift (check_status reply.status)
    lift (ok reply.hash)

  -- `await new Promise((resolve) => setTimeout(resolve, ms))`, where `waited` milliseconds have been
  -- waited before; the time that has then been waited is passed on.
  abbrev pub sleep : {A : Type 0} → ℕ → ℕ → (ℕ → Run Tx A) → Run Tx A
  sleep ms waited next = await (wait ms) (ok tt) >>= λ done. next (waited + ms)

  module _ {Payload A : Type 0} (clock : ℕ → ℕ → ℕ) (polled : ℕ → Result (TxReply Payload))
      (settle : Payload → Result A) (hash : Text) where
    -- The body of the loop behind the test of the clock: `next` is the next round, from the time
    -- that has been waited by then.
    unfoldable pub settle_reply : TxReply Payload → ℕ → (ℕ → Run Tx A) → Run Tx A
    settle_reply not_found waited next = sleep poll_interval_ms waited next
    settle_reply (failed tx_hash ledger) waited next = lift (
        err (
          soroban_zk_error
            (text "Transaction " ++ tx_hash ++ text " failed on ledger " ++ to_string 10 ledger)
            transaction_rejected))
    settle_reply (confirmed payload) waited next = lift (settle payload)

    -- The loop from round `i` on, where the waits were `waited` milliseconds in all. `clock 0 0` is
    -- `started`, and `clock waited (i + 1)` the reading that round `i` tests. The fuel of 30,000
    -- outlasts the test where the clock keeps time.
    unfoldable pub poll : ℕ → ℕ → ℕ → Run Tx A
    poll zero i waited = lift timed_out
    poll (suc fuel) i waited = elim (ltb (clock waited (suc i) - clock 0 0) default_timeout_ms) [
      | false ↦ lift timed_out
      | true ↦ await (get_transaction hash) (polled i) >>= λ reply.
          settle_reply reply waited (poll fuel (suc i))
    ]

-- The clock does not go back between two readings, and a wait takes its time at least.
abbrev pub KeepsTime : (ℕ → ℕ → ℕ) → Type 0
KeepsTime clock = (waited i ms : ℕ) → clock waited i + ms ≤ clock (waited + ms) (suc i)
