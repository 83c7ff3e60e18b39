-- ===== src/Verify/Registry.antt =====
-- verifyViaRegistry and verifyBatchViaRegistry of sdk/src/verify.ts: calls that are simulated only.
use zksoroban.Prelude.{ℕ, Bool, List, [], ◌∷◌, ◌++◌, Option, none, some, map}
use zksoroban.Js.Text.{Text, text}
use zksoroban.Js.Value.{JsValue, undefined}
use zksoroban.Types.{
  SorobanProofCalldata, soroban_zk_error, contract_invocation_failed, invalid_proof_format,
}
use zksoroban.Types.Result
use zksoroban.Types.Result.{Result, ok, err}
use zksoroban.Validate.Calldata.{of_proof, validate_calldata}
use zksoroban.Proof.{format_proof}
use zksoroban.Verify.Run.{
  get_network, get_account, simulate_transaction, Run, ◌>>=◌, ◌>>◌, lift, await, try_classify,
  try_or,
}
use zksoroban.Verify.Stellar.{Stellar, Server, SimReply, sim_error, simulated}
use zksoroban.Verify.Calls.{
  ProofBundle, resolve_registry_calldata, check_bundle, proof_arguments,
  make_registry_batch_item_sc_val,
}
use zksoroban.Verify.Batch.{or_empty}

pub record VerifyViaRegistryOptions : Type 0 where
  pub registry_contract_id : Text
  pub circuit_id : ℕ
  pub calldata : Option SorobanProofCalldata
  pub bundle : Option ProofBundle

pub record RegistryBatchItem : Type 0 where
  pub circuit_id : ℕ
  pub proof : JsValue
  pub public_signals : JsValue

pub record VerifyBatchViaRegistryOptions : Type 0 where
  pub registry_contract_id : Text
  pub items : List RegistryBatchItem

-- A circuit with the calldata for it.
pub record CircuitCalldata : Type 0 where
  pub circuit_id : ℕ
  pub calldata : SorobanProofCalldata

unfoldable pub format_circuits : List RegistryBatchItem → Result (List CircuitCalldata)
format_circuits [] = ok []
format_circuits (item ∷ items) =
    Result.◌>>=◌ (format_proof item.proof item.public_signals undefined) λ c.
      Result.◌>>=◌ (format_circuits items)
        λ cs. ok (record { circuit_id = item.circuit_id; calldata = c } ∷ cs)

unfoldable pub validate_circuits : List CircuitCalldata → Result (Unit {0})
validate_circuits [] = ok tt
validate_circuits (c ∷ cs) =
    Result.◌>>◌ (validate_calldata (of_proof c.calldata)) (validate_circuits cs)

unfoldable pub require_circuits : List RegistryBatchItem → Result (Unit {0})
require_circuits [] = err (
    soroban_zk_error (text "verifyBatchViaRegistry requires at least one item")
      invalid_proof_format)
require_circuits (item ∷ items) = ok tt

module _ (s : Stellar) where
  open s use {
    ScVal, Account, Contract, Tx, scv_vec, scv_u32, new_contract, new_account, build, to_boolean,
    to_booleans,
  }

  -- The account of a throw-away key: the network's, or a synthetic one if the network has none.
  unfoldable pub ephemeral_account : Server s → Run Tx Account
  ephemeral_account server =
      try_or (await (get_account server.ephemeral) (server.account server.ephemeral))
        (new_account server.ephemeral)

  -- The returned value of a simulation of `function`, or the error for its lack.
  unfoldable pub retval_of : Text → SimReply s → Result ScVal
  retval_of function (sim_error message) = err (
      soroban_zk_error (function ++ text " simulation failed: " ++ message)
        contract_invocation_failed)
  retval_of function (simulated none fee) = err (
      soroban_zk_error (function ++ text " simulation returned no result")
        contract_invocation_failed)
  retval_of function (simulated (some value) fee) = ok value

  -- The steps from the contract to the value that a simulated call returns.
  unfoldable pub simulate_call : Server s → Text → Text → Text → List ScVal → Run Tx ScVal
  simulate_call server contract_id passphrase function arguments = do
    contract ← lift (new_contract contract_id)
    account ← ephemeral_account server
    transaction ← lift (build account passphrase contract function arguments)
    reply ← await (simulate_transaction transaction) (server.simulate transaction)
    lift (retval_of function reply)

  unfoldable pub verify_via_registry_body :
      Server s → VerifyViaRegistryOptions → SorobanProofCalldata → Run Tx Bool
  verify_via_registry_body server opts calldata = do
    lift server.connect
    passphrase ← await get_network server.network
    lift (check_bundle opts.bundle passphrase)
    value ←
        simulate_call server opts.registry_contract_id passphrase (text "verify_proof")
          (proof_arguments s (scv_u32 opts.circuit_id) calldata)
    lift (to_boolean value)

  unfoldable pub verify_via_registry : Server s → VerifyViaRegistryOptions → Run Tx Bool
  verify_via_registry server opts = do
    calldata ← lift (resolve_registry_calldata opts.calldata opts.bundle)
    lift (validate_calldata (of_proof calldata))
    try_classify (verify_via_registry_body server opts calldata)

  unfoldable pub batch_item_of : CircuitCalldata → ScVal
  batch_item_of c = make_registry_batch_item_sc_val s c.circuit_id c.calldata

  unfoldable pub verify_batch_via_registry_body :
      Server s → VerifyBatchViaRegistryOptions → List CircuitCalldata → Run Tx (List Bool)
  verify_batch_via_registry_body server opts circuits = do
    lift server.connect
    passphrase ← await get_network server.network
    value ←
        simulate_call server opts.registry_contract_id passphrase (text "verify_batch")
          (scv_vec (map batch_item_of circuits) ∷ [])
    booleans ← lift (to_booleans value)
    lift (ok (or_empty booleans))

  unfoldable pub verify_batch_via_registry :
      Server s → VerifyBatchViaRegistryOptions → Run Tx (List Bool)
  verify_batch_via_registry server opts = do
    lift (require_circuits opts.items)
    circuits ← lift (format_circuits opts.items)
    lift (validate_circuits circuits)
    try_classify (verify_batch_via_registry_body server opts circuits)
