-- ===== src/Verify/Fee.antt =====
-- estimateVerifyFee and stroopsToXlm of sdk/src/verify.ts.
pub mod Readback
use zksoroban.Prelude.{
  ℕ, zero, suc, ◌+◌, ◌/◌, ◌%◌, Bool, true, false, List, [], ◌∷◌, ◌++◌, Option, ltb, ◌==◌,
  if◌then◌else◌, length,
}
use zksoroban.Js.Text.{Text, text, pad_start, all_of}
use zksoroban.Js.Numeral.{to_string}
use zksoroban.Types.{SorobanProofCalldata, native_error}
use zksoroban.Types.Result
use zksoroban.Types.Result.{Result, ok, err}
use zksoroban.Validate.Calldata.{of_proof, validate_calldata}
use zksoroban.Verify.Run.{
  Call, get_network, simulate_transaction, Run, ◌>>=◌, ◌>>◌, lift, await, try_classify,
}
use zksoroban.Verify.Classify.{classify_error}
use zksoroban.Verify.Stellar.{Stellar, Server, SimReply, sim_error, simulated}
use zksoroban.Verify.Calls.{resolve_calldata, check_bundle, caller_transaction, proof_arguments}
use zksoroban.Verify.OnChain.{VerifyOptions}

abbrev pub stroops_per_xlm : ℕ
stroops_per_xlm = 10_000_000

-- `.replace(/0+$/, "")`
unfoldable pub trim_zeros : Text → Text
trim_zeros [] = []
trim_zeros (c ∷ s) = if all_of (λ d. d == b'0') (c ∷ s) then [] else c ∷ trim_zeros s

-- The fraction's digits without the zeros at the end, behind the whole part.
unfoldable pub with_fraction : Text → Text → Text
with_fraction whole [] = whole
with_fraction whole (c ∷ s) = whole ++ b'.' ∷ c ∷ s

unfoldable pub stroops_to_xlm : ℕ → Text
stroops_to_xlm stroops =
    with_fraction (to_string 10 (stroops / stroops_per_xlm))
      (trim_zeros (pad_start 7 b'0' (to_string 10 (stroops % stroops_per_xlm))))

pub record EstimateVerifyFeeResult : Type 0 where
  pub stroops : ℕ
  pub xlm : Text

module _ (s : Stellar) where
  open s use {Tx, base_fee}

  unfoldable pub fee_of_reply : SimReply s → Result EstimateVerifyFeeResult
  fee_of_reply (sim_error message) = err (classify_error (native_error message))
  fee_of_reply (simulated retval min_resource_fee) =
      Result.◌>>=◌ min_resource_fee
        λ fee. ok (record { stroops = base_fee + fee; xlm = stroops_to_xlm (base_fee + fee) })

  unfoldable pub estimate_body :
      Server s → VerifyOptions s → SorobanProofCalldata → Run Tx EstimateVerifyFeeResult
  estimate_body server opts calldata = do
    lift server.connect
    passphrase ← await get_network server.network
    lift (check_bundle opts.bundle passphrase)
    transaction ←
        caller_transaction s server opts.keypair opts.contract_id passphrase (text "verify_proof")
          (λ caller. proof_arguments s caller calldata)
    reply ← await (simulate_transaction transaction) (server.simulate transaction)
    lift (fee_of_reply reply)

  unfoldable pub estimate_verify_fee : Server s → VerifyOptions s → Run Tx EstimateVerifyFeeResult
  estimate_verify_fee server opts = do
    calldata ← lift (resolve_calldata opts.calldata opts.bundle)
    lift (validate_calldata (of_proof calldata))
    try_classify (estimate_body server opts calldata)
