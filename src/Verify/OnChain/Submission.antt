-- ===== src/Verify/OnChain/Submission.antt =====
-- Which calls verifyOnChain and verifyBatchOnChain make of the server, and what they send.
use zksoroban.Prelude.{◌≡◌, List, [], ◌∷◌, map}
use zksoroban.Js.Text.{text}
use zksoroban.Types.{SorobanProofCalldata}
use zksoroban.Types.Result.{ok}
use zksoroban.Validate.Calldata.{of_proof, validate_calldata}
use zksoroban.Verify.Run.{Call, get_network, lift, await}
use zksoroban.Verify.Run.Laws.{Calls, bind-Calls}
use zksoroban.Verify.Stellar.{Stellar, Server}
use zksoroban.Verify.Calls.{resolve_calldata, check_bundle, proof_arguments, make_proof_item_sc_val}
use zksoroban.Verify.Calls.Polling.{poll_all}
use zksoroban.Verify.Calls.Allowed.{IsAllowed, invocation-Calls, asks_network, waits}
use zksoroban.Verify.OnChain.{VerifyOptions, settle_verify, verify_on_chain_body, verify_on_chain}
use zksoroban.Verify.Batch.{
  VerifyBatchOptions, format_items, validate_items, require_items, settle_batch, verify_batch_body,
  verify_batch_on_chain,
}

module _ (s : Stellar) (server : Server s) where
  open s use {ScVal, Tx, scv_vec}

  -- The arguments of `verify_proof` for calldata that is valid and the options'.
  pub data IsProofCall (opts : VerifyOptions s) : (ScVal → List ScVal) → Type 0 where
    proof_call :
        (c : SorobanProofCalldata)
        → resolve_calldata opts.calldata opts.bundle ≡ ok c
        → validate_calldata (of_proof c) ≡ ok tt
        → IsProofCall opts (λ caller. proof_arguments s caller c)

  -- The arguments of `verify_batch` for the calldata of all items, each valid.
  pub data IsBatchCall (opts : VerifyBatchOptions s) : (ScVal → List ScVal) → Type 0 where
    batch_call :
        (cs : List SorobanProofCalldata)
        → format_items opts.items ≡ ok cs
        → validate_items cs ≡ ok tt
        → IsBatchCall opts (λ caller. caller ∷ scv_vec (map (make_proof_item_sc_val s) cs) ∷ [])

  -- verifyOnChain calls nothing of the server but getNetwork, getAccount for the keypair,
  -- prepareTransaction for a call of `verify_proof` on the network of the bundle with valid
  -- calldata, sendTransaction for what was prepared, signed, and getTransaction for the hash of
  -- an accepted submission. What it waits is a second each time.
  pub verify_on_chain-Calls :
      (opts : VerifyOptions s)
      → Calls
          (IsAllowed s server opts.keypair opts.contract_id
            (text "verify_proof")
            (λ passphrase. check_bundle opts.bundle passphrase ≡ ok tt)
            (IsProofCall opts))
          (verify_on_chain s server opts)
  unfolding verify_on_chain verify_on_chain_body
  verify_on_chain-Calls opts =
      let Allowed : Call Tx → Type 0 =
        IsAllowed s server opts.keypair opts.contract_id (text "verify_proof")
          (λ passphrase. check_bundle opts.bundle passphrase ≡ ok tt) (IsProofCall opts) in
      bind-Calls Allowed (lift (resolve_calldata opts.calldata opts.bundle)) _ tt λ c resolved.
        bind-Calls Allowed (lift (validate_calldata (of_proof c))) _ tt λ u valid.
          bind-Calls Allowed (lift server.connect) _ tt λ v connected.
            bind-Calls Allowed (await get_network server.network) _ (asks_network, tt)
              λ passphrase asked.
                bind-Calls Allowed (lift (check_bundle opts.bundle passphrase)) _ tt λ w matched.
                  invocation-Calls s server opts.keypair opts.contract_id (text "verify_proof") _ _
                    passphrase _ _ asked matched (proof_call c resolved valid)
                    λ hash sent.
                      poll_all s server.clock server.polled (settle_verify s) hash Allowed 30_000 0
                        0 sent waits

  -- verifyBatchOnChain calls nothing of the server but getNetwork, getAccount for the keypair,
  -- prepareTransaction for a call of `verify_batch` with the valid calldata of every item,
  -- sendTransaction for what was prepared, signed, and getTransaction for the hash of an accepted
  -- submission. What it waits is a second each time.
  pub verify_batch_on_chain-Calls :
      (opts : VerifyBatchOptions s)
      → Calls
          (IsAllowed s server opts.keypair opts.contract_id
            (text "verify_batch")
            (λ passphrase. server.network ≡ ok passphrase)
            (IsBatchCall opts))
          (verify_batch_on_chain s server opts)
  unfolding verify_batch_on_chain verify_batch_body
  verify_batch_on_chain-Calls opts =
      let Allowed : Call Tx → Type 0 =
        IsAllowed s server opts.keypair opts.contract_id (text "verify_batch")
          (λ passphrase. server.network ≡ ok passphrase) (IsBatchCall opts) in
      bind-Calls Allowed (lift (require_items opts.items)) _ tt λ t required.
        bind-Calls Allowed (lift (format_items opts.items)) _ tt λ cs formatted.
          bind-Calls Allowed (lift (validate_items cs)) _ tt λ u valid.
            bind-Calls Allowed (lift server.connect) _ tt λ v connected.
              bind-Calls Allowed (await get_network server.network) _ (asks_network, tt)
                λ passphrase asked.
                  invocation-Calls s server opts.keypair opts.contract_id (text "verify_batch") _ _
                    passphrase _ _ asked asked (batch_call cs formatted valid)
                    λ hash sent.
                      poll_all s server.clock server.polled_raw (settle_batch s) hash Allowed 30_000
                        0 0 sent waits
