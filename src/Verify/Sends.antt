-- ===== src/Verify/Sends.antt =====
-- How many transactions the functions of sdk/src/verify.ts and sdk/src/version.ts submit.
use zksoroban.Prelude.{ℕ, ◌≤◌, ◌≡◌, refl, List, [], arith}
use zksoroban.Js.Text.{Text, text}
use zksoroban.Types.Result.{Result}
use zksoroban.Validate.Calldata.{of_proof, validate_calldata}
use zksoroban.Verify.Run.{
  get_network, get_account, prepare_transaction, send_transaction, simulate_transaction, ◌>>=◌,
  lift, await,
}
use zksoroban.Verify.Run.Sends.{
  submissions_of, submissions, none_of_All, Within, bind-Within, quiet-Within,
}
use zksoroban.Verify.Stellar.{Stellar, Server, TxReply}
use zksoroban.Verify.Calls.{
  resolve_calldata, resolve_registry_calldata, check_bundle, check_status, caller_transaction,
  proof_arguments, submit, poll,
}
use zksoroban.Verify.Calls.Polling.{poll_all}
use zksoroban.Verify.OnChain.{VerifyOptions, settle_verify, verify_on_chain_body, verify_on_chain}
use zksoroban.Verify.Batch.{
  VerifyBatchOptions, format_items, validate_items, require_items, settle_batch, verify_batch_body,
  verify_batch_on_chain,
}
use zksoroban.Verify.Fee.{estimate_verify_fee, estimate_body}
use zksoroban.Verify.Registry.{
  VerifyViaRegistryOptions, VerifyBatchViaRegistryOptions, verify_via_registry,
  verify_via_registry_body, format_circuits, validate_circuits, require_circuits,
  verify_batch_via_registry, verify_batch_via_registry_body, ephemeral_account, simulate_call,
}
use zksoroban.Verify.Config.{
  RawConfig, get_contract_config, get_contract_config_body, get_contract_version, version_value,
  get_contract_version_body, warn_of_version,
}

module _ (s : Stellar) (server : Server s) where
  open s use {
    ScVal, Tx, Keypair, Account, public_key, new_contract, address, sign, build, new_account,
    to_booleans,
  }

  caller-Within :
      (keypair : Keypair) (contract_id passphrase function : Text) (arguments : ScVal → List ScVal)
      → Within 0 (caller_transaction s server keypair contract_id passphrase function arguments)
  unfolding caller_transaction
  caller-Within keypair contract_id passphrase function arguments =
      bind-Within 0 0
        (await (get_account (public_key keypair)) (server.account (public_key keypair))) _
        (omega arith)
        λ account. quiet-Within 0 (lift (new_contract contract_id)) _ refl λ contract.
          quiet-Within 0 (lift (address (public_key keypair))) _ refl λ caller. omega arith

  submit-Within : (keypair : Keypair) (tx : Tx) → Within 1 (submit s server keypair tx)
  unfolding submit
  submit-Within keypair tx =
      quiet-Within 1 (await (prepare_transaction tx) (server.prepared tx)) _ refl λ prepared.
        bind-Within 1 0
          (await (send_transaction (sign keypair prepared)) (server.sent (sign keypair prepared))) _
          (omega arith)
          λ reply. quiet-Within 0 (lift (check_status reply.status)) _ refl λ done. omega arith

  submitted-Within :
      {Payload A : Type 0} (keypair : Keypair) (contract_id passphrase function : Text)
      (arguments : ScVal → List ScVal) (polled : ℕ → Result (TxReply Payload))
      (settle : Payload → Result A)
      → Within 1 (
          caller_transaction s server keypair contract_id passphrase function arguments >>= λ tx.
          submit s server keypair tx >>= λ hash. poll s server.clock polled settle hash 30_000 0 0)
  submitted-Within keypair contract_id passphrase function arguments polled settle =
      bind-Within 0 1
        (caller_transaction s server keypair contract_id passphrase function arguments) _
        (caller-Within _ _ _ _ _)
        λ tx. bind-Within 1 0 (submit s server keypair tx) _ (submit-Within _ tx) λ hash.
          let none = none_of_All _ (
            poll_all s server.clock polled settle hash (λ c. submissions_of c ≡ 0) 30_000 0 0 refl
              refl) in
          omega arith

  simulate-Within :
      (contract_id passphrase function : Text) (arguments : List ScVal)
      → Within 0 (simulate_call s server contract_id passphrase function arguments)
  unfolding simulate_call ephemeral_account
  simulate-Within contract_id passphrase function arguments =
      quiet-Within 0 (lift (new_contract contract_id)) _ refl λ contract.
        quiet-Within 0 (ephemeral_account s server) _ refl λ account.
          quiet-Within 0 (lift (build account passphrase contract function arguments)) _ refl λ tx.
            quiet-Within 0 (await (simulate_transaction tx) (server.simulate tx)) _ refl
              λ reply. omega arith

  pub on_chain-Within : (opts : VerifyOptions s) → Within 1 (verify_on_chain s server opts)
  unfolding verify_on_chain verify_on_chain_body
  on_chain-Within opts =
      quiet-Within 1 (lift (resolve_calldata opts.calldata opts.bundle)) _ refl λ c.
        quiet-Within 1 (lift (validate_calldata (of_proof c))) _ refl λ u.
          quiet-Within 1 (lift server.connect) _ refl λ v.
            quiet-Within 1 (await get_network server.network) _ refl λ passphrase.
              quiet-Within 1 (lift (check_bundle opts.bundle passphrase)) _ refl λ w.
                submitted-Within opts.keypair opts.contract_id passphrase (text "verify_proof") _
                  server.polled (settle_verify s)

  batch-Within : (opts : VerifyBatchOptions s) → Within 1 (verify_batch_on_chain s server opts)
  unfolding verify_batch_on_chain verify_batch_body
  batch-Within opts = quiet-Within 1 (lift (require_items opts.items)) _ refl λ t.
      quiet-Within 1 (lift (format_items opts.items)) _ refl λ cs.
        quiet-Within 1 (lift (validate_items cs)) _ refl λ u.
          quiet-Within 1 (lift server.connect) _ refl λ v.
            quiet-Within 1 (await get_network server.network) _ refl λ passphrase.
              submitted-Within opts.keypair opts.contract_id passphrase (text "verify_batch") _
                server.polled_raw (settle_batch s)

  pub estimate-Within : (opts : VerifyOptions s) → Within 0 (estimate_verify_fee s server opts)
  unfolding estimate_verify_fee estimate_body
  estimate-Within opts =
      quiet-Within 0 (lift (resolve_calldata opts.calldata opts.bundle)) _ refl λ c.
        quiet-Within 0 (lift (validate_calldata (of_proof c))) _ refl λ u.
          quiet-Within 0 (lift server.connect) _ refl λ v.
            quiet-Within 0 (await get_network server.network) _ refl λ passphrase.
              quiet-Within 0 (lift (check_bundle opts.bundle passphrase)) _ refl λ w.
                bind-Within 0 0
                  (caller_transaction s server opts.keypair opts.contract_id passphrase
                    (text "verify_proof") (λ caller. proof_arguments s caller c))
                  _ (caller-Within _ _ _ _ _)
                  λ tx.
                    quiet-Within 0 (await (simulate_transaction tx) (server.simulate tx)) _ refl
                      λ reply. omega arith

  pub registry-Within :
      (opts : VerifyViaRegistryOptions) → Within 0 (verify_via_registry s server opts)
  unfolding verify_via_registry verify_via_registry_body
  registry-Within opts =
      quiet-Within 0 (lift (resolve_registry_calldata opts.calldata opts.bundle)) _ refl λ c.
        quiet-Within 0 (lift (validate_calldata (of_proof c))) _ refl λ u.
          quiet-Within 0 (lift server.connect) _ refl λ v.
            quiet-Within 0 (await get_network server.network) _ refl λ passphrase.
              quiet-Within 0 (lift (check_bundle opts.bundle passphrase)) _ refl λ w.
                bind-Within 0 0
                  (simulate_call s server opts.registry_contract_id passphrase (text "verify_proof")
                    _)
                  _ (simulate-Within _ _ _ _) λ value. omega arith

  pub registry_batch-Within :
      (opts : VerifyBatchViaRegistryOptions) → Within 0 (verify_batch_via_registry s server opts)
  unfolding verify_batch_via_registry verify_batch_via_registry_body
  registry_batch-Within opts = quiet-Within 0 (lift (require_circuits opts.items)) _ refl λ t.
      quiet-Within 0 (lift (format_circuits opts.items)) _ refl λ cs.
        quiet-Within 0 (lift (validate_circuits cs)) _ refl λ u.
          quiet-Within 0 (lift server.connect) _ refl λ v.
            quiet-Within 0 (await get_network server.network) _ refl λ passphrase.
              bind-Within 0 0
                (simulate_call s server opts.registry_contract_id passphrase (text "verify_batch")
                  _)
                _ (simulate-Within _ _ _ _)
                λ value. quiet-Within 0 (lift (to_booleans value)) _ refl λ bs. omega arith

  config-Within :
      (to_native : ScVal → Result RawConfig) (contract_id : Text)
      → Within 0 (get_contract_config s to_native server contract_id)
  unfolding get_contract_config get_contract_config_body
  config-Within to_native contract_id = quiet-Within 0 (lift server.connect) _ refl λ v.
      quiet-Within 0 (await get_network server.network) _ refl λ passphrase.
        bind-Within 0 0 (simulate_call s server contract_id passphrase (text "get_config") []) _
          (simulate-Within _ _ _ _)
          λ value. quiet-Within 0 (lift (to_native value)) _ refl λ raw. omega arith

  warn-quiet :
      (to_native : ScVal → Result Text) (version : Text)
      → submissions (warn_of_version s to_native version).calls ≡ 0
  unfolding warn_of_version
  warn-quiet to_native version = ground arith

  version-Within :
      (to_native : ScVal → Result Text) (contract_id : Text)
      → Within 0 (get_contract_version s to_native server contract_id)
  unfolding get_contract_version get_contract_version_body
  version-Within to_native contract_id = quiet-Within 0 (lift server.connect) _ refl λ v.
      quiet-Within 0 (await get_network server.network) _ refl λ passphrase.
        quiet-Within 0 (lift (new_account server.ephemeral)) _ refl λ account.
          quiet-Within 0 (lift (new_contract contract_id)) _ refl λ contract.
            quiet-Within 0 (lift (build account passphrase contract (text "version") [])) _ refl
              λ tx.
                quiet-Within 0 (await (simulate_transaction tx) (server.simulate tx)) _ refl
                  λ reply. quiet-Within 0 (lift (version_value s to_native reply)) _ refl λ value.
                    quiet-Within 0 (lift (to_native value)) _ refl λ version.
                      quiet-Within 0 (warn_of_version s to_native version) _
                        (warn-quiet to_native version) λ u. omega arith

  -- Whatever the server answers, verifyOnChain and verifyBatchOnChain submit at most one
  -- transaction, and estimateVerifyFee, verifyViaRegistry, verifyBatchViaRegistry,
  -- getContractConfig and getContractVersion submit none.
  pub verify_submissions :
      (opts : VerifyOptions s) (registry : VerifyViaRegistryOptions) (batch : VerifyBatchOptions s)
      (registry_batch : VerifyBatchViaRegistryOptions) (to_config : ScVal → Result RawConfig)
      (to_version : ScVal → Result Text) (contract_id : Text)
      → (submissions (verify_on_chain s server opts).calls ≤ 1)
        × (submissions (verify_batch_on_chain s server batch).calls ≤ 1)
        × (submissions (estimate_verify_fee s server opts).calls ≤ 0)
        × (submissions (verify_via_registry s server registry).calls ≤ 0)
        × (submissions (verify_batch_via_registry s server registry_batch).calls ≤ 0)
        × (submissions (get_contract_config s to_config server contract_id).calls ≤ 0)
        × (submissions (get_contract_version s to_version server contract_id).calls ≤ 0)
  verify_submissions opts registry batch registry_batch to_config to_version contract_id = (
    on_chain-Within opts,
    batch-Within batch,
    estimate-Within opts,
    registry-Within registry,
    registry_batch-Within registry_batch,
    config-Within to_config contract_id,
    version-Within to_version contract_id,
  )
