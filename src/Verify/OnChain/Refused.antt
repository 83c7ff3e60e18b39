-- ===== src/Verify/OnChain/Refused.antt =====
-- What the functions of sdk/src/verify.ts refuse before they reach the contract.
use zksoroban.Prelude.{◌≡◌, refl, false, [], ◌∷◌, some}
use zksoroban.Js.Text.{Text, text_eq}
use zksoroban.Types.{SorobanProofCalldata, Thrown, network_mismatch_error}
use zksoroban.Types.Result.{ok, err}
use zksoroban.Validate.Calldata.{of_proof, validate_calldata}
use zksoroban.Verify.Run.{get_network, Run}
use zksoroban.Verify.Stellar.{Stellar, Server}
use zksoroban.Verify.Calls.{
  ProofBundle, resolve_calldata, resolve_registry_calldata, check_bundle, assert_bundle_network,
}
use zksoroban.Verify.OnChain.{VerifyOptions, verify_on_chain_body, verify_on_chain}
use zksoroban.Verify.Fee.{estimate_verify_fee, estimate_body}
use zksoroban.Verify.Registry.{
  VerifyViaRegistryOptions, verify_via_registry, verify_via_registry_body,
}

-- A run that asks for the network and throws `t`.
abbrev refused : {Tx A : Type 0} → Thrown → Run Tx A
refused t = record { calls = get_network ∷ []; result = err t }

module _ (s : Stellar) (server : Server s) (passphrase : Text) (bundle : ProofBundle)
    (c : SorobanProofCalldata) (connected : server.connect ≡ ok tt)
    (asked : server.network ≡ ok passphrase)
    (other : text_eq bundle.network_passphrase passphrase ≡ false)
    (valid : validate_calldata (of_proof c) ≡ ok tt) where
  on_chain_refused :
      (opts : VerifyOptions s)
      → opts.bundle ≡ some bundle
      → resolve_calldata opts.calldata opts.bundle ≡ ok c
      → verify_on_chain s server opts
        ≡ refused (network_mismatch_error bundle.network_passphrase passphrase)
  unfolding verify_on_chain verify_on_chain_body check_bundle assert_bundle_network
  on_chain_refused opts e resolved = rw (resolved, valid, connected, asked, e, other) refl

  estimate_refused :
      (opts : VerifyOptions s)
      → opts.bundle ≡ some bundle
      → resolve_calldata opts.calldata opts.bundle ≡ ok c
      → estimate_verify_fee s server opts
        ≡ refused (network_mismatch_error bundle.network_passphrase passphrase)
  unfolding estimate_verify_fee estimate_body check_bundle assert_bundle_network
  estimate_refused opts e resolved = rw (resolved, valid, connected, asked, e, other) refl

  registry_refused :
      (opts : VerifyViaRegistryOptions)
      → opts.bundle ≡ some bundle
      → resolve_registry_calldata opts.calldata opts.bundle ≡ ok c
      → verify_via_registry s server opts
        ≡ refused (network_mismatch_error bundle.network_passphrase passphrase)
  unfolding verify_via_registry verify_via_registry_body check_bundle assert_bundle_network
  registry_refused opts e resolved = rw (resolved, valid, connected, asked, e, other) refl

  -- With valid calldata and a bundle that was made for a network with another passphrase,
  -- verifyOnChain, estimateVerifyFee and verifyViaRegistry ask the server for its network, make
  -- no other call, and throw a NetworkMismatchError with the two passphrases.
  pub verify_network_mismatch :
      (opts : VerifyOptions s) (registry : VerifyViaRegistryOptions)
      → opts.bundle ≡ some bundle
      → registry.bundle ≡ some bundle
      → resolve_calldata opts.calldata opts.bundle ≡ ok c
      → resolve_registry_calldata registry.calldata registry.bundle ≡ ok c
      → (verify_on_chain s server opts
          ≡ refused (network_mismatch_error bundle.network_passphrase passphrase))
        × (estimate_verify_fee s server opts
            ≡ refused (network_mismatch_error bundle.network_passphrase passphrase))
        × (verify_via_registry s server registry
            ≡ refused (network_mismatch_error bundle.network_passphrase passphrase))
  verify_network_mismatch opts registry e f resolved resolved_registry = (
    on_chain_refused opts e resolved,
    estimate_refused opts e resolved,
    registry_refused registry f resolved_registry,
  )
