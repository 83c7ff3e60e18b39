-- ===== src/Verify/OnChain.antt =====
-- verifyOnChain of sdk/src/verify.ts, and how it decodes the returned value.
pub mod Decoded
pub mod Errors
pub mod Complete
pub mod Refused
pub mod Submission
pub mod Outcome
use zksoroban.Prelude.{
  ℕ, zero, suc, Bool, true, false, ◌||◌, not, List, [], ◌∷◌, ◌++◌, Option, none, some, ltb,
  if◌then◌else◌, length, map,
}
use zksoroban.Js.Text.{Text, text}
use zksoroban.Types.{SorobanProofCalldata, soroban_zk_error, contract_invocation_failed}
use zksoroban.Types.Result
use zksoroban.Types.Result.{Result, ok, err}
use zksoroban.Validate.Calldata.{of_proof, validate_calldata}
use zksoroban.Verify.Run.{Call, get_network, Run, ◌>>=◌, ◌>>◌, lift, await, try_classify}
use zksoroban.Verify.Stellar.{Stellar, Payload, Server}
use zksoroban.Verify.Calls.{
  ProofBundle, resolve_calldata, check_bundle, caller_transaction, proof_arguments, submit, poll,
}

pub record VerifyResult : Type 0 where
  pub verified : Bool
  pub tx_hash : Text
  pub ledger : ℕ
  pub fee : Text

module _ (s : Stellar) where
  open s use {
    ScVal, Account, Tx, Keypair, Event, ResultXdr, to_boolean, is_fn_return, topics, event_value,
    fee_charged,
  }

  pub record VerifyOptions : Type 0 where
    pub contract_id : Text
    pub keypair : Keypair
    pub calldata : Option SorobanProofCalldata
    pub bundle : Option ProofBundle

  -- `marker === "fn_return" ? return Boolean(…) : continue` for an event with two topics or more.
  unfoldable pub fn_return_of : Event → Result (Option Bool) → Result (Option Bool)
  fn_return_of event rest = elim (topics event) [
    | [] ↦ rest
    | topic ∷ others ↦ elim others [
      | [] ↦ rest
      | second ∷ more ↦ Result.◌>>=◌ (is_fn_return topic) λ is_return.
          if is_return
          then Result.◌>>=◌ (to_boolean (event_value event)) (λ b. ok (some b))
          else rest
    ]
  ]

  unfoldable pub scan_events : List Event → Result (Option Bool)
  scan_events [] = ok none
  scan_events (event ∷ events) = fn_return_of event (scan_events events)

  unfoldable pub decode_return_value_from_diagnostics : Option (List Event) → Result (Option Bool)
  decode_return_value_from_diagnostics none = ok none
  decode_return_value_from_diagnostics (some events) = scan_events events

  unfoldable pub decode_verify_return_value : Payload s → Result (Option Bool)
  decode_verify_return_value p = elim p.return_value [
    | some value ↦ Result.◌>>=◌ (to_boolean value) (λ b. ok (some b))
    | none ↦ decode_return_value_from_diagnostics p.diagnostic_events
  ]

  unfoldable pub missing_payload : {A : Type 0} → Text → Result A
  missing_payload tx_hash = err (
      soroban_zk_error
        (text "Transaction " ++ tx_hash ++ text " did not include the expected success payload")
        contract_invocation_failed)

  unfoldable pub undecodable : {A : Type 0} → Text → Result A
  undecodable tx_hash = err (
      soroban_zk_error
        (text "Transaction " ++ tx_hash ++ text " carried no decodable verify_proof return value")
        contract_invocation_failed)

  -- `typeof returnValue !== "boolean"` ends in an error, and a boolean in the result.
  unfoldable pub result_of : Text → ℕ → ResultXdr → Option Bool → Result VerifyResult
  result_of tx_hash ledger xdr none = undecodable tx_hash
  result_of tx_hash ledger xdr (some b) =
      ok (record { verified = b; tx_hash = tx_hash; ledger = ledger; fee = fee_charged xdr })

  -- What the loop does with a status that is neither NOT_FOUND nor FAILED.
  unfoldable pub settle_verify : Payload s → Result VerifyResult
  settle_verify p = elim p.ledger [
    | none ↦ missing_payload p.tx_hash
    | some ledger ↦ elim p.result_xdr [
      | none ↦ missing_payload p.tx_hash
      | some xdr ↦
          Result.◌>>=◌ (decode_verify_return_value p)
            (λ value. result_of p.tx_hash ledger xdr value)
    ]
  ]

  -- The body of the `try`.
  unfoldable pub verify_on_chain_body :
      Server s → VerifyOptions → SorobanProofCalldata → Run Tx VerifyResult
  verify_on_chain_body server opts calldata = do
    lift server.connect
    passphrase ← await get_network server.network
    lift (check_bundle opts.bundle passphrase)
    transaction ←
        caller_transaction s server opts.keypair opts.contract_id passphrase (text "verify_proof")
          (λ caller. proof_arguments s caller calldata)
    hash ← submit s server opts.keypair transaction
    poll s server.clock server.polled settle_verify hash 30_000 0 0

  unfoldable pub verify_on_chain : Server s → VerifyOptions → Run Tx VerifyResult
  verify_on_chain server opts = do
    calldata ← lift (resolve_calldata opts.calldata opts.bundle)
    lift (validate_calldata (of_proof calldata))
    try_classify (verify_on_chain_body server opts calldata)
