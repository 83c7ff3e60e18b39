-- ===== src/Verify/Batch.antt =====
-- verifyBatchOnChain of sdk/src/verify.ts.
pub mod Returned
pub mod Outcome
use zksoroban.Prelude.{
  ℕ, zero, suc, Bool, true, false, ◌||◌, not, List, [], ◌∷◌, ◌++◌, Option, none, some, ltb,
  if◌then◌else◌, length, map,
}
use zksoroban.Js.Text.{Text, text}
use zksoroban.Js.Value.{JsValue}
use zksoroban.Types.{
  SorobanProofCalldata, soroban_zk_error, contract_invocation_failed, invalid_proof_format,
}
use zksoroban.Types.Result
use zksoroban.Types.Result.{Result, ok, err}
use zksoroban.Validate.Calldata.{of_proof, validate_calldata}
use zksoroban.Proof.{format_proof}
use zksoroban.Verify.Run.{Call, get_network, Run, ◌>>=◌, ◌>>◌, lift, await, try_classify}
use zksoroban.Verify.Stellar.{Stellar, RawPayload, Server}
use zksoroban.Verify.Calls.{caller_transaction, make_proof_item_sc_val, submit, poll}

pub record VerifierBatchItem : Type 0 where
  pub proof : JsValue
  pub public_signals : JsValue
  pub expiry_ledger : JsValue

pub record VerifyBatchResult : Type 0 where
  pub verified : List Bool
  pub tx_hash : Text
  pub ledger : ℕ
  pub fee : Text

-- `items.map((item) => formatProof(…))`
unfoldable pub format_items : List VerifierBatchItem → Result (List SorobanProofCalldata)
format_items [] = ok []
format_items (item ∷ items) =
    Result.◌>>=◌ (format_proof item.proof item.public_signals item.expiry_ledger)
      λ c. Result.◌>>=◌ (format_items items) λ cs. ok (c ∷ cs)

-- `calldataItems.forEach(validateCalldata)`
unfoldable pub validate_items : List SorobanProofCalldata → Result (Unit {0})
validate_items [] = ok tt
validate_items (c ∷ cs) = Result.◌>>◌ (validate_calldata (of_proof c)) (validate_items cs)

unfoldable pub require_items : List VerifierBatchItem → Result (Unit {0})
require_items [] =
    err
      (soroban_zk_error (text "verifyBatchOnChain requires at least one item") invalid_proof_format)
require_items (item ∷ items) = ok tt

-- `returnValue ?? []`
unfoldable pub or_empty : Option (List Bool) → List Bool
or_empty none = []
or_empty (some bs) = bs

module _ (s : Stellar) where
  open s use {
    ScVal, Tx, Keypair, Event, scv_vec, is_fn_return, to_booleans, topics, event_value, fee_charged,
    event_from_base64, result_from_base64,
  }

  pub record VerifyBatchOptions : Type 0 where
    pub contract_id : Text
    pub keypair : Keypair
    pub items : List VerifierBatchItem

  unfoldable pub fn_returns_of : Event → Result (Option (List Bool)) → Result (Option (List Bool))
  fn_returns_of event rest = elim (topics event) [
    | [] ↦ rest
    | topic ∷ others ↦ elim others [
      | [] ↦ rest
      | second ∷ more ↦
          Result.◌>>=◌ (is_fn_return topic)
            λ is_return. if is_return then to_booleans (event_value event) else rest
    ]
  ]

  unfoldable pub scan_raw_events : List Text → Result (Option (List Bool))
  scan_raw_events [] = ok none
  scan_raw_events (encoded ∷ rest) =
      Result.◌>>=◌ (event_from_base64 encoded) λ event. fn_returns_of event (scan_raw_events rest)

  unfoldable pub decode_bool_array_from_diagnostics :
      Option (List Text) → Result (Option (List Bool))
  decode_bool_array_from_diagnostics none = ok none
  decode_bool_array_from_diagnostics (some events) = scan_raw_events events

  unfoldable pub missing_batch_payload : {A : Type 0} → Text → Result A
  missing_batch_payload tx_hash = err (
      soroban_zk_error
        (text "Transaction " ++ tx_hash ++ text " did not include the expected success payload")
        contract_invocation_failed)

  -- The ledger and the result XDR, which is missing if it is an empty text too.
  unfoldable pub batch_result : RawPayload s → Option (List Bool) → Result VerifyBatchResult
  batch_result p value = elim p.ledger [
    | none ↦ missing_batch_payload p.tx_hash
    | some ledger ↦ elim p.result_xdr [
      | none ↦ missing_batch_payload p.tx_hash
      | some xdr ↦ elim xdr [
        | [] ↦ missing_batch_payload p.tx_hash
        | c ∷ rest ↦ Result.◌>>=◌ (result_from_base64 (c ∷ rest)) λ result. ok (record {
          verified = or_empty value;
          tx_hash = p.tx_hash;
          ledger = ledger;
          fee = fee_charged result;
        })
      ]
    ]
  ]

  unfoldable pub settle_batch : RawPayload s → Result VerifyBatchResult
  settle_batch p =
      Result.◌>>=◌ (decode_bool_array_from_diagnostics p.diagnostic_events) (batch_result p)

  unfoldable pub verify_batch_body :
      Server s → VerifyBatchOptions → List SorobanProofCalldata → Run Tx VerifyBatchResult
  verify_batch_body server opts calldata_items = do
    lift server.connect
    passphrase ← await get_network server.network
    transaction ←
        caller_transaction s server opts.keypair opts.contract_id passphrase (text "verify_batch")
          (λ caller. caller ∷ scv_vec (map (make_proof_item_sc_val s) calldata_items) ∷ [])
    hash ← submit s server opts.keypair transaction
    poll s server.clock server.polled_raw settle_batch hash 30_000 0 0

  unfoldable pub verify_batch_on_chain : Server s → VerifyBatchOptions → Run Tx VerifyBatchResult
  verify_batch_on_chain server opts = do
    lift (require_items opts.items)
    calldata_items ← lift (format_items opts.items)
    lift (validate_items calldata_items)
    try_classify (verify_batch_body server opts calldata_items)
