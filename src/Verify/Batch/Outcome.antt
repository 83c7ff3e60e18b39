-- ===== src/Verify/Batch/Outcome.antt =====
-- What a result of verifyBatchOnChain is made from.
use zksoroban.Prelude.{ℕ, ◌≡◌, refl, Bool, List, [], ◌∷◌, Option, some, none}
use zksoroban.Js.Text.{Text, text}
use zksoroban.Types.{SorobanProofCalldata}
use zksoroban.Types.Result
use zksoroban.Types.Result.{Result, ok, err, ok-injective}
use zksoroban.Verify.Run.{lift, await, get_network}
use zksoroban.Verify.Run.Laws.{bind-Returns, rethrow-ok}
use zksoroban.Verify.Stellar.{Stellar, RawPayload, Server}
use zksoroban.Verify.Calls.{caller_transaction, make_proof_item_sc_val, submit}
use zksoroban.Verify.Calls.Answer.{Answers, map-Answers, poll-ok}
use zksoroban.Verify.Batch.Returned.{BatchDecoded, BatchDecoded-of_ok}
use zksoroban.Verify.Batch.{
  VerifyBatchResult, VerifyBatchOptions, format_items, validate_items, require_items, or_empty,
  decode_bool_array_from_diagnostics, missing_batch_payload, batch_result, settle_batch,
  verify_batch_body, verify_batch_on_chain,
}
use zksoroban.Prelude.{map}

module _ (s : Stellar) where
  open s use {ScVal, ResultXdr, fee_charged, result_from_base64, scv_vec}

  -- The array that was found, and an empty one for none.
  pub data IsOrEmpty : Option (List Bool) → List Bool → Type 0 where
    is_found : {bs : List Bool} → IsOrEmpty (some bs) bs
    is_empty : IsOrEmpty none []

  or_empty-IsOrEmpty : (value : Option (List Bool)) → IsOrEmpty value (or_empty value)
  unfolding or_empty
  or_empty-IsOrEmpty none = is_empty
  or_empty-IsOrEmpty (some bs) = is_found

  -- A result says what a payload says. The booleans are those of the diagnostic events, and none
  -- where these have none.
  pub record IsBatchReported (p : RawPayload s) (r : VerifyBatchResult) : Type 0 where
    pub tx_hash : r.tx_hash ≡ p.tx_hash
    pub ledger : p.ledger ≡ some r.ledger
    pub encoded : Text
    pub present : p.result_xdr ≡ some encoded
    pub xdr : ResultXdr
    pub decoded : result_from_base64 encoded ≡ ok xdr
    pub fee : r.fee ≡ fee_charged xdr
    pub value : Option (List Bool)
    pub in_events : BatchDecoded s p.diagnostic_events value
    pub verified : IsOrEmpty value r.verified

  abbrev batch_payload : Text → Option ℕ → Option Text → Option (List Text) → RawPayload s
  batch_payload tx_hash ledger xdr events = record {
    tx_hash = tx_hash;
    ledger = ledger;
    result_xdr = xdr;
    diagnostic_events = events;
  }

  batch_fields :
      (tx_hash : Text) (ledger : Option ℕ) (xdr : Option Text) (events : Option (List Text))
      (value : Option (List Bool)) {r : VerifyBatchResult}
      → decode_bool_array_from_diagnostics s events ≡ ok value
      → batch_result s (batch_payload tx_hash ledger xdr events) value ≡ ok r
      → IsBatchReported (batch_payload tx_hash ledger xdr events) r
  unfolding batch_result missing_batch_payload
  batch_fields tx_hash none xdr events value d h = absurd (cc)
  batch_fields tx_hash (some ledger) none events value d h = absurd (cc)
  batch_fields tx_hash (some ledger) (some []) events value d h = absurd (cc)
  batch_fields tx_hash (some ledger) (some (c ∷ rest)) events value d h =
      let (result, from_text, e) = Result.>>=-eq-ok (result_from_base64 (c ∷ rest)) _ h in
      let same = ok-injective e in
      rw (← same) record {
        tx_hash = refl;
        ledger = refl;
        encoded = c ∷ rest;
        present = refl;
        xdr = result;
        decoded = from_text;
        fee = refl;
        value = value;
        in_events = BatchDecoded-of_ok s events d;
        verified = or_empty-IsOrEmpty value;
      }

  batch_sound :
      (p : RawPayload s) {r : VerifyBatchResult} → settle_batch s p ≡ ok r → IsBatchReported p r
  unfolding settle_batch
  batch_sound p h =
      let (value, d, e) =
        Result.>>=-eq-ok (decode_bool_array_from_diagnostics s p.diagnostic_events) _ h in
      batch_fields p.tx_hash p.ledger p.result_xdr p.diagnostic_events value d e

  batch_body_ok :
      (server : Server s) (opts : VerifyBatchOptions s) (cs : List SorobanProofCalldata)
      {r : VerifyBatchResult}
      → (verify_batch_body s server opts cs).result ≡ ok r
      → Answers server.polled_raw (λ p. settle_batch s p ≡ ok r) 0
  unfolding verify_batch_body
  batch_body_ok server opts cs {r} h =
      bind-Returns {Q = λ r. Answers server.polled_raw (λ p. settle_batch s p ≡ ok r) 0}
        (lift server.connect) _
        (λ u connected. bind-Returns (await get_network server.network) _ λ passphrase asked.
          bind-Returns
            (caller_transaction s server opts.keypair opts.contract_id passphrase
              (text "verify_batch")
              (λ caller. caller ∷ scv_vec (map (make_proof_item_sc_val s) cs) ∷ []))
            _
            λ transaction built.
              bind-Returns (submit s server opts.keypair transaction) _ λ hash submitted r e.
                poll-ok s server.clock server.polled_raw (settle_batch s) hash 30_000 0 0 e)
        r h

  -- A result that verifyBatchOnChain returns is made from the first answer to getTransaction that
  -- is not NOT_FOUND. That answer is a success, and the result has its hash, ledger and fee. The
  -- booleans are those of the array that its first diagnostic event with two topics or more that
  -- is marked "fn_return" holds, and an empty list where that event holds no array, no event is
  -- marked or the events are missing. Every item had been formatted and its calldata was valid.
  pub verify_batch_sound :
      (server : Server s) (opts : VerifyBatchOptions s) (r : VerifyBatchResult)
      → (verify_batch_on_chain s server opts).result ≡ ok r
      → (cs : List SorobanProofCalldata) × (format_items opts.items ≡ ok cs)
        × (validate_items cs ≡ ok tt)
        × Answers server.polled_raw (λ p. IsBatchReported p r) 0
  unfolding verify_batch_on_chain
  verify_batch_sound server opts = bind-Returns (lift (require_items opts.items)) _ λ t required.
      bind-Returns (lift (format_items opts.items)) _ λ cs formatted.
        bind-Returns (lift (validate_items cs)) _ λ u valid r h.
          let reported = batch_body_ok server opts cs (rethrow-ok _ h) in
          (cs, formatted, valid, map-Answers (λ p e. batch_sound p e) reported)
