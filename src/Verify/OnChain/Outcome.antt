-- ===== src/Verify/OnChain/Outcome.antt =====
-- What a result of verifyOnChain is made from.
use zksoroban.Prelude.{ℕ, ◌≡◌, refl, Bool, List, Option, some, none}
use zksoroban.Js.Text.{Text, text}
use zksoroban.Types.{SorobanProofCalldata}
use zksoroban.Types.Result
use zksoroban.Types.Result.{Result, ok, err, ok-injective}
use zksoroban.Validate.Calldata.{of_proof, validate_calldata}
use zksoroban.Verify.Run.{lift, await, get_network}
use zksoroban.Verify.Run.Laws.{bind-Returns, rethrow-ok}
use zksoroban.Verify.Stellar.{Stellar, Payload, Server}
use zksoroban.Verify.Calls.{
  resolve_calldata, check_bundle, caller_transaction, proof_arguments, submit,
}
use zksoroban.Verify.Calls.Answer.{Answers, map-Answers, poll-ok}
use zksoroban.Verify.Returned.{Decoded}
use zksoroban.Verify.OnChain.Decoded.{Decoded-of_ok}
use zksoroban.Verify.OnChain.{
  VerifyResult, VerifyOptions, decode_verify_return_value, missing_payload, undecodable, result_of,
  settle_verify, verify_on_chain_body, verify_on_chain,
}

module _ (s : Stellar) where
  open s use {ScVal, Event, ResultXdr, fee_charged}

  -- A result says what a payload says.
  pub record IsReported (p : Payload s) (r : VerifyResult) : Type 0 where
    pub tx_hash : r.tx_hash ≡ p.tx_hash
    pub ledger : p.ledger ≡ some r.ledger
    pub fee : (xdr : ResultXdr) × (p.result_xdr ≡ some xdr) × (r.fee ≡ fee_charged xdr)
    pub verified : Decoded s p r.verified

  abbrev payload_of :
      Text → Option ℕ → Option ResultXdr → Option ScVal → Option (List Event) → Payload s
  payload_of tx_hash ledger xdr value events = record {
    tx_hash = tx_hash;
    ledger = ledger;
    result_xdr = xdr;
    return_value = value;
    diagnostic_events = events;
  }

  IsReported-of_value :
      (p : Payload s) (ledger : ℕ) (xdr : ResultXdr) (value : Option Bool) {r : VerifyResult}
      → p.ledger ≡ some ledger
      → p.result_xdr ≡ some xdr
      → decode_verify_return_value s p ≡ ok value
      → result_of s p.tx_hash ledger xdr value ≡ ok r
      → IsReported p r
  unfolding undecodable result_of
  IsReported-of_value p ledger xdr none e f d h = absurd (cc)
  IsReported-of_value p ledger xdr (some b) {r} e f d h =
      let same = ok-injective h in
      rw (← same)
        record { tx_hash = refl; ledger = e; fee = (xdr, f, refl); verified = Decoded-of_ok s p d }

  settle_fields :
      (tx_hash : Text) (ledger : Option ℕ) (xdr : Option ResultXdr) (value : Option ScVal)
      (events : Option (List Event)) {r : VerifyResult}
      → settle_verify s (payload_of tx_hash ledger xdr value events) ≡ ok r
      → IsReported (payload_of tx_hash ledger xdr value events) r
  unfolding settle_verify missing_payload
  settle_fields tx_hash none xdr value events h = absurd (cc)
  settle_fields tx_hash (some ledger) none value events h = absurd (cc)
  settle_fields tx_hash (some ledger) (some xdr) value events h =
      let (decoded, d, e) =
        Result.>>=-eq-ok
          (decode_verify_return_value s (payload_of tx_hash (some ledger) (some xdr) value events))
          _ h in
      IsReported-of_value (payload_of tx_hash (some ledger) (some xdr) value events) ledger xdr
        decoded refl refl d e

  settle_sound : (p : Payload s) {r : VerifyResult} → settle_verify s p ≡ ok r → IsReported p r
  settle_sound p h =
      settle_fields p.tx_hash p.ledger p.result_xdr p.return_value p.diagnostic_events h

  body_ok :
      (server : Server s) (opts : VerifyOptions s) (c : SorobanProofCalldata) {r : VerifyResult}
      → (verify_on_chain_body s server opts c).result ≡ ok r
      → Answers server.polled (λ p. settle_verify s p ≡ ok r) 0
  unfolding verify_on_chain_body
  body_ok server opts c h =
      bind-Returns {Q = λ r. Answers server.polled (λ p. settle_verify s p ≡ ok r) 0}
        (lift server.connect) _
        (λ u connected. bind-Returns (await get_network server.network) _ λ passphrase asked.
          bind-Returns (lift (check_bundle opts.bundle passphrase)) _ λ v matched.
            bind-Returns
              (caller_transaction s server opts.keypair opts.contract_id passphrase
                (text "verify_proof") (λ caller. proof_arguments s caller c))
              _
              λ transaction built.
                bind-Returns (submit s server opts.keypair transaction) _ λ hash submitted r e.
                  poll-ok s server.clock server.polled (settle_verify s) hash 30_000 0 0 e)
        _ h

  -- A result that verifyOnChain returns is made from the first answer to getTransaction that is
  -- not NOT_FOUND. That answer is a success, and the result has its hash, ledger and fee. Its
  -- `verified` is the Boolean of the answer's returned value, and where the answer has none, of the
  -- value of its first diagnostic event with two topics or more that is marked "fn_return", so
  -- never one that stands for a missing value. The calldata was valid.
  pub verify_on_chain_sound :
      (server : Server s) (opts : VerifyOptions s) (r : VerifyResult)
      → (verify_on_chain s server opts).result ≡ ok r
      → (c : SorobanProofCalldata) × (resolve_calldata opts.calldata opts.bundle ≡ ok c)
        × (validate_calldata (of_proof c) ≡ ok tt)
        × Answers server.polled (λ p. IsReported p r) 0
  unfolding verify_on_chain
  verify_on_chain_sound server opts =
      bind-Returns (lift (resolve_calldata opts.calldata opts.bundle)) _ λ c resolved.
        bind-Returns (lift (validate_calldata (of_proof c))) _ λ u valid r h.
          let reported = body_ok server opts c (rethrow-ok _ h) in
          (c, resolved, valid, map-Answers (λ p e. settle_sound p e) reported)
