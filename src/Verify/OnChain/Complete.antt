-- ===== src/Verify/OnChain/Complete.antt =====
-- verifyOnChain returns a result where the server does its part in time.
use zksoroban.Prelude.{ℕ, suc, ◌+◌, ◌-◌, ◌*◌, ◌<◌, ◌≡◌, refl, ap, ◌∙◌, Bool, true, some, arith}
use zksoroban.Js.Text.{Text, text}
use zksoroban.Types.{SorobanProofCalldata}
use zksoroban.Types.Result.{ok}
use zksoroban.Validate.Calldata.{of_proof, validate_calldata}
use zksoroban.Verify.Run.{rethrow}
use zksoroban.Verify.Stellar.{Stellar, SendReply, not_found, confirmed, Payload, Server}
use zksoroban.Verify.Calls.{
  resolve_calldata, check_bundle, is_accepted, check_status, caller_transaction, proof_arguments,
  submit, poll, KeepsTime,
}
use zksoroban.Verify.Calls.Settled.{poll_settles, round_bound}
use zksoroban.Verify.Returned.{Decoded}
use zksoroban.Verify.OnChain.Decoded.{ok-of_Decoded}
use zksoroban.Verify.OnChain.{
  VerifyOptions, decode_verify_return_value, result_of, settle_verify, verify_on_chain_body,
  verify_on_chain,
}

module _ (s : Stellar) (server : Server s) (opts : VerifyOptions s) where
  open s use {
    ScVal, Account, Contract, Tx, ResultXdr, address, public_key, new_contract, build, sign,
    fee_charged,
  }

  -- The steps in front of the polling, each with a value, down to an accepted submission.
  pub record IsSubmitted : Type 0 where
    pub calldata : SorobanProofCalldata
    pub resolved : resolve_calldata opts.calldata opts.bundle ≡ ok calldata
    pub valid : validate_calldata (of_proof calldata) ≡ ok tt
    pub connected : server.connect ≡ ok tt
    pub passphrase : Text
    pub asked : server.network ≡ ok passphrase
    pub matched : check_bundle opts.bundle passphrase ≡ ok tt
    pub account : Account
    pub loaded : server.account (public_key opts.keypair) ≡ ok account
    pub contract : Contract
    pub opened : new_contract opts.contract_id ≡ ok contract
    pub caller : ScVal
    pub named : address (public_key opts.keypair) ≡ ok caller
    pub tx : Tx
    pub built :
        build account passphrase contract (text "verify_proof") (proof_arguments s caller calldata)
        ≡ ok tx
    pub prepared : Tx
    pub from_server : server.prepared tx ≡ ok prepared
    pub reply : SendReply
    pub sent : server.sent (sign opts.keypair prepared) ≡ ok reply
    pub accepted : is_accepted reply.status ≡ true

  -- Such a run has the result of its polling.
  polls_next :
      (h : IsSubmitted)
      → (verify_on_chain s server opts).result
        ≡ rethrow
            (poll s server.clock server.polled (settle_verify s) h.reply.hash 30_000 0 0).result
  unfolding verify_on_chain verify_on_chain_body caller_transaction submit check_status
  polls_next h =
      rw
        (
          h.resolved, h.valid, h.connected, h.asked, h.matched, h.loaded, h.opened, h.named,
          h.built, h.from_server, h.sent, h.accepted,
        )
        refl

  settles :
      (p : Payload s) (l : ℕ) (x : ResultXdr) (b : Bool)
      → p.ledger ≡ some l
      → p.result_xdr ≡ some x
      → decode_verify_return_value s p ≡ ok (some b)
      → settle_verify s p
        ≡ ok (record { verified = b; tx_hash = p.tx_hash; ledger = l; fee = fee_charged x })
  unfolding settle_verify result_of decode_verify_return_value
  settles p l x b e f d = rw (e, f, d) refl

  -- Where every step down to the submission succeeds and the submission is accepted, the clock
  -- keeps time, and before 30 seconds are over, behind answers that are NOT_FOUND and the waits
  -- between them, there is a success with a ledger, a result and a Boolean to decode, verifyOnChain
  -- returns these.
  pub verify_on_chain_complete :
      (h : IsSubmitted) (n : ℕ) (p : Payload s) (l : ℕ) (x : ResultXdr) (b : Bool)
      → KeepsTime server.clock
      → server.clock (n * 1000) (suc n) - server.clock 0 0 < 30_000
      → ((j : ℕ) → j < n → server.polled j ≡ ok not_found)
      → server.polled n ≡ ok (confirmed p)
      → p.ledger ≡ some l
      → p.result_xdr ≡ some x
      → Decoded s p b
      → (verify_on_chain s server opts).result
        ≡ ok (record { verified = b; tx_hash = p.tx_hash; ledger = l; fee = fee_charged x })
  verify_on_chain_complete h n p l x b keeps early waiting success e f d =
      let bound =
        round_bound s server.clock server.polled (settle_verify s) h.reply.hash keeps n early in
      let same : n ≡ 0 + n = omega arith in
      let waited : n * 1000 ≡ 0 + n * 1000 = omega arith in
      let ends =
        poll_settles s server.clock server.polled (settle_verify s) h.reply.hash keeps n 30_000 0 0
          n p same bound (rw waited at early) waiting success
        ∙ settles p l x b e f (ok-of_Decoded s p d) in
      polls_next h ∙ ap rethrow ends
