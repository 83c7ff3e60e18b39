-- ===== src/Verify/Calls/Allowed.antt =====
-- The calls of a function that submits a transaction: what each is given.
use zksoroban.Prelude.{◌≡◌, refl, Bool, true, false, not, List}
use zksoroban.Js.Text.{Text}
use zksoroban.Types.Result.{ok, throw_if-eq-ok, ok-injective}
use zksoroban.Verify.Run.{
  Call, get_network, get_account, prepare_transaction, send_transaction, get_transaction, wait, Run,
  ◌>>=◌, lift, await,
}
use zksoroban.Verify.Run.Laws.{Calls, bind-Calls, Returns, bind-Returns}
use zksoroban.Verify.Stellar.{Stellar, SendReply, Server}
use zksoroban.Verify.Calls.{is_accepted, check_status, caller_transaction, submit}

not-false : (b : Bool) → not b ≡ false → b ≡ true
not-false true h = refl
not-false false h = absurd (cc)

status_accepted : (status : Text) → check_status status ≡ ok tt → is_accepted status ≡ true
unfolding check_status
status_accepted status h =
    not-false (is_accepted status) (throw_if-eq-ok (not (is_accepted status)) _ h)

module _ (s : Stellar) (server : Server s) (keypair : s.Keypair) (contract_id function : Text)
    (Network : Text → Type 0) (Arguments : (s.ScVal → List s.ScVal) → Type 0) where
  open s use {ScVal, Account, Contract, Tx, address, public_key, new_contract, build, sign}

  -- A transaction that calls `function` of the contract from the keypair's account, on a network
  -- in `Network`, with arguments in `Arguments`.
  pub record IsInvocation (tx : Tx) : Type 0 where
    pub passphrase : Text
    pub asked : server.network ≡ ok passphrase
    pub matched : Network passphrase
    pub arguments : ScVal → List ScVal
    pub given : Arguments arguments
    pub account : Account
    pub loaded : server.account (public_key keypair) ≡ ok account
    pub contract : Contract
    pub opened : new_contract contract_id ≡ ok contract
    pub caller : ScVal
    pub named : address (public_key keypair) ≡ ok caller
    pub built : build account passphrase contract function (arguments caller) ≡ ok tx

  -- What is sent: such a transaction, prepared by the server and signed.
  pub record IsSubmission (signed : Tx) : Type 0 where
    pub tx : Tx
    pub invokes : IsInvocation tx
    pub prepared : Tx
    pub from_server : server.prepared tx ≡ ok prepared
    pub is_signed : signed ≡ sign keypair prepared

  pub data IsAllowed : Call Tx → Type 0 where
    asks_network : IsAllowed get_network
    loads_account : IsAllowed (get_account (public_key keypair))
    waits : IsAllowed (wait 1000)
    prepares : {tx : Tx} → IsInvocation tx → IsAllowed (prepare_transaction tx)
    sends : {signed : Tx} → IsSubmission signed → IsAllowed (send_transaction signed)
    polls :
        {signed : Tx}
        → IsSubmission signed
        → (reply : SendReply) → server.sent signed ≡ ok reply
        → is_accepted reply.status ≡ true
        → IsAllowed (get_transaction reply.hash)

  submit-Calls : (tx : Tx) → IsInvocation tx → Calls IsAllowed (submit s server keypair tx)
  unfolding submit
  submit-Calls tx h =
      bind-Calls IsAllowed (await (prepare_transaction tx) (server.prepared tx)) _ (prepares h, tt)
        λ prepared e.
          let submission : IsSubmission (sign keypair prepared) = record {
            tx = tx;
            invokes = h;
            prepared = prepared;
            from_server = e;
            is_signed = refl;
          } in
          bind-Calls IsAllowed
            (await (send_transaction (sign keypair prepared)) (server.sent (sign keypair prepared)))
            _ (sends submission, tt)
            λ reply f. bind-Calls IsAllowed (lift (check_status reply.status)) _ tt λ done g. tt

  submit-Returns :
      (tx : Tx)
      → IsInvocation tx
      → Returns (λ hash. IsAllowed (get_transaction hash)) (submit s server keypair tx).result
  unfolding submit
  submit-Returns tx h =
      bind-Returns (await (prepare_transaction tx) (server.prepared tx)) _ λ prepared e.
        let submission : IsSubmission (sign keypair prepared) = record {
          tx = tx;
          invokes = h;
          prepared = prepared;
          from_server = e;
          is_signed = refl;
        } in
        bind-Returns
          (await (send_transaction (sign keypair prepared)) (server.sent (sign keypair prepared))) _
          λ reply f. bind-Returns (lift (check_status reply.status)) _ λ done g hash same.
            let accepted = status_accepted reply.status g in
            let named = ok-injective same in rw (← named) (polls submission reply f accepted)

  caller-Calls :
      (passphrase : Text) (arguments : ScVal → List ScVal)
      → Calls IsAllowed
          (caller_transaction s server keypair contract_id passphrase function arguments)
  unfolding caller_transaction
  caller-Calls passphrase arguments =
      bind-Calls IsAllowed
        (await (get_account (public_key keypair)) (server.account (public_key keypair))) _
        (loads_account, tt)
        λ account e. bind-Calls IsAllowed (lift (new_contract contract_id)) _ tt λ contract f.
          bind-Calls IsAllowed (lift (address (public_key keypair))) _ tt λ caller g. tt

  caller-Returns :
      (passphrase : Text) (arguments : ScVal → List ScVal)
      → server.network ≡ ok passphrase
      → Network passphrase
      → Arguments arguments
      → Returns IsInvocation
          (caller_transaction s server keypair contract_id passphrase function arguments).result
  unfolding caller_transaction
  caller-Returns passphrase arguments asked matched given =
      bind-Returns (await (get_account (public_key keypair)) (server.account (public_key keypair)))
        _
        λ account e. bind-Returns (lift (new_contract contract_id)) _ λ contract f.
          bind-Returns (lift (address (public_key keypair))) _ λ caller g tx h. record {
            passphrase = passphrase;
            asked = asked;
            matched = matched;
            arguments = arguments;
            given = given;
            account = account;
            loaded = e;
            contract = contract;
            opened = f;
            caller = caller;
            named = g;
            built = h;
          }

  -- The calls from the account's to the last poll.
  pub invocation-Calls :
      {A : Type 0} (passphrase : Text) (arguments : ScVal → List ScVal) (next : Text → Run Tx A)
      → server.network ≡ ok passphrase
      → Network passphrase
      → Arguments arguments
      → ((hash : Text) → IsAllowed (get_transaction hash) → Calls IsAllowed (next hash))
      → Calls IsAllowed (
          caller_transaction s server keypair contract_id passphrase function arguments >>= λ tx.
          submit s server keypair tx >>= next)
  invocation-Calls passphrase arguments next asked matched given k =
      bind-Calls IsAllowed
        (caller_transaction s server keypair contract_id passphrase function arguments) _
        (caller-Calls passphrase arguments)
        λ tx built.
          let invokes = caller-Returns passphrase arguments asked matched given tx built in
          bind-Calls IsAllowed (submit s server keypair tx) next (submit-Calls tx invokes)
            λ hash sent. k hash (submit-Returns tx invokes hash sent)
