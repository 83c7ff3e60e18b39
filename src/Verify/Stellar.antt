-- ===== src/Verify/Stellar.antt =====
-- The parts of @stellar/stellar-sdk that sdk/src/verify.ts calls, as parameters, and the answers
-- of a server to one run.
use zksoroban.Prelude.{ℕ, Bool, List, Option}
use zksoroban.Js.Text.{Text}
use zksoroban.Js.Bytes.{Bytes}
use zksoroban.Types.Result.{Result}

-- A value that `nativeToScVal` is given for a field, with its type hint.
pub data Native : Type 0 where
  bytes_hint : Bytes → Native
  u32_hint : ℕ → Native
  no_hint : List Bytes → Native

pub record Stellar : Type 1 where
  pub ScVal : Type 0
  pub Account : Type 0
  pub Contract : Type 0
  pub Tx : Type 0
  pub Keypair : Type 0
  pub Event : Type 0
  pub ResultXdr : Type 0
  -- `xdr.ScVal.scvBytes`, `scvVec`, `scvU32`, and `nativeToScVal` with symbol keys.
  pub scv_bytes : Bytes → ScVal
  pub scv_vec : List ScVal → ScVal
  pub scv_u32 : ℕ → ScVal
  pub scv_struct : List (Text × Native) → ScVal
  -- `new Address(key).toScVal()`, `keypair.publicKey()`, `new Contract(id)`,
  -- `new Account(key, "0")`.
  pub address : Text → Result ScVal
  pub public_key : Keypair → Text
  pub new_contract : Text → Result Contract
  pub new_account : Text → Result Account
  -- The transaction builder with BASE_FEE, the network's passphrase, one operation that calls a
  -- function of a contract, and a timeout of 30 seconds.
  pub build : Account → (passphrase : Text) → Contract → (function : Text) → List ScVal → Result Tx
  pub sign : Keypair → Tx → Tx
  -- `Boolean(scValToNative(v))`, `scValToNative(v) === "fn_return"`, and `native.map(Boolean)` if
  -- `scValToNative(v)` is an array.
  pub to_boolean : ScVal → Result Bool
  pub is_fn_return : ScVal → Result Bool
  pub to_booleans : ScVal → Result (Option (List Bool))
  -- `BigInt(BASE_FEE)`.
  pub base_fee : ℕ
  -- The topics and the data of a diagnostic event, and `feeCharged().toString()`.
  pub topics : Event → List ScVal
  pub event_value : Event → ScVal
  pub fee_charged : ResultXdr → Text
  -- `xdr.DiagnosticEvent.fromXDR(text, "base64")`, `xdr.TransactionResult.fromXDR(text, "base64")`.
  pub event_from_base64 : Text → Result Event
  pub result_from_base64 : Text → Result ResultXdr

-- What `sendTransaction` answers.
pub record SendReply : Type 0 where
  pub status : Text
  pub hash : Text

-- What `getTransaction` answers: NOT_FOUND, FAILED, or a status with a payload.
pub data TxReply (Payload : Type 0) : Type 0 where
  not_found : TxReply Payload
  failed : (tx_hash : Text) (ledger : ℕ) → TxReply Payload
  confirmed : Payload → TxReply Payload

module _ (s : Stellar) where
  open s use {ScVal, Account, Tx, Event, ResultXdr}

  -- The payload of `getTransaction`; a field may be missing.
  pub record Payload : Type 0 where
    pub tx_hash : Text
    pub ledger : Option ℕ
    pub result_xdr : Option ResultXdr
    pub return_value : Option ScVal
    pub diagnostic_events : Option (List Event)

  -- The payload of `_getTransaction`, whose XDR is base64 text.
  pub record RawPayload : Type 0 where
    pub tx_hash : Text
    pub ledger : Option ℕ
    pub result_xdr : Option Text
    pub diagnostic_events : Option (List Text)

  -- What `simulateTransaction` answers: an error, or a result that may lack its value, with
  -- `BigInt(minResourceFee)`.
  pub data SimReply : Type 0 where
    sim_error : Text → SimReply
    simulated : (retval : Option ScVal) (min_resource_fee : Result ℕ) → SimReply

  -- The answers of a server during one run: `new rpc.Server(…)`, then each method, with the answers
  -- to repeated polls in order, and the readings of `Date.now()`: from the milliseconds that the run
  -- has waited with `setTimeout` before, and the count of the readings before.
  pub record Server : Type 0 where
    pub connect : Result (Unit {0})
    pub network : Result Text
    pub account : Text → Result Account
    pub prepared : Tx → Result Tx
    pub sent : Tx → Result SendReply
    pub polled : ℕ → Result (TxReply Payload)
    pub polled_raw : ℕ → Result (TxReply RawPayload)
    pub simulate : Tx → Result SimReply
    pub clock : (waited reading : ℕ) → ℕ
    -- The public key of `Keypair.random()`.
    pub ephemeral : Text
