-- ===== src/Tests/Server.antt =====
-- A server that answers, and the parts of the Stellar SDK in a small concrete form.
use zksoroban.Prelude.{
  arith, ℕ, zero, suc, Bool, true, false, List, [], ◌∷◌, Option, some, none, replicate,
}
use zksoroban.Js.Text.{Text, text}
use zksoroban.Js.Value.{undefined}
use zksoroban.Types.{SorobanProofCalldata}
use zksoroban.Types.Result.{Result, ok}
use zksoroban.Verify.Stellar.{
  Stellar, TxReply, not_found, confirmed, Payload, RawPayload, simulated, Server,
}
use zksoroban.Verify.Calls.{ProofBundle, KeepsTime}
use zksoroban.Verify.OnChain.{VerifyOptions, VerifyResult}
use zksoroban.Verify.Batch.{VerifyBatchOptions, VerifyBatchResult}
use zksoroban.Verify.Registry.{VerifyViaRegistryOptions, VerifyBatchViaRegistryOptions}
use zksoroban.Verify.Config.{RawConfig}
use zksoroban.Tests.Sample.{sample, sample_signals}

-- A value is a Boolean, or anything else.
pub data Value : Type 0 where
  flag : Bool → Value
  marker : Value
  thing : Value

abbrev boolean_of : Value → Bool
boolean_of (flag b) = b
boolean_of v = true

abbrev is_marker : Value → Bool
is_marker marker = true
is_marker v = false

abbrev booleans_of : Value → Option (List Bool)
booleans_of (flag b) = some (b ∷ [])
booleans_of v = none

abbrev pub stellar : Stellar
stellar = record {
  ScVal = Value;
  Account = Text;
  Contract = Text;
  Tx = Text;
  Keypair = Text;
  Event = Value;
  ResultXdr = Text;
  scv_bytes = λ b. thing;
  scv_vec = λ vs. thing;
  scv_u32 = λ n. thing;
  scv_struct = λ fields. thing;
  address = λ key. ok thing;
  public_key = λ k. k;
  new_contract = ok;
  new_account = ok;
  build = λ account passphrase contract function arguments. ok function;
  sign = λ k tx. tx;
  to_boolean = λ v. ok (boolean_of v);
  is_fn_return = λ v. ok (is_marker v);
  to_booleans = λ v. ok (booleans_of v);
  base_fee = 100;
  topics = λ e. marker ∷ thing ∷ [];
  event_value = λ e. e;
  fee_charged = λ x. x;
  event_from_base64 = λ t. ok (flag true);
  result_from_base64 = ok;
}

abbrev pub second_payload : Payload stellar
second_payload = record {
  tx_hash = 7 ∷ [];
  ledger = some 12;
  result_xdr = some (9 ∷ []);
  return_value = some (flag false);
  diagnostic_events = none;
}

-- The first poll finds nothing, and the second a success.
abbrev answer : ℕ → Result (TxReply (Payload stellar))
answer zero = ok not_found
answer (suc i) = ok (confirmed second_payload)

abbrev raw_answer : ℕ → Result (TxReply (RawPayload stellar))
raw_answer zero = ok not_found
raw_answer (suc i) = ok (
    confirmed (record {
      tx_hash = 7 ∷ [];
      ledger = some 12;
      result_xdr = some (9 ∷ []);
      diagnostic_events = some ([] ∷ []);
    }))

abbrev pub server : Server stellar
server = record {
  connect = ok tt;
  network = ok (1 ∷ []);
  account = ok;
  prepared = ok;
  sent = λ tx. ok (record { status = text "PENDING"; hash = 7 ∷ [] });
  polled = answer;
  polled_raw = raw_answer;
  simulate = λ tx. ok (simulated (some (flag true)) (ok 50));
  clock = λ waited i. waited;
  ephemeral = [];
}

abbrev word : List ℕ
word = replicate 32 1

abbrev pub calldata : SorobanProofCalldata
calldata = record {
  proof_a = replicate 64 1;
  proof_b = replicate 128 1;
  proof_c = replicate 64 1;
  public_inputs = word ∷ [];
}

abbrev pub options : VerifyOptions stellar
options = record { contract_id = []; keypair = []; calldata = some calldata; bundle = none }

abbrev pub registry_options : VerifyViaRegistryOptions
registry_options = record {
  registry_contract_id = [];
  circuit_id = 3;
  calldata = some calldata;
  bundle = none;
}

-- A bundle for the network 2; the server's is 1.
abbrev pub bundle : ProofBundle
bundle = record {
  proof = sample;
  public_signals = sample_signals;
  circuit = [];
  generated_at = [];
  network_passphrase = 2 ∷ [];
}

abbrev pub bundle_options : VerifyOptions stellar
bundle_options = record {
  contract_id = [];
  keypair = [];
  calldata = some calldata;
  bundle = some bundle;
}

abbrev pub bundle_registry_options : VerifyViaRegistryOptions
bundle_registry_options = record {
  registry_contract_id = [];
  circuit_id = 3;
  calldata = some calldata;
  bundle = some bundle;
}

abbrev pub batch_options : VerifyBatchOptions stellar
batch_options = record {
  contract_id = [];
  keypair = [];
  items =
      record { proof = sample; public_signals = sample_signals; expiry_ledger = undefined } ∷ [];
}

abbrev pub registry_batch_options : VerifyBatchViaRegistryOptions
registry_batch_options = record {
  registry_contract_id = [];
  items = record { circuit_id = 3; proof = sample; public_signals = sample_signals } ∷ [];
}

abbrev pub config : Value → Result RawConfig
config v = ok (record {
  admin = [];
  paused = false;
  fee_amount = none;
  fee_token = none;
  rate_limit_max = 0;
  rate_limit_window = 0;
  timelock_delay = none;
  allowlist_enabled = false;
})

abbrev pub on_chain_result : VerifyResult
on_chain_result = record { verified = false; tx_hash = 7 ∷ []; ledger = 12; fee = 9 ∷ [] }

abbrev pub batch_outcome : VerifyBatchResult
batch_outcome = record { verified = true ∷ []; tx_hash = 7 ∷ []; ledger = 12; fee = 9 ∷ [] }

abbrev pub version_text : Value → Result Text
version_text v = ok []

pub keeps_time : KeepsTime server.clock
keeps_time waited i ms = omega arith
