-- ===== src/Demo/Fee.antt =====
-- demo/src/estimateFee.ts: an estimate of the fee, then the transaction.
use zksoroban.Prelude.{[], ◌∷◌, ◌++◌, Option, none, some}
use zksoroban.Js.Text.{Text, text}
use zksoroban.Js.Bytes.{Bytes}
use zksoroban.Js.Numeral.{to_string}
use zksoroban.Js.Value.{array, bigint, cons, nil, integer_text}
use zksoroban.Types.{native_error}
use zksoroban.Types.Result.{Result, ok, err}
use zksoroban.Poseidon.{PoseidonConstants, poseidon}
use zksoroban.Cli.{newline}
use zksoroban.Verify.Run.{Run, ◌>>=◌, ◌>>◌, lift}
use zksoroban.Verify.Stellar.{Stellar, Server}
use zksoroban.Verify.OnChain.{VerifyOptions, VerifyResult, verify_on_chain}
use zksoroban.Verify.Fee.{estimate_verify_fee}
use zksoroban.Demo.{log_line, random_secret}
use zksoroban.Demo.Main.{FullProof, boolean_text}

abbrev pub testnet_contract_id : Text
testnet_contract_id = text "CBL6MAWJALQP25LYKUUOC34K464XPSF6BLKUW6MXZDEXEDXMQUSP7HNN"

-- `process.env[name]`, which must not be empty.
unfoldable pub require_env : (Text → Option Text) → Text → Result Text
require_env env name = elim (env name) [
  | none ↦ err (native_error (text "Missing required environment variable: " ++ name))
  | some value ↦ elim value [
    | [] ↦ err (native_error (text "Missing required environment variable: " ++ name))
    | c ∷ rest ↦ ok (c ∷ rest)
  ]
]

module _ (s : Stellar) where
  open s use {Tx, Keypair}

  -- What the program takes from its surroundings: the environment, `Keypair.fromSecret`, the bytes
  -- of `randomBytes(31)`, the constants of Poseidon, `snarkjs.groth16.fullProve`, the time, and
  -- `Networks.TESTNET`.
  pub record Surroundings : Type 0 where
    pub env : Text → Option Text
    pub keypair_from_secret : Text → Result Keypair
    pub random_bytes : Bytes
    pub constants : Result PoseidonConstants
    pub full_prove : Text → Text → Result FullProof
    pub now : Text
    pub testnet_passphrase : Text

  unfoldable pub result_lines : VerifyResult → Run Tx (Unit {0})
  result_lines result = do
    log_line (text "txHash: " ++ result.tx_hash)
    log_line (text "actual fee charged: " ++ result.fee ++ text " stroops")
    log_line (text "✓ Proof verified on-chain: " ++ boolean_text result.verified)

  -- From the options on; the servers are those of the two calls.
  unfoldable pub estimate_and_submit :
      (first second : Server s) → VerifyOptions s → Run Tx (Unit {0})
  estimate_and_submit first second opts = do
    log_line (
        newline
        ++ text "=== Step 1: estimate the fee (simulateTransaction — nothing submitted) ===")
    estimate ← estimate_verify_fee s first opts
    log_line (
        text "estimated fee: "
        ++ estimate.xlm
        ++ text " XLM ("
        ++ to_string 10 estimate.stroops
        ++ text " stroops)")
    log_line (newline ++ text "=== Step 2: submit the real transaction ===")
    result ← verify_on_chain s second opts
    result_lines result

  unfoldable pub fee_main : (first second : Server s) → Surroundings → Run Tx (Unit {0})
  fee_main first second around = do
    secret_key ← lift (require_env around.env (text "SOROBAN_SECRET_KEY"))
    keypair ← lift (around.keypair_from_secret secret_key)
    secret ← lift (random_secret around.random_bytes)
    commitment ← lift (poseidon around.constants (array (cons (bigint secret) nil)))
    log_line (text "secret: " ++ integer_text secret)
    log_line (text "commitment: " ++ integer_text commitment)
    log_line (text "generating proof...")
    made ← lift (around.full_prove (integer_text secret) (integer_text commitment))
    estimate_and_submit first second (record {
      contract_id = testnet_contract_id;
      keypair = keypair;
      calldata = none;
      bundle = some (record {
        proof = made.proof;
        public_signals = made.public_signals;
        circuit = text "poseidon_preimage";
        generated_at = around.now;
        network_passphrase = around.testnet_passphrase;
      });
    })
