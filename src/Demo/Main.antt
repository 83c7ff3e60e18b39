-- ===== src/Demo/Main.antt =====
-- The scenarios of demo/src/run.ts, behind the questions.
use zksoroban.Prelude.{ℕ, Bool, true, false, ◌++◌, Option, none, some, if◌then◌else◌, leb}
use zksoroban.Prelude.Int.{pos, ◌+ℤ◌}
use zksoroban.Js.Text.{Text, text, text_eq}
use zksoroban.Js.Value.{JsValue, array, bigint, string, cons, nil, undefined, integer_text}
use zksoroban.Types.{Thrown, code, message, is_zk_input_error}
use zksoroban.Types.Result.{Result, ok, err}
use zksoroban.Proof.{format_proof}
use zksoroban.Poseidon.{PoseidonConstants, poseidon}
use zksoroban.Cli.{newline}
use zksoroban.Verify.Run.{Run, ◌>>=◌, ◌>>◌, lift}
use zksoroban.Verify.Stellar.{Stellar, Server}
use zksoroban.Verify.Registry.{verify_via_registry}
use zksoroban.Demo.{NetworkEntry, url, log_line, code_text}
use zksoroban.Demo.Ask.{Answers}

-- `{ quiet: 0, normal: 1, verbose: 2 }[level]`
abbrev pub rank : Text → Option ℕ
rank level =
    if text_eq level (text "quiet")
    then some 0
    else if text_eq level (text "normal")
    then some 1
    else if text_eq level (text "verbose")
    then some 2
    else none

-- `a >= b`, which is false for an undefined side.
abbrev pub reaches : Option ℕ → Option ℕ → Bool
reaches (some a) (some b) = leb b a
reaches _ _ = false

-- `${verified}`
abbrev pub boolean_text : Bool → Text
boolean_text true = text "true"
boolean_text false = text "false"

abbrev pub out_of_field_public_input : Text
out_of_field_public_input =
    text "21888242871839275222246405745257275088548364400416034343698204186575808495617"

-- `${error.code}`
abbrev pub code_of : Thrown → Text
code_of t = elim (code t) [ none ↦ text "undefined" | some c ↦ code_text c ]

-- The result of `snarkjs.groth16.fullProve`.
pub record FullProof : Type 0 where
  pub proof : JsValue
  pub public_signals : JsValue

module _ (s : Stellar) where
  open s use {Tx}

  -- `log(line, level)` at a verbosity.
  unfoldable pub log_at : (verbosity line level : Text) → Run Tx (Unit {0})
  log_at verbosity line level =
      if reaches (rank verbosity) (rank level) then log_line line else lift (ok tt)

  unfoldable pub verify_and_report :
      Server s
      → (proof public_signals : JsValue) → (contract_id verbosity : Text) → Run Tx (Unit {0})
  verify_and_report server proof public_signals contract_id verbosity = do
    log_at verbosity (text "simulating verify_proof against the registry...") (text "verbose")
    calldata ← lift (format_proof proof public_signals undefined)
    verified ← verify_via_registry s server (record {
      registry_contract_id = contract_id;
      circuit_id = 1;
      calldata = some calldata;
      bundle = none;
    })
    log_line (text "✓ Proof verified on-chain: " ++ boolean_text verified)

  unfoldable pub rejection_lines : Thrown → Run Tx (Unit {0})
  rejection_lines t = do
    log_line (text "✗ formatProof threw ZkInputError, as expected:")
    log_line (text "  code: " ++ code_of t)
    log_line (text "  message: " ++ message t)

  -- What the third scenario does with the outcome of `formatProof`.
  unfoldable pub report_rejection : {A : Type 0} → Result A → Run Tx (Unit {0})
  report_rejection (ok calldata) = log_line (text "(unexpected: formatProof did not throw)")
  report_rejection (err t) = if is_zk_input_error t then rejection_lines t else lift (err t)

  unfoldable pub scenario_three : (proof : JsValue) → (verbosity : Text) → Run Tx (Unit {0})
  scenario_three proof verbosity = do
    log_line (newline ++ text "=== Scenario 3: failure — malformed public input ===")
    log_at verbosity
        (text
          "a public input at or beyond the BN254 field modulus is rejected before any network call")
        (text "normal")
    report_rejection
        (format_proof proof (array (cons (string out_of_field_public_input) nil)) undefined)

  -- `answers.rpcUrl` in a line.
  abbrev pub url_text : NetworkEntry → Text → Text
  url_text (url u) other = u
  url_text _ other = other

  -- The servers are those of the two calls of `verifyViaRegistry`, `full_prove` is
  -- `snarkjs.groth16.fullProve`, and `inherited_text` is the text of an inherited member.
  unfoldable pub run_scenarios :
      (first second : Server s)
      → Result PoseidonConstants
      → (full_prove : Text → Text → Result FullProof) → (inherited_text : Text) → Answers
      → Run Tx (Unit {0})
  run_scenarios first second constants full_prove inherited_text answers = do
    commitment ← lift (poseidon constants (array (cons (bigint answers.secret) nil)))
    log_at answers.verbosity (text "secret: " ++ integer_text answers.secret) (text "verbose")
    log_at answers.verbosity
        (text "network: "
          ++ answers.network
          ++ text " ("
          ++ url_text answers.rpc_url inherited_text
          ++ text ")")
        (text "verbose")
    log_at answers.verbosity (text "commitment: " ++ integer_text commitment) (text "normal")
    log_at answers.verbosity (text "generating proof...") (text "verbose")
    made ← lift (full_prove (integer_text answers.secret) (integer_text commitment))
    log_line (newline ++ text "=== Scenario 1: success — valid proof ===")
    verify_and_report first made.proof made.public_signals answers.contract_id answers.verbosity
    log_line (newline ++ text "=== Scenario 2: failure — valid proof, wrong public input ===")
    log_at answers.verbosity
        (text "using the same proof, but a different commitment than the one it actually proves")
        (text "normal")
    log_at answers.verbosity
        (text "expected: verified = false (the pairing check rejects it, nothing throws)")
        (text "verbose")
    wrong_commitment ←
        lift (poseidon constants (array (cons (bigint (answers.secret +ℤ pos 1)) nil)))
    verify_and_report second made.proof (array (cons (string (integer_text wrong_commitment)) nil))
        answers.contract_id answers.verbosity
    scenario_three made.proof answers.verbosity
