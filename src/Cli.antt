-- ===== src/Cli.antt =====
-- sdk/src/cli.ts: the command line.
pub mod Flags
pub mod Reports
pub mod Commands
pub mod Printed
pub mod Key
use zksoroban.Prelude.{
  ℕ, suc, ◌+◌, ◌*◌, Bool, true, false, List, [], ◌∷◌, ◌++◌, Option, none, some, map, length,
  get_elem?, ◌==◌, if◌then◌else◌,
}
use zksoroban.Prelude.Int.{ℤ}
use zksoroban.Js.Text.{Text, text, text_eq, join}
use zksoroban.Js.Numeral.{to_string}
use zksoroban.Js.Bytes.{Bytes, to_hex}
use zksoroban.Js.BigInt.{to_bigint}
use zksoroban.Js.Value.{
  JsValue, undefined, array, bigint, items, Items, cons, nil, property, string_of, integer_text,
}
use zksoroban.Types.{
  SorobanProofCalldata, RegistryVerifyingKey, Thrown, native_error, message, soroban_zk_error,
  invalid_proof_format,
}
use zksoroban.Types.Result.{Result, ok, err, ◌>>=◌, ◌>>◌}
use zksoroban.Proof.{format_proof}
use zksoroban.Proof.VerifyingKey.{format_verifying_key}
use zksoroban.Poseidon.{PoseidonConstants, poseidon}

abbrev pub registry_contract_id : Text
registry_contract_id = text "CDTPNARKKZCZ36PL4BNKBXZTT2BLVR373S2K5NCFAOKCPPY62ESRHSXH"

abbrev pub newline : Text
newline = 10 ∷ []

abbrev pub usage : Text
usage = join newline (
    text "zksoroban <command> [options]"
    ∷ []
    ∷ text "Commands:"
    ∷ text
        "  prove         --secret <decimal>            compute the Poseidon commitment and circuit input"
    ∷ text
        "  verify        --proof <file> --public <file>  encode to Soroban calldata and report the byte layout"
    ∷ text
        "  inspect       --bundle <file>               print ProofBundle metadata and calldata sizes"
    ∷ text "  estimate-fee  --proof <file> --public <file>  print a deterministic fee estimate"
    ∷ text
        "  format-vk     --vk <file> --id <u32> [--registry-id <id>]  encode a verification_key.json for register_circuit"
    ∷ [])

-- `args.indexOf(name)`, with `none` for -1.
unfoldable pub index_of : List Text → Text → Option ℕ
index_of [] name = none
index_of (arg ∷ args) name =
    if text_eq arg name
    then some 0
    else elim (index_of args name) [ none ↦ none | some i ↦ some (suc i) ]

unfoldable pub get_flag : List Text → Text → Option Text
get_flag args name = elim (index_of args name) [
  | none ↦ none
  | some index ↦ if suc index == length args then none else get_elem? args (suc index)
]

abbrev pub missing_flag : Text → Thrown
missing_flag name = soroban_zk_error (text "Missing required flag: " ++ name) invalid_proof_format

unfoldable pub require_flag : List Text → Text → Result Text
require_flag args name = elim (get_flag args name) [
  | none ↦ err (missing_flag name)
  | some value ↦ ok value
]

-- `JSON.parse(fs.readFileSync(path, "utf8"))`
pub record Files : Type 0 where
  pub read_json : Text → Result JsValue

-- `value => `  [${index}] ${value}`` from an index on.
unfoldable pub format_list : ℕ → List JsValue → List Text
format_list index [] = []
format_list index (value ∷ rest) =
    (text "  [" ++ to_string 10 index ++ text "] " ++ string_of value)
    ∷ format_list (suc index) rest

-- `formatList(values)`: `values` is an array where `formatProof` has returned.
unfoldable pub format_signals : JsValue → Result (List Text)
format_signals (array vs) = ok (format_list 0 (items vs))
format_signals v = err (native_error (text "values.map is not a function"))

-- `items.reduce((total, item) => total + item.length, 0)`
unfoldable pub total_length : ℕ → List Bytes → ℕ
total_length total [] = total
total_length total (item ∷ rest) = total_length (total + length item) rest

unfoldable pub proof_bytes : SorobanProofCalldata → ℕ
proof_bytes c = length c.proof_a + length c.proof_b + length c.proof_c

unfoldable pub command_prove : Result PoseidonConstants → List Text → Result (List Text)
command_prove constants args = do
  flag ← require_flag args (text "--secret")
  secret ← to_bigint flag
  commitment ← poseidon constants (array (cons (bigint secret) nil))
  ok (
      text "command: prove"
      ∷ text "circuit: poseidon_preimage"
      ∷ (text "secret: " ++ integer_text secret)
      ∷ (text "commitment: " ++ integer_text commitment)
      ∷ text "circuit input:"
      ∷ (text "  secret: " ++ integer_text secret)
      ∷ (text "  commitment: " ++ integer_text commitment)
      ∷ [])

-- The files of the flags --proof and --public, encoded.
unfoldable pub read_calldata : Files → List Text → Result SorobanProofCalldata
read_calldata files args = do
  proof_path ← require_flag args (text "--proof")
  proof ← files.read_json proof_path
  public_path ← require_flag args (text "--public")
  public_signals ← files.read_json public_path
  format_proof proof public_signals undefined

unfoldable pub command_verify : Files → List Text → Result (List Text)
command_verify files args = do
  calldata ← read_calldata files args
  ok (
      text "command: verify"
      ∷ text "calldata encoding: ok"
      ∷ (text "proofA bytes: " ++ to_string 10 (length calldata.proof_a))
      ∷ (text "proofB bytes: " ++ to_string 10 (length calldata.proof_b))
      ∷ (text "proofC bytes: " ++ to_string 10 (length calldata.proof_c))
      ∷ (text "public inputs: " ++ to_string 10 (length calldata.public_inputs))
      ∷ [])

unfoldable pub command_inspect : Files → List Text → Result (List Text)
command_inspect files args = do
  path ← require_flag args (text "--bundle")
  bundle ← files.read_json path
  proof ← property bundle (text "proof")
  public_signals ← property bundle (text "publicSignals")
  calldata ← format_proof proof public_signals undefined
  circuit ← property bundle (text "circuit")
  generated_at ← property bundle (text "generatedAt")
  network_passphrase ← property bundle (text "networkPassphrase")
  protocol ← property proof (text "protocol")
  signal_lines ← format_signals public_signals
  ok (
      (text "command: inspect"
        ∷ (text "circuit: " ++ string_of circuit)
        ∷ (text "generatedAt: " ++ string_of generated_at)
        ∷ (text "networkPassphrase: " ++ string_of network_passphrase)
        ∷ (text "proof protocol: " ++ string_of protocol)
        ∷ text "public signals:"
        ∷ signal_lines)
      ++ (text "calldata bytes: " ++ to_string 10 (proof_bytes calldata)) ∷ [])

unfoldable pub command_estimate_fee : Files → List Text → Result (List Text)
command_estimate_fee files args = do
  calldata ← read_calldata files args
  let public_bytes = total_length 0 calldata.public_inputs
  let total_bytes = proof_bytes calldata + public_bytes
  ok (
      text "command: estimate-fee"
      ∷ (text "proof bytes: " ++ to_string 10 (proof_bytes calldata))
      ∷ (text "public input bytes: " ++ to_string 10 public_bytes)
      ∷ (text "total bytes: " ++ to_string 10 total_bytes)
      ∷ (text "estimated fee (stroops): " ++ to_string 10 (100 + total_bytes * 7))
      ∷ [])

abbrev pub quoted : Text → Text
quoted s = b'"' ∷ s ++ b'"' ∷ []

-- `JSON.stringify` of the key's bytes in hex, which need no escapes.
unfoldable pub vk_json : RegistryVerifyingKey → Text
vk_json key =
    text "{\"alpha\":"
    ++ quoted (to_hex key.alpha)
    ++ text ",\"beta\":"
    ++ quoted (to_hex key.beta)
    ++ text ",\"gamma\":"
    ++ quoted (to_hex key.gamma)
    ++ text ",\"delta\":"
    ++ quoted (to_hex key.delta)
    ++ text ",\"ic\":["
    ++ join (text ",") (map (λ point. quoted (to_hex point)) key.ic)
    ++ text "]}"

abbrev pub or_default : Option Text → Text → Text
or_default none other = other
or_default (some s) other = s

unfoldable pub command_format_vk : Files → List Text → Result (List Text)
command_format_vk files args = do
  id ← require_flag args (text "--id")
  path ← require_flag args (text "--vk")
  vk ← files.read_json path
  let registry_id = or_default (get_flag args (text "--registry-id")) registry_contract_id
  key ← format_verifying_key vk
  ok (
      text "command: format-vk"
      ∷ (text "circuit id: " ++ id)
      ∷ (text "registry: " ++ registry_id)
      ∷ (text "alpha bytes: " ++ to_string 10 (length key.alpha))
      ∷ (text "beta bytes: " ++ to_string 10 (length key.beta))
      ∷ (text "gamma bytes: " ++ to_string 10 (length key.gamma))
      ∷ (text "delta bytes: " ++ to_string 10 (length key.delta))
      ∷ (text "ic points: " ++ to_string 10 (length key.ic))
      ∷ []
      ∷ text "stellar contract invoke \\"
      ∷ (text "  --id " ++ registry_id ++ text " \\")
      ∷ text "  --network testnet \\"
      ∷ text "  --source-account <registry-admin> \\"
      ∷ (text "  -- register_circuit --id " ++ id ++ text " --vk '" ++ vk_json key ++ text "'")
      ∷ [])

-- `lines.join("\n")` of a command that returns.
abbrev pub joined : Result (List Text) → Result Text
joined lines = lines >>= λ ls. ok (join newline ls)

unfoldable pub run_cli : Result PoseidonConstants → Files → List Text → Result Text
run_cli constants files [] = ok usage
run_cli constants files (command ∷ args) =
    if text_eq command (text "prove")
    then joined (command_prove constants args)
    else if text_eq command (text "verify")
    then joined (command_verify files args)
    else if text_eq command (text "inspect")
    then joined (command_inspect files args)
    else if text_eq command (text "estimate-fee")
    then joined (command_estimate_fee files args)
    else if text_eq command (text "format-vk")
    then joined (command_format_vk files args)
    else ok usage

-- What the process writes to its two outputs, and its exit code.
pub record Exit : Type 0 where
  pub stdout : Text
  pub stderr : Text
  pub exit_code : ℕ

-- The block under `require.main === module`.
unfoldable pub cli_main : Result PoseidonConstants → Files → List Text → Exit
cli_main constants files argv = elim (run_cli constants files argv) [
  | ok output ↦ record { stdout = output ++ newline; stderr = []; exit_code = 0 }
  | err error ↦ record { stdout = []; stderr = message error ++ newline; exit_code = 1 }
]
