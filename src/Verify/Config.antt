-- ===== src/Verify/Config.antt =====
-- getContractConfig of sdk/src/verify.ts, and getContractVersion of sdk/src/version.ts.
pub mod Warning
use zksoroban.Prelude.{ℕ, Bool, [], ◌++◌, Option, none, some, if◌then◌else◌}
use zksoroban.Js.Text.{Text, text, text_eq}
use zksoroban.Types.{
  soroban_zk_error, contract_invocation_failed, network_error, is_soroban_zk_error, message,
}
use zksoroban.Types.Result.{Result, ok, err}
use zksoroban.Verify.Run.{
  get_network, simulate_transaction, warn, Run, ◌>>=◌, ◌>>◌, lift, await, try_classify,
}
use zksoroban.Verify.Stellar.{Stellar, Server, SimReply, sim_error, simulated}
use zksoroban.Verify.Registry.{simulate_call}

-- The fields of `get_config`'s return value; one that is null or undefined is `none`.
pub record RawConfig : Type 0 where
  pub admin : Text
  pub paused : Bool
  pub fee_amount : Option ℕ
  pub fee_token : Option Text
  pub rate_limit_max : ℕ
  pub rate_limit_window : ℕ
  pub timelock_delay : Option ℕ
  pub allowlist_enabled : Bool

pub record ContractConfig : Type 0 where
  pub admin : Text
  pub paused : Bool
  pub fee_amount : Option ℕ
  pub fee_token : Option Text
  pub rate_limit_max : ℕ
  pub rate_limit_window : ℕ
  pub timelock_delay : Option ℕ
  pub allowlist_enabled : Bool

unfoldable pub config_of : RawConfig → ContractConfig
config_of raw = record {
  admin = raw.admin;
  paused = raw.paused;
  fee_amount = raw.fee_amount;
  fee_token = raw.fee_token;
  rate_limit_max = raw.rate_limit_max;
  rate_limit_window = raw.rate_limit_window;
  timelock_delay = raw.timelock_delay;
  allowlist_enabled = raw.allowlist_enabled;
}

-- `to_native` is `scValToNative` at the type of `get_config`'s return value.
module _ (s : Stellar) (to_native : s.ScVal → Result RawConfig) where
  open s use {Tx}

  unfoldable pub get_contract_config_body : Server s → Text → Run Tx ContractConfig
  get_contract_config_body server contract_id = do
    lift server.connect
    passphrase ← await get_network server.network
    value ← simulate_call s server contract_id passphrase (text "get_config") []
    raw ← lift (to_native value)
    lift (ok (config_of raw))

  unfoldable pub get_contract_config : Server s → Text → Run Tx ContractConfig
  get_contract_config server contract_id =
      try_classify (get_contract_config_body server contract_id)

-- The catch of `getContractVersion`: any other exception becomes a network error.
abbrev pub as_network_error {ℓ} : {A : Type ℓ} → Result A → Result A
as_network_error (ok a) = ok a
as_network_error (err t) =
    err (if is_soroban_zk_error t then t else soroban_zk_error (message t) network_error)

abbrev pub expected_contract_version : Text
expected_contract_version = text "0.1.0"

unfoldable pub version_warning : Text → Text
version_warning version =
    text "zksoroban: deployed contract version \""
    ++ version
    ++ text "\" does not match the version this SDK build expects (\""
    ++ expected_contract_version
    ++ text
        "\"). Proof encoding or verification behavior may not match what this SDK was built against."

-- `to_native` is `scValToNative` at a string.
module _ (s : Stellar) (to_native : s.ScVal → Result Text) where
  open s use {ScVal, Tx, new_contract, new_account, build}

  unfoldable pub version_value : SimReply s → Result ScVal
  version_value (sim_error message) = err (
      soroban_zk_error (text "version() simulation failed: " ++ message) contract_invocation_failed)
  version_value (simulated none fee) = err (
      soroban_zk_error (text "version() simulation did not return a value")
        contract_invocation_failed)
  version_value (simulated (some value) fee) = ok value

  -- `if (version !== EXPECTED_CONTRACT_VERSION) console.warn(…);`
  unfoldable pub warn_of_version : Text → Run Tx (Unit {0})
  warn_of_version version =
      if text_eq version expected_contract_version
      then lift (ok tt)
      else await (warn (version_warning version)) (ok tt)

  unfoldable pub get_contract_version_body : Server s → Text → Run Tx Text
  get_contract_version_body server contract_id = do
    lift server.connect
    passphrase ← await get_network server.network
    account ← lift (new_account server.ephemeral)
    contract ← lift (new_contract contract_id)
    transaction ← lift (build account passphrase contract (text "version") [])
    reply ← await (simulate_transaction transaction) (server.simulate transaction)
    value ← lift (version_value reply)
    version ← lift (to_native value)
    warn_of_version version
    lift (ok version)

  unfoldable pub get_contract_version : Server s → Text → Run Tx Text
  get_contract_version server contract_id =
      let body = get_contract_version_body server contract_id in
      record { calls = body.calls; result = as_network_error body.result }
