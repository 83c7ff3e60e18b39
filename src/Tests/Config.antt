-- ===== src/Tests/Config.antt =====
-- getContractVersion of sdk/src/version.ts at the small server.
use zksoroban.Prelude.{List, [], ◌∷◌, ◌≡◌, refl}
use zksoroban.Types.Result.{ok}
use zksoroban.Verify.Run.{Call, get_network, simulate_transaction}
use zksoroban.Verify.Config.{
  get_contract_version, get_contract_version_body, version_value, warn_of_version,
}
use zksoroban.Verify.Config.Warning.{WarnsFor, get_contract_version-warns}
use zksoroban.Js.Text.{Text, text, text_eq}
use zksoroban.Tests.Server.{version_text, stellar, server}

version_returns : (get_contract_version stellar version_text server []).result ≡ ok []
unfolding get_contract_version get_contract_version_body version_value warn_of_version text_eq text
version_returns = refl

get_contract_version-warns_example :
    (tx : Text) × (warnings : List (Call Text)) × ((get_contract_version stellar version_text server
        []).calls
      ≡ get_network ∷ simulate_transaction tx ∷ warnings)
    × WarnsFor stellar version_text server [] warnings
get_contract_version-warns_example =
    get_contract_version-warns stellar version_text server [] [] version_returns
