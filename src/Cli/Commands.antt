-- ===== src/Cli/Commands.antt =====
-- The commands prove and format-vk of sdk/src/cli.ts, and what a missing flag does.
use zksoroban.Prelude.{ℕ, ◌≡◌, refl, List, [], ◌∷◌, ◌++◌, some, none, true, arith, ◌<◌}
use zksoroban.Prelude.Int.{pos}
use zksoroban.Js.Text.{Text, text, join, text_eq}
use zksoroban.Js.Numeral.{to_string, is_decimal, spelled}
use zksoroban.Js.BigInt.Laws.{to_bigint-decimal}
use zksoroban.Js.Value.{integer_text}
use zksoroban.Types.Result.{Result, ok, err}
use zksoroban.Poseidon.{PoseidonConstants, bn254_scalar_modulus, poseidon}
use zksoroban.Poseidon.Hash.{IsShaped, bigints, poseidon-IsReduced}
use zksoroban.Cli.Reports.{require_flag-some}
use zksoroban.Cli.{
  Files, get_flag, require_flag, missing_flag, newline, command_prove, command_verify,
  command_inspect, command_estimate_fee, command_format_vk, read_calldata, run_cli,
}

require_flag-none :
    (args : List Text) (name : Text)
    → get_flag args name ≡ none
    → require_flag args name ≡ err (missing_flag name)
unfolding require_flag
require_flag-none args name e = rw (require_flag, e) refl

-- The flag that a command reads first.
pub data FirstFlag : Text → Text → Type 0 where
  prove : FirstFlag (text "prove") (text "--secret")
  verify : FirstFlag (text "verify") (text "--proof")
  inspect : FirstFlag (text "inspect") (text "--bundle")
  estimate_fee : FirstFlag (text "estimate-fee") (text "--proof")
  format_vk : FirstFlag (text "format-vk") (text "--id")

-- Without its first flag a command throws an error that names the flag, whatever the files hold.
pub run_cli-missing_flag :
    (constants : Result PoseidonConstants) (files : Files) (command flag : Text) (args : List Text)
    → FirstFlag command flag
    → get_flag args flag ≡ none
    → run_cli constants files (command ∷ args) ≡ err (missing_flag flag)
unfolding run_cli text text_eq command_prove command_verify read_calldata command_inspect
    command_estimate_fee command_format_vk
run_cli-missing_flag constants files _ _ args prove h = rw (require_flag-none args _ h) refl
run_cli-missing_flag constants files _ _ args verify h = rw (require_flag-none args _ h) refl
run_cli-missing_flag constants files _ _ args inspect h = rw (require_flag-none args _ h) refl
run_cli-missing_flag constants files _ _ args estimate_fee h = rw (require_flag-none args _ h) refl
run_cli-missing_flag constants files _ _ args format_vk h = rw (require_flag-none args _ h) refl

-- What prove prints for a secret and its commitment.
abbrev pub prove_report : ℕ → ℕ → List Text
prove_report secret commitment =
    text "command: prove"
    ∷ text "circuit: poseidon_preimage"
    ∷ (text "secret: " ++ to_string 10 secret)
    ∷ (text "commitment: " ++ to_string 10 commitment)
    ∷ text "circuit input:"
    ∷ (text "  secret: " ++ to_string 10 secret)
    ∷ (text "  commitment: " ++ to_string 10 commitment)
    ∷ []

-- With constants for two elements, prove with a secret in decimal digits prints the number that
-- they spell and its Poseidon hash, which is below the order of the field.
pub run_cli-prove :
    (k : PoseidonConstants) (files : Files) (args : List Text) (secret : Text)
    → IsShaped k 2
    → get_flag args (text "--secret") ≡ some secret
    → is_decimal secret ≡ true
    → (commitment : ℕ) × (commitment < bn254_scalar_modulus)
      × (poseidon (ok k) (bigints (pos (spelled 10 0 secret) ∷ [])) ≡ ok (pos commitment))
      × (run_cli (ok k) files (text "prove" ∷ args)
          ≡ ok (join newline (prove_report (spelled 10 0 secret) commitment)))
unfolding run_cli text text_eq command_prove integer_text
run_cli-prove k files args secret shaped flag digits =
    let (m, small, same) =
      poseidon-IsReduced k (pos (spelled 10 0 secret) ∷ []) shaped (omega arith) (omega arith) in
    (
      m,
      small,
      same,
      rw (require_flag-some args _ _ flag, to_bigint-decimal secret digits, same) refl,
    )
