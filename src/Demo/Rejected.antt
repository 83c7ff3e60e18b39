-- ===== src/Demo/Rejected.antt =====
-- The third scenario of demo/src/run.ts.
use zksoroban.Prelude.{◌≡◌, refl, ◌⊎◌, inl, inr, List, [], ◌∷◌, ◌++◌, Bool-cases}
use zksoroban.Js.Text.{Text, text}
use zksoroban.Js.Value.{JsValue, array, string, cons, nil}
use zksoroban.Types.{Thrown, message}
use zksoroban.Types.Result.{Result, ok}
use zksoroban.Cli.{newline}
use zksoroban.Verify.Run.{Call, Run, print, lift}
use zksoroban.Verify.Stellar.{Stellar}
use zksoroban.Demo.{log_line}
use zksoroban.Demo.Main.{rank, reaches, out_of_field_public_input, code_of, log_at}

abbrev out_of_field : JsValue
out_of_field = array (cons (string out_of_field_public_input) nil)

abbrev heading : Text
heading = newline ++ text "=== Scenario 3: failure — malformed public input ==="

abbrev explanation : Text
explanation =
    text "a public input at or beyond the BN254 field modulus is rejected before any network call"

module _ (s : Stellar) where
  open s use {Tx}

  pub log_at-cases :
      (verbosity line level : Text)
      → (log_at s verbosity line level ≡ log_line line)
        ⊎ (log_at s verbosity line level ≡ lift (ok tt))
  unfolding log_at
  log_at-cases verbosity line level = elim (Bool-cases (reaches (rank verbosity) (rank level))) [
    | inl shown ↦ inl (rw shown refl)
    | inr hidden ↦ inr (rw hidden refl)
  ]

  -- The lines on an error.
  abbrev pub rejection_prints : Thrown → List (Call Tx)
  rejection_prints t =
      print (text "✗ formatProof threw ZkInputError, as expected:")
      ∷ print (text "  code: " ++ code_of t)
      ∷ print (text "  message: " ++ message t)
      ∷ []
