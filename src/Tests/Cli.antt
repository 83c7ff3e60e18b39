-- ===== src/Tests/Cli.antt =====
-- The command line on files in memory.
use zksoroban.Prelude.{
  ℕ, ◌<◌, ◌≡◌, ◌≢◌, ◌↔◌, ◌++◌, refl, List, [], ◌∷◌, arith, some, true, All, if◌then◌else◌,
}
use zksoroban.Prelude.Int.{pos}
use zksoroban.Js.Text.{Text, text, text_eq, join}
use zksoroban.Js.Numeral.{is_decimal, is_decimal_or_hex, is_hex, big_int, spelled}
use zksoroban.Types.Result.{ok}
use zksoroban.Js.Value.{property, field_of, element, length_lt, cons, nil}
use zksoroban.Validate.{bn254_field_modulus}
use zksoroban.Validate.Shape.{numeral}
use zksoroban.Proof.VerifyingKey.Shape.{IsKey, row, rows, IsRows, done, more, key_layout}
use zksoroban.Poseidon.{bn254_scalar_modulus, poseidon}
use zksoroban.Poseidon.Hash.{bigints}
use zksoroban.Cli.{Files, get_flag, index_of, newline, registry_contract_id, or_default, run_cli}
use zksoroban.Cli.Flags.{get_flag_iff}
use zksoroban.Cli.Reports.{HasProof, fee_report, layout_report, run_cli-reports}
use zksoroban.Cli.Commands.{prove_report, run_cli-prove}
use zksoroban.Cli.Printed.{IsKeyJson}
use zksoroban.Cli.Key.{HasKey, key_report, run_cli-format_vk}
use zksoroban.Tests.Sample.{
  sample, sample_numbers, sample_signals, sample-IsProof, sample-IsSignalArray,
}
use zksoroban.Tests.Keys.{key_row, square, key, corner, numbers}
use zksoroban.Tests.Poseidon.{constants, constants-IsShaped}

pub key-IsKey : IsKey key numbers
unfolding text text_eq is_decimal_or_hex is_decimal is_hex big_int spelled bn254_field_modulus
    property field_of element length_lt
key-IsKey =
    let square_rows : IsRows square corner =
      rows _ _ refl refl
        (row _ _ refl refl (numeral refl refl (omega arith)) (numeral refl refl (omega arith)))
        (row _ _ refl refl (numeral refl refl (omega arith)) (numeral refl refl (omega arith))) in
    record {
      protocol = refl;
      alpha = record {
        value = key_row "1" "2";
        present = refl;
        long = refl;
        shaped =
            row _ _ refl refl (numeral refl refl (omega arith)) (numeral refl refl (omega arith));
      };
      beta = record { value = square; present = refl; long = refl; shaped = square_rows };
      gamma = record { value = square; present = refl; long = refl; shaped = square_rows };
      delta = record { value = square; present = refl; long = refl; shaped = square_rows };
      first = key_row "7" "8";
      others = cons (key_row "9" "10") nil;
      has_ic = refl;
      ic =
          more
            (row _ _ refl refl (numeral refl refl (omega arith)) (numeral refl refl (omega arith)))
            (more
              (row _ _ refl refl (numeral refl refl (omega arith))
                (numeral refl refl (omega arith)))
              done);
    }

-- The path p holds the proof, any other the public signals.
abbrev pub files : Files
files = record {
  read_json = λ path. ok (
      if text_eq path (text "p")
      then sample
      else if text_eq path (text "k")
      then key
      else sample_signals);
}

abbrev proof_args : List Text
proof_args = text "--proof" ∷ text "p" ∷ text "--public" ∷ text "s" ∷ []

proof_args-HasProof : HasProof files proof_args sample_numbers (42 ∷ 255 ∷ [])
unfolding get_flag index_of text text_eq
proof_args-HasProof = record {
  proof_path = text "p";
  public_path = text "s";
  proof = sample;
  public_signals = sample_signals;
  proof_flag = refl;
  public_flag = refl;
  proof_file = refl;
  public_file = refl;
  is_proof = sample-IsProof;
  is_signals = sample-IsSignalArray;
}

run_cli-reports_example :
    (run_cli (ok constants) files (text "verify" ∷ proof_args)
      ≡ ok (join newline (layout_report 2)))
    × (run_cli (ok constants) files (text "estimate-fee" ∷ proof_args)
        ≡ ok (join newline (fee_report 2)))
run_cli-reports_example =
    run_cli-reports (ok constants) files proof_args sample_numbers (42 ∷ 255 ∷ [])
      proof_args-HasProof

abbrev secret_args : List Text
secret_args = text "--secret" ∷ text "42" ∷ []

secret_flag : get_flag secret_args (text "--secret") ≡ some (text "42")
unfolding get_flag index_of text text_eq
secret_flag = refl

secret-is_decimal : is_decimal (text "42") ≡ true
unfolding is_decimal text
secret-is_decimal = refl

run_cli-prove_example :
    (commitment : ℕ) × (commitment < bn254_scalar_modulus)
    × (poseidon (ok constants) (bigints (pos (spelled 10 0 (text "42")) ∷ []))
        ≡ ok (pos commitment))
    × (run_cli (ok constants) files (text "prove" ∷ secret_args)
        ≡ ok (join newline (prove_report (spelled 10 0 (text "42")) commitment)))
run_cli-prove_example =
    run_cli-prove constants files secret_args (text "42") constants-IsShaped secret_flag
      secret-is_decimal

abbrev key_args : List Text
key_args = text "--vk" ∷ text "k" ∷ text "--id" ∷ text "2" ∷ []

key_args-HasKey : HasKey files key_args (text "2") numbers
unfolding get_flag index_of text text_eq
key_args-HasKey = record {
  path = text "k";
  key = key;
  id_flag = refl;
  vk_flag = refl;
  key_file = refl;
  is_key = key-IsKey;
}

run_cli-format_vk_example :
    (json : Text) × IsKeyJson (key_layout numbers) json
    × (run_cli (ok constants) files (text "format-vk" ∷ key_args)
        ≡ ok (
            join newline (
              key_report
                (text "2")
                (or_default (get_flag key_args (text "--registry-id")) registry_contract_id)
                json
                2)))
run_cli-format_vk_example =
    run_cli-format_vk (ok constants) files key_args (text "2") numbers key_args-HasKey

get_flag_iff_example : (get_flag secret_args (text "--secret") ≡ some (text "42")) ↔ (
    (before after : List Text) × (secret_args ≡ before ++ text "--secret" ∷ text "42" ∷ after)
    × All (λ arg. arg ≢ text "--secret") before)
get_flag_iff_example = get_flag_iff secret_args (text "--secret") (text "42")
