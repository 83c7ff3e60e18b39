-- ===== src/Tests/Golden.antt =====
-- The golden tests on files in memory.
use zksoroban.Prelude.{◌≡◌, ◌↔◌, refl, List, [], ◌∷◌, Option, some, none, All, if◌then◌else◌}
use zksoroban.Js.Text.{Text, text, text_eq, join}
use zksoroban.Js.Numeral.{is_decimal}
use zksoroban.Js.Value.{JsValue, object, field, end, undefined, property, field_of}
use zksoroban.Types.Result.{ok}
use zksoroban.Proof.Format.{format_proof_complete}
use zksoroban.Proof.Layout.{absent}
use zksoroban.Cli.{
  Files, newline, run_cli, get_flag, index_of, require_flag, command_inspect, format_signals,
}
use zksoroban.Cli.Reports.{HasProof, run_cli-reports}
use zksoroban.Cli.Commands.{run_cli-prove}
use zksoroban.Cli.Key.{HasKey, run_cli-format_vk}
use zksoroban.Golden.{golden_main, golden_cases, exits}
use zksoroban.Golden.Lines.{diff}
use zksoroban.Golden.Diff.{SameLines, diff-join}
use zksoroban.Golden.Checks.{IsGolden, golden_main_iff}
use zksoroban.Golden.Update.{Returning, golden_main-update}
use zksoroban.Tests.Sample.{
  sample, sample_numbers, sample_signals, sample-IsProof, sample-IsSignalArray,
}
use zksoroban.Tests.Keys.{key, numbers}
use zksoroban.Tests.Poseidon.{constants, constants-IsShaped}
use zksoroban.Tests.Cli.{key-IsKey}

abbrev no_files : Text → Option Text
no_files path = none

abbrev bundle : JsValue
bundle = object (field (text "proof") sample (field (text "publicSignals") sample_signals end))

abbrev files : Files
files = record {
  read_json = λ path. ok (
      if text_eq path (text "in/proof.json")
      then sample
      else if text_eq path (text "in/bundle.json")
      then bundle
      else if text_eq path (text "in/verification_key.json")
      then key
      else sample_signals);
}

golden_main_iff_example :
    ((golden_main (ok constants) files (text "in") (text "golden") [] no_files).1 ≡ exits 0)
    ↔ All
        (IsGolden (run_cli (ok constants) files) (text "golden") no_files)
        (golden_cases (text "in"))
golden_main_iff_example =
    golden_main_iff (ok constants) files (text "in") (text "golden") [] no_files refl

abbrev proof_args : List Text
proof_args = text "--proof" ∷ text "in/proof.json" ∷ text "--public" ∷ text "in/public.json" ∷ []

has_proof : HasProof files proof_args sample_numbers (42 ∷ 255 ∷ [])
unfolding get_flag index_of text text_eq
has_proof = record {
  proof_path = text "in/proof.json";
  public_path = text "in/public.json";
  proof = sample;
  public_signals = sample_signals;
  proof_flag = refl;
  public_flag = refl;
  proof_file = refl;
  public_file = refl;
  is_proof = sample-IsProof;
  is_signals = sample-IsSignalArray;
}

abbrev key_args : List Text
key_args = text "--vk" ∷ text "in/verification_key.json" ∷ text "--id" ∷ text "2" ∷ []

has_key : HasKey files key_args (text "2") numbers
unfolding get_flag index_of text text_eq
has_key = record {
  path = text "in/verification_key.json";
  key = key;
  id_flag = refl;
  vk_flag = refl;
  key_file = refl;
  is_key = key-IsKey;
}

abbrev bundle_args : List Text
bundle_args = text "--bundle" ∷ text "in/bundle.json" ∷ []

inspected :
    (output : Text) × (run_cli (ok constants) files (text "inspect" ∷ bundle_args) ≡ ok output)
unfolding run_cli command_inspect require_flag get_flag index_of text text_eq property field_of
    format_signals
inspected =
    rw
      (format_proof_complete sample sample_signals undefined sample_numbers (42 ∷ 255 ∷ []) []
        sample-IsProof sample-IsSignalArray absent)
      (_, refl)

abbrev secret_args : List Text
secret_args = text "--secret" ∷ text "42" ∷ []

secret_flag : get_flag secret_args (text "--secret") ≡ some (text "42")
unfolding get_flag index_of text text_eq
secret_flag = refl

returning : Returning (ok constants) files (text "in")
unfolding text is_decimal
returning =
    let (m, small, hashed, proved) =
      run_cli-prove constants files secret_args (text "42") constants-IsShaped secret_flag refl in
    let (verified, estimated) =
      run_cli-reports (ok constants) files proof_args sample_numbers (42 ∷ 255 ∷ []) has_proof in
    let (json, is_json, encoded) =
      run_cli-format_vk (ok constants) files key_args (text "2") numbers has_key in
    ((_, proved), ((_, verified), (inspected, ((_, estimated), ((_, encoded), tt)))))

golden_main-update_example :
    ((golden_main
        (ok constants)
        files
        (text "in")
        (text "golden")
        (text "--update" ∷ [])
        no_files).1
      ≡ exits 0)
    × ((golden_main
          (ok constants)
          files
          (text "in")
          (text "golden")
          []
          (golden_main
            (ok constants)
            files
            (text "in")
            (text "golden")
            (text "--update" ∷ [])
            no_files).0.files).1
        ≡ exits 0)
golden_main-update_example =
    golden_main-update (ok constants) files (text "in") (text "golden") no_files returning

diff-join_example :
    (diff (join newline ((1 ∷ []) ∷ [])) (join newline ((1 ∷ []) ∷ [] ∷ [])) ≡ [])
    ↔ SameLines ((1 ∷ []) ∷ []) ((1 ∷ []) ∷ [] ∷ [])
diff-join_example = diff-join (1 ∷ []) (1 ∷ []) [] ([] ∷ []) ((refl, tt), tt) ((refl, tt), (tt, tt))
