-- ===== src/Golden.antt =====
-- sdk/scripts/golden.ts: the golden tests of the command line.
pub mod Lines
pub mod Diff
pub mod Checks
pub mod Update
use zksoroban.Prelude.{
  ℕ, suc, ◌+◌, Bool, true, false, ◌&&◌, ◌||◌, List, [], ◌∷◌, ◌++◌, Option, none, some, length, ltb,
  leb, ◌==◌, if◌then◌else◌,
}
use zksoroban.Js.Text.{Text, text, text_eq, join, pad_start}
use zksoroban.Js.Numeral.{to_string}
use zksoroban.Types.{Thrown}
use zksoroban.Types.Result.{Result, ok, err}
use zksoroban.Poseidon.{PoseidonConstants}
use zksoroban.Golden.Lines.{diff}
use zksoroban.Cli.{Files, run_cli, newline, quoted}

pub record GoldenCase : Type 0 where
  pub name : Text
  pub argv : List Text

-- `CASES`, with the path `INPUTS`.
abbrev pub golden_cases : Text → List GoldenCase
golden_cases inputs =
    record { name = text "prove"; argv = text "prove" ∷ text "--secret" ∷ text "42" ∷ [] }
    ∷ record {
      name = text "verify";
      argv =
          text "verify"
          ∷ text "--proof"
          ∷ (inputs ++ text "/proof.json")
          ∷ text "--public"
          ∷ (inputs ++ text "/public.json")
          ∷ [];
    }
    ∷ record {
      name = text "inspect";
      argv = text "inspect" ∷ text "--bundle" ∷ (inputs ++ text "/bundle.json") ∷ [];
    }
    ∷ record {
      name = text "estimate-fee";
      argv =
          text "estimate-fee"
          ∷ text "--proof"
          ∷ (inputs ++ text "/proof.json")
          ∷ text "--public"
          ∷ (inputs ++ text "/public.json")
          ∷ [];
    }
    ∷ record {
      name = text "format-vk";
      argv =
          text "format-vk"
          ∷ text "--vk"
          ∷ (inputs ++ text "/verification_key.json")
          ∷ text "--id"
          ∷ text "2"
          ∷ [];
    }
    ∷ []

-- `path.join(GOLDEN_DIR, `${name}.txt`)`, for a directory in normal form.
unfoldable pub golden_path : Text → Text → Text
golden_path dir name = dir ++ (text "/" ++ name ++ text ".txt")

-- The golden files, what was written to the two outputs, and the count of failures.
pub record GoldenState : Type 0 where
  pub files : Text → Option Text
  pub stdout : Text
  pub stderr : Text
  pub failures : ℕ

abbrev pub write_file : (Text → Option Text) → Text → Text → Text → Option Text
write_file files path content other = if text_eq other path then some content else files other

abbrev pub print : Text → GoldenState → GoldenState
print line s = record {
  files = s.files;
  stdout = s.stdout ++ line;
  stderr = s.stderr;
  failures = s.failures;
}

abbrev pub fail : Text → GoldenState → GoldenState
fail line s = record {
  files = s.files;
  stdout = s.stdout;
  stderr = s.stderr ++ line;
  failures = suc s.failures;
}

abbrev pub write : Text → Text → GoldenState → GoldenState
write path content s = record {
  files = write_file s.files path content;
  stdout = s.stdout;
  stderr = s.stderr;
  failures = s.failures;
}

-- The body of the loop behind `actual`.
unfoldable pub golden_case : Text → Bool → Text → Text → GoldenState → GoldenState
golden_case dir true name actual s =
    print (text "updated " ++ name ++ text ".txt" ++ newline)
      (write (golden_path dir name) actual s)
golden_case dir false name actual s = elim (s.files (golden_path dir name)) [
  | none ↦ fail (text "MISSING golden file for " ++ name ++ text ": run with --update" ++ newline) s
  | some expected ↦
      if text_eq expected actual
      then print (text "ok " ++ name ++ newline) s
      else fail (text "MISMATCH " ++ name ++ newline ++ diff expected actual ++ newline) s
]

-- The loop over `CASES`; an exception of `runCli` ends the script.
unfoldable pub golden_loop :
    (List Text → Result Text)
    → Text
    → Bool
    → List GoldenCase
    → GoldenState
    → GoldenState × Option Thrown
golden_loop run dir update [] s = (s, none)
golden_loop run dir update (c ∷ cases) s = elim (run c.argv) [
  | err thrown ↦ (s, some thrown)
  | ok output ↦
      golden_loop run dir update cases (golden_case dir update c.name (output ++ newline) s)
]

-- How the script ends: by an exception, or with an exit code.
pub data GoldenEnd : Type 0 where
  uncaught : Thrown → GoldenEnd
  exits : ℕ → GoldenEnd

-- The lines behind the loop.
unfoldable pub golden_end : Bool → ℕ → GoldenState × Option Thrown → GoldenState × GoldenEnd
golden_end update total (s, some thrown) = (s, uncaught thrown)
golden_end update total (s, none) =
    if ltb 0 s.failures
    then (
      record {
        files = s.files;
        stdout = s.stdout;
        stderr =
            s.stderr
            ++ newline
            ++ to_string 10 s.failures
            ++ text " golden test(s) failed. Run \"npm run test:golden -- --update\" to refresh."
            ++ newline;
        failures = s.failures;
      },
      exits 1,
    )
    else if update
    then (s, exits 0)
    else (
      print (newline ++ text "all " ++ to_string 10 total ++ text " golden tests passed" ++ newline)
          s,
      exits 0,
    )

abbrev pub has_text : List Text → Text → Bool
has_text [] s = false
has_text (t ∷ ts) s = text_eq t s || has_text ts s

abbrev pub initial : (Text → Option Text) → GoldenState
initial files = record { files = files; stdout = []; stderr = []; failures = 0 }

-- `main`, with the directories `INPUTS` and `GOLDEN_DIR` and the golden files.
unfoldable pub golden_main :
    Result PoseidonConstants
    → Files
    → (inputs dir : Text) → List Text
    → (Text → Option Text)
    → GoldenState × GoldenEnd
golden_main constants input_files inputs dir argv files =
    let update = has_text argv (text "--update") in
    let cases = golden_cases inputs in
    golden_end update (length cases)
      (golden_loop (run_cli constants input_files) dir update cases (initial files))
