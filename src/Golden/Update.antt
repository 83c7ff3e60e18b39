-- ===== src/Golden/Update.antt =====
-- What --update of sdk/scripts/golden.ts writes is what a run without it checks.
use zksoroban.Prelude.{
  ℕ, ◌≡◌, ◌≢◌, refl, ap, sym, ◌∙◌, List, [], ◌∷◌, ◌++◌, Option, some, none, true, false, All, arith,
  length, ltb,
}
use mathlib.Core.Path.{subst}
use zksoroban.Js.Text.{Text, text, text_eq, text_eq_refl, text_eq-of_neq}
use zksoroban.Types.{Thrown}
use zksoroban.Types.Result.{Result, ok, err}
use zksoroban.Poseidon.{PoseidonConstants}
use zksoroban.Cli.{Files, run_cli, newline}
use zksoroban.Golden.{
  GoldenCase, GoldenState, exits, golden_cases, golden_path, golden_case, golden_loop, golden_end,
  golden_main, initial,
}
use zksoroban.Golden.Checks.{IsGolden, golden_main_iff}

module _ (run : List Text → Result Text) (dir : Text) where
  abbrev path_of : GoldenCase → Text
  path_of c = golden_path dir c.name

  -- The cases have files of their own.
  abbrev HasOwnFiles : List GoldenCase → Type 0
  HasOwnFiles [] = Unit {0}
  HasOwnFiles (c ∷ cases) = All (λ d. path_of c ≢ path_of d) cases × HasOwnFiles cases

  record IsUpdated (cases : List GoldenCase) (s : GoldenState) (r : GoldenState × Option Thrown)
      : Type 0 where
    complete : All (λ c. (output : Text) × (run c.argv ≡ ok output)) cases → r.1 ≡ none
    golden : r.1 ≡ none → All (IsGolden run dir r.0.files) cases
    others : (path : Text) → All (λ d. path ≢ path_of d) cases → r.0.files path ≡ s.files path
    failures : r.0.failures ≡ s.failures

  written :
      (c : GoldenCase) (output : Text) (s : GoldenState)
      → (golden_case dir true c.name output s).files (path_of c) ≡ some output
  unfolding golden_case
  written c output s = rw (text_eq_refl (golden_path dir c.name)) refl

  kept :
      (c : GoldenCase) (output path : Text) (s : GoldenState)
      → path ≢ path_of c
      → (golden_case dir true c.name output s).files path ≡ s.files path
  unfolding golden_case
  kept c output path s h = rw (text_eq-of_neq path (path_of c) h) refl

  counted :
      (c : GoldenCase) (output : Text) (s : GoldenState)
      → (golden_case dir true c.name output s).failures ≡ s.failures
  unfolding golden_case
  counted c output s = refl

  golden_loop-IsUpdated :
      (cases : List GoldenCase) (s : GoldenState)
      → HasOwnFiles cases
      → IsUpdated cases s (golden_loop run dir true cases s)
  unfolding golden_loop
  golden_loop-IsUpdated [] s own = record {
    complete = λ h. refl;
    golden = λ e. tt;
    others = λ path h. refl;
    failures = refl;
  }
  golden_loop-IsUpdated (c ∷ cases) s (own, rest) =
      go (run c.argv) refl (λ next. golden_loop-IsUpdated cases next rest)
    where
      go :
          (r : Result Text)
          → run c.argv ≡ r
          → ((next : GoldenState) → IsUpdated cases next (golden_loop run dir true cases next))
          → IsUpdated (c ∷ cases) s (golden_loop run dir true (c ∷ cases) s)
      go (err t) e more =
          rw (golden_loop, e)
            record {
              complete = λ h. absurd (let returned = h.0.1 in cc);
              golden = λ e. absurd (cc);
              others = λ path h. refl;
              failures = refl;
            }
      go (ok output) e more =
          let next = golden_case dir true c.name (output ++ newline) s in
          let after = more next in
          rw (golden_loop, e)
            record {
              complete = λ h. after.complete h.1;
              golden = λ g. (
                record {
                  output = output;
                  returned = e;
                  held = after.others (path_of c) own ∙ written c (output ++ newline) s;
                },
                after.golden g,
              );
              others = λ path h. after.others path h.1 ∙ kept c (output ++ newline) path s h.0;
              failures = after.failures ∙ counted c (output ++ newline) s;
            }

append_cancel : (dir s t : Text) → dir ++ s ≡ dir ++ t → s ≡ t
append_cancel [] s t e = e
append_cancel (c ∷ dir) s t e = append_cancel dir s t (cc)

paths_differ :
    (dir a b : Text)
    → text_eq (text "/" ++ a ++ text ".txt") (text "/" ++ b ++ text ".txt") ≡ false
    → golden_path dir a ≢ golden_path dir b
unfolding golden_path
paths_differ dir a b h e =
    let same = append_cancel dir (text "/" ++ a ++ text ".txt") (text "/" ++ b ++ text ".txt") e in
    let equal : text_eq (text "/" ++ a ++ text ".txt") (text "/" ++ b ++ text ".txt") ≡ true =
      rw same (text_eq_refl (text "/" ++ b ++ text ".txt")) in
    absurd (cc)

golden_cases-HasOwnFiles :
    (run : List Text → Result Text) (dir inputs : Text) → HasOwnFiles run dir (golden_cases inputs)
unfolding text text_eq
golden_cases-HasOwnFiles run dir inputs =
    let differ = paths_differ dir in
    (
      (differ _ _ refl, (differ _ _ refl, (differ _ _ refl, (differ _ _ refl, tt)))),
      (
        (differ _ _ refl, (differ _ _ refl, (differ _ _ refl, tt))),
        ((differ _ _ refl, (differ _ _ refl, tt)), ((differ _ _ refl, tt), (tt, tt))),
      ),
    )

golden_end-updated :
    (total : ℕ) (r : GoldenState × Option Thrown)
    → r.1 ≡ none
    → r.0.failures ≡ 0
    → golden_end true total r ≡ (r.0, exits 0)
unfolding golden_end
golden_end-updated total (s, some t) h f = absurd (cc)
golden_end-updated total (s, none) h f =
    let passed : ltb 0 s.failures ≡ false = ground arith in rw passed refl

-- The command line returns on every case.
abbrev pub Returning : Result PoseidonConstants → Files → Text → Type 0
Returning constants input_files inputs =
    All (λ c. (output : Text) × (run_cli constants input_files c.argv ≡ ok output))
      (golden_cases inputs)

updated-IsGolden :
    (constants : Result PoseidonConstants) (input_files : Files) (inputs dir : Text)
    (files : Text → Option Text)
    → Returning constants input_files inputs
    → ((golden_main constants input_files inputs dir (text "--update" ∷ []) files).1 ≡ exits 0)
      × All
          (IsGolden
            (run_cli constants input_files)
            dir
            (golden_main constants input_files inputs dir (text "--update" ∷ []) files).0.files)
          (golden_cases inputs)
unfolding golden_main text text_eq
updated-IsGolden constants input_files inputs dir files h =
    let run = run_cli constants input_files in
    let updated =
      golden_loop-IsUpdated run dir (golden_cases inputs) (initial files)
        (golden_cases-HasOwnFiles run dir inputs) in
    let returned = updated.complete h in
    let ended = golden_end-updated (length (golden_cases inputs)) _ returned updated.failures in
    (
      ap (λ r. r.1) ended,
      subst (λ fs. All (IsGolden run dir fs) (golden_cases inputs))
          (ap (λ r. r.0.files) (sym ended)) (updated.golden returned),
    )

-- Where the command line returns on every case, a run with --update exits with 0, and leaves golden
-- files with which a run without it exits with 0.
pub golden_main-update :
    (constants : Result PoseidonConstants) (input_files : Files) (inputs dir : Text)
    (files : Text → Option Text)
    → Returning constants input_files inputs
    → ((golden_main constants input_files inputs dir (text "--update" ∷ []) files).1 ≡ exits 0)
      × ((golden_main constants input_files inputs dir []
            (golden_main constants input_files inputs dir (text "--update" ∷ []) files).0.files).1
          ≡ exits 0)
golden_main-update constants input_files inputs dir files h =
    let (ended, golden) = updated-IsGolden constants input_files inputs dir files h in
    (
      ended,
      (golden_main_iff constants input_files inputs dir [] _ (unfold text text_eq in refl)).1
          golden,
    )
