-- ===== src/Golden/Checks.antt =====
-- The outcome of sdk/scripts/golden.ts.
use zksoroban.Prelude.{
  ℕ, suc, ◌≤◌, ◌≡◌, ◌≢◌, ◌↔◌, inl, inr, refl, ap, sym, ◌∙◌, List, [], ◌∷◌, ◌++◌, Option, some, none,
  true, false, Bool-cases, Option-cases, All, arith, length, ltb,
}
use mathlib.Core.Path.{subst}
use zksoroban.Js.Text.{Text, text, text_eq, text_eq_refl, text_eq_sound}
use zksoroban.Types.{Thrown}
use zksoroban.Types.Result.{Result, ok, err, ok-injective}
use zksoroban.Poseidon.{PoseidonConstants}
use zksoroban.Cli.{Files, run_cli, newline}
use zksoroban.Golden.{
  GoldenCase, GoldenState, exits, golden_cases, golden_path, golden_case, golden_loop, golden_end,
  golden_main, initial, has_text,
}

-- The command line returns, and the golden file has its output and a newline.
pub record IsGolden (run : List Text → Result Text) (dir : Text) (files : Text → Option Text)
    (c : GoldenCase) : Type 0 where
  pub output : Text
  pub returned : run c.argv ≡ ok output
  pub held : files (golden_path dir c.name) ≡ some (output ++ newline)

-- A comparison changes no file, and counts a failure unless the file has the output.
data Compared (path actual : Text) (s s' : GoldenState) : Type 0 where
  agrees :
      s.files path ≡ some actual
      → s'.files ≡ s.files
      → s'.failures ≡ s.failures
      → Compared path actual s s'
  differs :
      s.files path ≢ some actual
      → s'.files ≡ s.files
      → s'.failures ≡ suc s.failures
      → Compared path actual s s'

golden_case-Compared :
    (dir name actual : Text) (s : GoldenState)
    → Compared (golden_path dir name) actual s (golden_case dir false name actual s)
unfolding golden_case
golden_case-Compared dir name actual s = elim (Option-cases (s.files (golden_path dir name))) [
  | inl missing ↦ rw (golden_case, missing) (differs (λ h. cc) refl refl)
  | inr (expected, found) ↦ elim (Bool-cases (text_eq expected actual)) [
    | inl same ↦
        rw (golden_case, found, same)
          (agrees (found ∙ ap some (text_eq_sound expected actual same)) refl refl)
    | inr other ↦
        rw (golden_case, found, other) (differs (λ h. not_same expected found h other) refl refl)
  ]
]
  where
    not_same :
        (expected : Text)
        → s.files (golden_path dir name) ≡ some expected
        → s.files (golden_path dir name) ≡ some actual
        → text_eq expected actual ≡ false
        → ⊥
    not_same expected found h other =
        let same : expected ≡ actual = cc in
        let e : text_eq expected actual ≡ true = rw same (text_eq_refl actual) in absurd (cc)

module _ (run : List Text → Result Text) (dir : Text) where
  -- The loop without --update, from its exceptions and failures.
  record IsChecked (cases : List GoldenCase) (s : GoldenState) (r : GoldenState × Option Thrown)
      : Type 0 where
    more_failures : s.failures ≤ r.0.failures
    sound : r.1 ≡ none → r.0.failures ≡ s.failures → All (IsGolden run dir s.files) cases
    complete : All (IsGolden run dir s.files) cases → (r.1 ≡ none) × (r.0.failures ≡ s.failures)

  IsChecked-step :
      (c : GoldenCase) (cases : List GoldenCase) (output : Text) (s next : GoldenState)
      (r : GoldenState × Option Thrown)
      → run c.argv ≡ ok output
      → Compared (golden_path dir c.name) (output ++ newline) s next
      → IsChecked cases next r
      → IsChecked (c ∷ cases) s r
  IsChecked-step c cases output s next r e (agrees held files count) rest = record {
    more_failures = omega (arith, count, rest.more_failures);
    sound = λ g f. (
      record { output = output; returned = e; held = held },
      subst (λ fs. All (IsGolden run dir fs) cases) files (rest.sound g (f ∙ sym count)),
    );
    complete = λ h.
        let (g, f) =
          rest.complete (subst (λ fs. All (IsGolden run dir fs) cases) (sym files) h.1) in
        (g, f ∙ count);
  }
  IsChecked-step c cases output s next r e (differs absent files count) rest = record {
    more_failures = omega (arith, count, rest.more_failures);
    sound = λ g f. absurd (omega (arith, count, rest.more_failures, f));
    complete = λ h.
        let same : output ≡ h.0.output = ok-injective (sym e ∙ h.0.returned) in
        absurd (absent (rw same h.0.held));
  }

  IsChecked-throw :
      (c : GoldenCase) (cases : List GoldenCase) (s : GoldenState) (t : Thrown)
      → run c.argv ≡ err t
      → IsChecked (c ∷ cases) s (s, some t)
  IsChecked-throw c cases s t e = record {
    more_failures = omega arith;
    sound = λ g f. absurd (cc);
    complete = λ h. let same = h.0.returned in absurd (cc);
  }

  golden_loop-IsChecked :
      (cases : List GoldenCase) (s : GoldenState)
      → IsChecked cases s (golden_loop run dir false cases s)
  unfolding golden_loop
  golden_loop-IsChecked [] s = record {
    more_failures = omega arith;
    sound = λ e f. tt;
    complete = λ h. (refl, refl);
  }
  golden_loop-IsChecked (c ∷ cases) s =
      go (run c.argv) refl (λ next. golden_loop-IsChecked cases next)
    where
      go :
          (r : Result Text)
          → run c.argv ≡ r
          → ((next : GoldenState) → IsChecked cases next (golden_loop run dir false cases next))
          → IsChecked (c ∷ cases) s (golden_loop run dir false (c ∷ cases) s)
      go (err t) e rest = rw (golden_loop, e) (IsChecked-throw c cases s t e)
      go (ok output) e rest =
          let next = golden_case dir false c.name (output ++ newline) s in
          rw (golden_loop, e)
            (IsChecked-step c cases output s next _ e
              (golden_case-Compared dir c.name (output ++ newline) s) (rest next))

golden_end-exits :
    (total : ℕ) (r : GoldenState × Option Thrown)
    → ((golden_end false total r).1 ≡ exits 0) ↔ ((r.1 ≡ none) × (r.0.failures ≡ 0))
unfolding golden_end
golden_end-exits total (s, some t) = (λ h. absurd (cc), λ h. absurd (cc))
golden_end-exits total (s, none) = elim (Bool-cases (ltb 0 s.failures)) [
  | inl failed ↦ (λ h. absurd (let e = rw failed at h in cc), λ h. absurd (ground arith))
  | inr passed ↦ (λ h. (refl, ground arith), λ h. rw passed refl)
]

-- Without --update the script exits with 0 exactly if for every case the command line returns and
-- the golden file holds its output and a newline.
pub golden_main_iff :
    (constants : Result PoseidonConstants) (input_files : Files) (inputs dir : Text)
    (argv : List Text) (files : Text → Option Text)
    → has_text argv (text "--update") ≡ false
    → ((golden_main constants input_files inputs dir argv files).1 ≡ exits 0)
      ↔ All (IsGolden (run_cli constants input_files) dir files) (golden_cases inputs)
unfolding golden_main
golden_main_iff constants input_files inputs dir argv files h =
    let checked =
      golden_loop-IsChecked (run_cli constants input_files) dir (golden_cases inputs)
        (initial files) in
    let ended = golden_end-exits (length (golden_cases inputs)) (
      golden_loop (run_cli constants input_files) dir false (golden_cases inputs)
        (initial files)) in
    (
      λ e. let (a, b) = ended.0 (rw h at e) in checked.sound a b,
      λ all. let parts = checked.complete all in rw h (ended.1 parts),
    )
