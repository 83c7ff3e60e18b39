-- ===== src/Verify/Fee/Readback.antt =====
-- stroopsToXlm of sdk/src/verify.ts, read back.
use zksoroban.Prelude.{
  ℕ, ◌+◌, ◌-◌, ◌*◌, ◌/◌, ◌%◌, ◌≤◌, ◌<◌, ◌≡◌, refl, ap, sym, ◌∙◌, true, false, [], ◌∷◌, ◌++◌, ◌==◌,
  arith, if◌then◌else◌, length, replicate, All, Bool-cases, inl, inr, div_mul_mod, and_parts,
}
use zksoroban.Js.Text.{Text, all_of, pad_start, is_digit, length-pad_start}
use zksoroban.Js.Numeral.{to_string, spelled}
use zksoroban.Js.Numeral.Laws.{
  spelled-to_string, spelled-pad, length-to_string, to_string-All_digit,
}
use zksoroban.Verify.Fee.{stroops_per_xlm, trim_zeros, with_fraction, stroops_to_xlm}

-- The parts of a decimal number around its point.
abbrev before_point : Text → Text
before_point [] = []
before_point (c ∷ s) = if c == b'.' then [] else c ∷ before_point s

abbrev after_point : Text → Text
after_point [] = []
after_point (c ∷ s) = if c == b'.' then s else after_point s

-- The stroops of an amount of XLM with at most seven digits behind the point.
abbrev pub xlm_to_stroops : Text → ℕ
xlm_to_stroops s =
    spelled 10 0 (before_point s) * stroops_per_xlm
    + spelled 10 0 (after_point s ++ replicate (7 - length (after_point s)) b'0')

zeros_of_all : (s : Text) → all_of (λ d. d == b'0') s ≡ true → s ≡ replicate (length s) b'0'
unfolding all_of
zeros_of_all [] h = refl
zeros_of_all (c ∷ s) h =
    let (e, k) = and_parts (c == b'0') (all_of (λ d. d == b'0') s) h in
    let same : c ≡ b'0' = ground arith in rw (same, ← zeros_of_all s k) refl

trim_zeros-length : (s : Text) → length (trim_zeros s) ≤ length s
unfolding trim_zeros
trim_zeros-length [] = omega arith
trim_zeros-length (c ∷ s) = elim (Bool-cases (all_of (λ d. d == b'0') (c ∷ s))) [
  | inl e ↦ rw e (omega arith)
  | inr e ↦ rw e (let ih = trim_zeros-length s in omega arith)
]

-- The zeros that were cut off, put back.
trim_zeros_back :
    (s : Text) (k : ℕ) → k + length (trim_zeros s) ≡ length s → trim_zeros s ++ replicate k b'0' ≡ s
unfolding trim_zeros
trim_zeros_back [] k h = let z : k ≡ 0 = omega arith in rw z refl
trim_zeros_back (c ∷ s) k h = elim (Bool-cases (all_of (λ d. d == b'0') (c ∷ s))) [
  | inl e ↦
      let h' = rw e at h in
      let z : k ≡ length (c ∷ s) = omega arith in rw (e, z) (sym (zeros_of_all (c ∷ s) e))
  | inr e ↦ let h' = rw e at h in rw e (ap (λ t. c ∷ t) (trim_zeros_back s k (omega arith)))
]

no_point : (c : ℕ) → is_digit c ≡ true → (c == b'.') ≡ false
unfolding is_digit
no_point c h = ground arith

before-point_digits :
    (ds s : Text) → All (λ c. is_digit c ≡ true) ds → before_point (ds ++ b'.' ∷ s) ≡ ds
before-point_digits [] s h = refl
before-point_digits (d ∷ ds) s (h, hs) =
    let other = no_point d h in rw other (ap (λ t. d ∷ t) (before-point_digits ds s hs))

after-point_digits :
    (ds s : Text) → All (λ c. is_digit c ≡ true) ds → after_point (ds ++ b'.' ∷ s) ≡ s
after-point_digits [] s h = refl
after-point_digits (d ∷ ds) s (h, hs) =
    let other = no_point d h in rw other (after-point_digits ds s hs)

before_digits : (ds : Text) → All (λ c. is_digit c ≡ true) ds → before_point ds ≡ ds
before_digits [] h = refl
before_digits (d ∷ ds) (h, hs) =
    let other = no_point d h in rw other (ap (λ t. d ∷ t) (before_digits ds hs))

after_digits : (ds : Text) → All (λ c. is_digit c ≡ true) ds → after_point ds ≡ []
after_digits [] h = refl
after_digits (d ∷ ds) (h, hs) = let other = no_point d h in rw other (after_digits ds hs)

-- The whole part and the fraction come back from the text.
whole_part :
    (ds fraction : Text)
    → All (λ c. is_digit c ≡ true) ds
    → before_point (with_fraction ds fraction) ≡ ds
unfolding with_fraction
whole_part ds [] h = before_digits ds h
whole_part ds (c ∷ s) h = before-point_digits ds (c ∷ s) h

fraction_part :
    (ds fraction : Text)
    → All (λ c. is_digit c ≡ true) ds
    → after_point (with_fraction ds fraction) ≡ fraction
unfolding with_fraction
fraction_part ds [] h = after_digits ds h
fraction_part ds (c ∷ s) h = after-point_digits ds (c ∷ s) h

-- The seven digits of a fraction, trimmed and filled up again, spell the fraction.
fraction_value :
    (r : ℕ)
    → r < stroops_per_xlm
    → let trimmed = trim_zeros (pad_start 7 b'0' (to_string 10 r)) in
      spelled 10 0 (trimmed ++ replicate (7 - length trimmed) b'0') ≡ r
fraction_value r h =
    let short = length-to_string 10 r 7 (omega arith) (omega arith) h (omega arith) in
    let full = length-pad_start 7 b'0' (to_string 10 r) short in
    let least = trim_zeros-length (pad_start 7 b'0' (to_string 10 r)) in
    let back =
      trim_zeros_back (pad_start 7 b'0' (to_string 10 r))
        (7 - length (trim_zeros (pad_start 7 b'0' (to_string 10 r)))) (omega arith) in
    rw back (unfold pad_start in spelled-pad 10 (7 - length (to_string 10 r)) (to_string 10 r))
    ∙ spelled-to_string 10 (omega arith) (omega arith) r

-- The text of an amount of stroops, read as a decimal number of XLM, is that amount.
pub xlm_to_stroops-stroops_to_xlm :
    (stroops : ℕ) → xlm_to_stroops (stroops_to_xlm stroops) ≡ stroops
unfolding stroops_to_xlm
xlm_to_stroops-stroops_to_xlm stroops =
    let digits = to_string-All_digit (stroops / stroops_per_xlm) in
    let small : stroops % stroops_per_xlm < stroops_per_xlm = omega arith in
    rw
      (
        whole_part _ _ digits,
        fraction_part _ _ digits,
        fraction_value _ small,
        spelled-to_string 10 (omega arith) (omega arith) (stroops / stroops_per_xlm),
      )
      (omega (arith, div_mul_mod stroops stroops_per_xlm))
