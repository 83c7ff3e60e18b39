-- ===== src/Js/Numeral/Laws.antt =====
-- Printing a number and reading it back, in any radix from two to sixteen.
use zksoroban.Prelude.{
  ℕ, zero, suc, ◌+◌, ◌*◌, ◌/◌, ◌%◌, ◌≤◌, ◌<◌, ◌^◌, Bool, true, false, [], ◌∷◌, ◌++◌, ◌≡◌, refl, ap,
  ◌∙◌, arith, ◌==◌, length, replicate, All, div_mul_mod, div-lt_base, mod-lt_base, div-lt_mul,
  Bool-cases, inl, inr,
}
use zksoroban.Js.Text.{Text, is_digit, is_hex_digit}
use zksoroban.Js.Numeral.{digit_char, digit_value, digits, to_string, spelled}
use native.Mathlib.Nat.{pow-suc, pow-zero}

pub digit_value-digit_char : (d : ℕ) → d < 16 → digit_value (digit_char d) ≡ d
unfolding digit_value digit_char
digit_value-digit_char d h = ground arith

pub digit_char-is_hex_digit : (d : ℕ) → d < 16 → is_hex_digit (digit_char d) ≡ true
unfolding is_hex_digit digit_char
digit_char-is_hex_digit d h = ground arith

module _ (radix : ℕ) (low : 2 ≤ radix) (high : radix ≤ 16) where
  last_digit : (n : ℕ) → digit_value (digit_char (n % radix)) ≡ n % radix
  last_digit n = digit_value-digit_char (n % radix) (omega (arith, mod-lt_base n radix low))

  -- Reading the digits of `n` gives `n`.
  spelled-digits :
      (fuel n : ℕ) (out : Text)
      → n ≤ fuel
      → spelled radix 0 (digits fuel radix n out) ≡ spelled radix n out
  unfolding digits spelled
  spelled-digits zero n out h = ap (λ m. spelled radix m out) (omega arith)
  spelled-digits (suc fuel) n out h = elim (Bool-cases (n == 0)) [
    | inl e ↦ rw e (ap (λ m. spelled radix m out) (ground arith))
    | inr e ↦ rw e (
        spelled-digits fuel (n / radix) (digit_char (n % radix) ∷ out)
          (let p : n / radix < n = div-lt_base n radix low (ground arith) in omega arith)
        ∙ ap (λ m. spelled radix m out) (omega (arith, last_digit n, div_mul_mod n radix)))
  ]

  pub spelled-to_string : (n : ℕ) → spelled radix 0 (to_string radix n) ≡ n
  unfolding to_string spelled
  spelled-to_string n = elim (Bool-cases (n == 0)) [
    | inl e ↦ rw e (let z : n ≡ 0 = ground arith in unfold digit_value in (z' n z))
    | inr e ↦ rw e (spelled-digits n n [] (omega arith))
  ]
    where
      z' : (n : ℕ) → n ≡ 0 → 0 * radix + digit_value b'0' ≡ n
      z' n z = omega arith

  -- A number below `radix ^ k` has at most `k` digits.
  length-digits :
      (fuel n k : ℕ) (out : Text)
      → n < radix ^ k
      → length (digits fuel radix n out) ≤ k + length out
  unfolding digits
  length-digits zero n k out h = omega arith
  length-digits (suc fuel) n zero out h =
      let z : n ≡ 0 = omega (arith, pow-zero radix) in
      let e : (n == 0) ≡ true = ground arith in rw e (omega arith)
  length-digits (suc fuel) n (suc k) out h = elim (Bool-cases (n == 0)) [
    | inl e ↦ rw e (omega arith)
    | inr e ↦ rw e (
        omega (
          arith,
          length-digits fuel (n / radix) k (digit_char (n % radix) ∷ out)
              (div-lt_mul n radix (radix ^ k) low (omega (arith, pow-suc radix k))),
        ))
  ]

-- A class that holds the digits below the radix holds those of every number.
module _ (p : ℕ → Bool) (radix : ℕ) (low : 2 ≤ radix)
    (in_class : (d : ℕ) → d < radix → p (digit_char d) ≡ true) where
  digits-All_class :
      (fuel n : ℕ) (out : Text)
      → All (λ c. p c ≡ true) out
      → All (λ c. p c ≡ true) (digits fuel radix n out)
  unfolding digits
  digits-All_class zero n out h = h
  digits-All_class (suc fuel) n out h = elim (Bool-cases (n == 0)) [
    | inl e ↦ rw e h
    | inr e ↦ rw e (
        digits-All_class fuel (n / radix) (digit_char (n % radix) ∷ out)
          (in_class (n % radix) (mod-lt_base n radix low), h))
  ]

  pub to_string-All_class : (n : ℕ) → All (λ c. p c ≡ true) (to_string radix n)
  unfolding to_string digit_char
  to_string-All_class n = elim (Bool-cases (n == 0)) [
    | inl e ↦ rw e (in_class 0 (omega arith), tt)
    | inr e ↦ rw e (digits-All_class n n [] tt)
  ]

-- Every digit of a number in radix sixteen is one that `Buffer.from(…, "hex")` reads.
pub to_string-All_hex : (n : ℕ) → All (λ c. is_hex_digit c ≡ true) (to_string 16 n)
to_string-All_hex n = to_string-All_class is_hex_digit 16 (omega arith) digit_char-is_hex_digit n

digit_char-is_digit : (d : ℕ) → d < 10 → is_digit (digit_char d) ≡ true
unfolding is_digit digit_char
digit_char-is_digit d h = ground arith

pub to_string-All_digit : (n : ℕ) → All (λ c. is_digit c ≡ true) (to_string 10 n)
to_string-All_digit n = to_string-All_class is_digit 10 (omega arith) digit_char-is_digit n

pub length-to_string :
    (radix n k : ℕ)
    → 2 ≤ radix
    → radix ≤ 16
    → n < radix ^ k
    → 0 < k
    → length (to_string radix n) ≤ k
unfolding to_string
length-to_string radix n k low high h p = elim (Bool-cases (n == 0)) [
  | inl e ↦ rw e (omega arith)
  | inr e ↦ rw e (omega (arith, length-digits radix low high n n k [] h))
]

-- Zeros in front change nothing.
pub spelled-pad :
    (radix k : ℕ) (s : Text) → spelled radix 0 (replicate k b'0' ++ s) ≡ spelled radix 0 s
unfolding spelled
spelled-pad radix zero s = refl
spelled-pad radix (suc k) s =
    ap (λ m. spelled radix m (replicate k b'0' ++ s)) (unfold digit_value in (omega arith))
    ∙ spelled-pad radix k s

-- A number has a digit.
digits-cons :
    (fuel radix n d : ℕ) (ds : Text)
    → (c : ℕ) × (cs : Text) × (digits fuel radix n (d ∷ ds) ≡ c ∷ cs)
unfolding digits
digits-cons zero radix n d ds = (d, ds, refl)
digits-cons (suc fuel) radix n d ds = elim (Bool-cases (n == 0)) [
  | inl e ↦ rw e (d, ds, refl)
  | inr e ↦ rw e (digits-cons fuel radix (n / radix) (digit_char (n % radix)) (d ∷ ds))
]

pub to_string-cons : (radix n : ℕ) → (c : ℕ) × (cs : Text) × (to_string radix n ≡ c ∷ cs)
unfolding to_string digits
to_string-cons radix zero = (b'0', [], refl)
to_string-cons radix (suc n) =
    let e : (suc n == 0) ≡ false = ground arith in
    rw e (digits-cons n radix (suc n / radix) (digit_char (suc n % radix)) [])
