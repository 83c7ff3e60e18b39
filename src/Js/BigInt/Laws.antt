-- ===== src/Js/BigInt/Laws.antt =====
-- `BigInt(s)` on decimal digits.
use zksoroban.Prelude.{
  ℕ, ◌≡◌, refl, true, false, ◌&&◌, [], ◌∷◌, some, arith, and_parts, ◌==◌, All, ◌||◌,
}
use zksoroban.Prelude.Int.{pos}
use zksoroban.Js.Text.{Text, all_of, some_of, is_space, skip_spaces, is_digit}
use zksoroban.Js.Numeral.{is_decimal, spelled, to_string}
use zksoroban.Js.Numeral.Laws.{to_string-All_digit, to_string-cons}
use zksoroban.Js.BigInt.{trim, trim_end, decimal_value, unsigned_value, literal_value, to_bigint}
use zksoroban.Types.Result.{ok}

digit_space : (c : ℕ) → is_digit c ≡ true → is_space c ≡ false
unfolding is_digit is_space
digit_space c h = ground arith

trim_end-digits : (s : Text) → all_of is_digit s ≡ true → trim_end s ≡ s
unfolding trim_end all_of
trim_end-digits [] h = refl
trim_end-digits (c ∷ s) h =
    let (d, rest) = and_parts (is_digit c) (all_of is_digit s) h in
    rw (digit_space c d, trim_end-digits s rest) refl

trim-digits : (c : ℕ) (s : Text) → all_of is_digit (c ∷ s) ≡ true → trim (c ∷ s) ≡ c ∷ s
unfolding trim skip_spaces all_of
trim-digits c s h =
    let (d, rest) = and_parts (is_digit c) (all_of is_digit s) h in
    rw (digit_space c d, trim_end-digits (c ∷ s) h) refl

decimal-digits :
    (c : ℕ) (s : Text)
    → all_of is_digit (c ∷ s) ≡ true
    → decimal_value (c ∷ s) ≡ some (spelled 10 0 (c ∷ s))
unfolding decimal_value some_of
decimal-digits c s h = rw h refl

no_prefix :
    (z d : ℕ)
    → is_digit d ≡ true
    → (z == b'0'
        && some_of
            (λ d. d == b'x' || d == b'X' || d == b'o' || d == b'O' || d == b'b' || d == b'B')
            (d ∷ []))
      ≡ false
unfolding is_digit some_of all_of
no_prefix z d h = ground arith

unsigned-digits :
    (c : ℕ) (s : Text)
    → all_of is_digit (c ∷ s) ≡ true
    → unsigned_value (c ∷ s) ≡ some (spelled 10 0 (c ∷ s))
unfolding unsigned_value all_of
unsigned-digits c [] h = decimal-digits c [] h
unsigned-digits c (d ∷ s) h =
    let (_, rest) = and_parts (is_digit c) (all_of is_digit (d ∷ s)) h in
    let (second, _) = and_parts (is_digit d) (all_of is_digit s) rest in
    rw (no_prefix c d second, decimal-digits c (d ∷ s) h) refl

not_sign : (c : ℕ) → is_digit c ≡ true → ((c == b'-') ≡ false) × ((c == b'+') ≡ false)
unfolding is_digit
not_sign c h = (ground arith, ground arith)

literal-digits :
    (c : ℕ) (s : Text)
    → all_of is_digit (c ∷ s) ≡ true
    → literal_value (c ∷ s) ≡ some (pos (spelled 10 0 (c ∷ s)))
unfolding literal_value all_of
literal-digits c s h =
    let (d, _) = and_parts (is_digit c) (all_of is_digit s) h in
    let (minus, plus) = not_sign c d in rw (minus, plus, unsigned-digits c s h) refl

-- Decimal digits are the number that they spell.
pub to_bigint-decimal : (s : Text) → is_decimal s ≡ true → to_bigint s ≡ ok (pos (spelled 10 0 s))
unfolding to_bigint spelled
to_bigint-decimal [] h = absurd (unfold is_decimal some_of in (cc))
to_bigint-decimal (c ∷ s) h =
    let digits : all_of is_digit (c ∷ s) ≡ true = unfold is_decimal some_of in h in
    rw (to_bigint, trim-digits c s digits, literal-digits c s digits) refl

all_of-All : (s : Text) → All (λ c. is_digit c ≡ true) s → all_of is_digit s ≡ true
unfolding all_of
all_of-All [] h = refl
all_of-All (c ∷ s) (d, h) = rw (d, all_of-All s h) refl

-- The text of a number is decimal.
pub to_string-is_decimal : (n : ℕ) → is_decimal (to_string 10 n) ≡ true
to_string-is_decimal n =
    let (c, cs, e) = to_string-cons 10 n in
    rw e (unfold is_decimal some_of in (all_of-All (c ∷ cs) (rw e at (to_string-All_digit n))))
