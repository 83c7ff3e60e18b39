-- ===== src/Validate/Complete.antt =====
-- The checks of validate.ts let every well-formed proof through.
use zksoroban.Prelude.{ℕ, suc, ◌<◌, ◌≡◌, refl, length, true, false, List, [], ◌∷◌, arith, leb, ltb}
use zksoroban.Js.Text.{Text, text}
use zksoroban.Js.Numeral.{is_decimal, is_hex, big_int, spelled}
use zksoroban.Js.Value.{JsValue, items}
use zksoroban.Types.Result.{ok}
use zksoroban.Validate.{
  assert_array, assert_proof_field_element, validate_signal, validate_signals_from,
  validate_public_signals, validate_point, validate_proof_input, at, bn254_field_modulus,
  max_32_byte_value,
}
use zksoroban.Validate.Shape.{
  IsCoordinate, decimal, IsSignal, numeral, IsPoint, point, IsPair, pair, AreSignals, done, more,
  IsSignalArray, signals, Coordinates, IsProof,
}

-- A decimal text is read as decimal: its second character is no x.
pub is_hex-of_decimal : (s : Text) → is_decimal s ≡ true → is_hex s ≡ false
unfolding is_hex is_decimal
is_hex-of_decimal [] h = refl
is_hex-of_decimal (c ∷ []) h = refl
is_hex-of_decimal (c ∷ x ∷ s) h = ground arith

pub big_int-of_decimal : (s : Text) → is_decimal s ≡ true → big_int s ≡ spelled 10 0 s
unfolding big_int
big_int-of_decimal s h = unfold is_hex in rw (is_hex-of_decimal s h)

-- In the field means below the modulus, as the code tests it.
pub in_field : (n : ℕ) → n < bn254_field_modulus → leb bn254_field_modulus n ≡ false
in_field n h = ground arith

pub in_32_bytes : (n : ℕ) → n < bn254_field_modulus → n < max_32_byte_value
unfolding bn254_field_modulus max_32_byte_value
in_32_bytes n h = omega arith

assert_proof_field_element-ok :
    {v : JsValue} {n : ℕ} (field : Text)
    → IsCoordinate v n
    → assert_proof_field_element v field ≡ ok tt
unfolding assert_proof_field_element
assert_proof_field_element-ok field (decimal {s} {n} d e h) =
    rw (d, big_int-of_decimal s d, e, in_field n h)

validate_signal-ok :
    {v : JsValue} {n : ℕ} (field : Text) → IsSignal v n → validate_signal v field ≡ ok tt
unfolding validate_signal
validate_signal-ok field (numeral {s} {n} d e h) =
    let fits : leb max_32_byte_value n ≡ false = ground (arith, in_32_bytes n h) in
    rw (d, e, fits, in_field n h)

validate_point-ok :
    {v : JsValue} {x y : ℕ} (name : Text) → IsPoint v x y → validate_point v name ≡ ok tt
unfolding validate_point assert_array
validate_point-ok name (point {rest} p q) =
    let long : ltb (suc (suc (length (items rest)))) 2 ≡ false = ground arith in
    rw (long, assert_proof_field_element-ok _ p, assert_proof_field_element-ok _ q)

validate_signals_from-ok :
    {vs : List JsValue} {ns : List ℕ} (index : ℕ)
    → AreSignals vs ns
    → validate_signals_from index vs ≡ ok tt
unfolding validate_signals_from
validate_signals_from-ok index done = refl
validate_signals_from-ok index (more s rest) =
    rw (validate_signal-ok _ s) (validate_signals_from-ok (suc index) rest)

pub validate_public_signals-ok :
    {v : JsValue} {ns : List ℕ} → IsSignalArray v ns → validate_public_signals v ≡ ok tt
unfolding validate_public_signals
validate_public_signals-ok (signals s) = validate_signals_from-ok 0 s

assert_rows-ok :
    {v : JsValue} {a b c d : ℕ} (name : Text)
    → IsPair v a b c d
    → (rows : List JsValue) × (assert_array v name 2 ≡ ok rows)
      × IsPoint (at rows 0) a b
      × IsPoint (at rows 1) c d
unfolding assert_array
assert_rows-ok name (pair {u} {v} {rest} p q) =
    let long : ltb (suc (suc (length (items rest)))) 2 ≡ false = ground arith in
    (u ∷ v ∷ items rest, rw long, p, q)

pub validate_proof_input-ok :
    {v s : JsValue} {n : Coordinates} {ns : List ℕ}
    → IsProof v n
    → IsSignalArray s ns
    → validate_proof_input v s ≡ ok tt
unfolding validate_proof_input
validate_proof_input-ok p s =
    let (rows, found, first, second) = assert_rows-ok (text "pi_b") p.pair_b in
    rw
      (
        p.is_obj,
        p.protocol,
        p.groth16,
        p.has_a,
        validate_point-ok _ p.point_a,
        p.has_b,
        found,
        validate_point-ok _ first,
        validate_point-ok _ second,
        p.has_c,
        validate_point-ok _ p.point_c,
      )
      (validate_public_signals-ok s)
