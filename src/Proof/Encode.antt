-- ===== src/Proof/Encode.antt =====
-- Encoding a well-formed proof never throws, and writes each number in its own word.
use zksoroban.Prelude.{
  ℕ, suc, ◌<◌, ◌^◌, ◌≡◌, refl, ap, true, false, List, [], ◌∷◌, ◌++◌, arith, length, map,
  length-append,
}
use zksoroban.Js.Text.{Text}
use zksoroban.Js.Numeral.{is_decimal_or_hex, is_decimal}
use zksoroban.Js.Bytes.{Bytes, concat}
use zksoroban.Js.Value.{JsValue, element, length_lt}
use zksoroban.Types.{SorobanZkErrorCode}
use zksoroban.Types.Result.{ok}
use zksoroban.Validate.{bn254_field_modulus}
use zksoroban.Validate.Shape.{
  IsCoordinate, decimal, IsSignal, numeral, IsPoint, point, IsPair, pair, AreSignals, done, more,
  IsSignalArray, signals, Coordinates,
}
use zksoroban.Validate.Complete.{big_int-of_decimal, in_field}
use zksoroban.Proof.{
  parse_field_element, bigint_to_bytes32, encode_g1, coordinate, encode_g2, encode_signals_from,
  encode_public_inputs, lacks_coordinates,
}
use zksoroban.Proof.Words.{length-bigint_to_bytes32}

pub field_fits_word : (n : ℕ) → n < bn254_field_modulus → n < 2 ^ 256
unfolding bn254_field_modulus
field_fits_word n h = omega arith

pub parse_signal :
    {v : JsValue} {n : ℕ} (code : SorobanZkErrorCode) (label : Text)
    → IsSignal v n
    → parse_field_element v code label ≡ ok n
unfolding parse_field_element
parse_signal code label (numeral {s} {n} d e h) = rw (d, e, in_field n h)

IsSignal-coordinate : {v : JsValue} {n : ℕ} → IsCoordinate v n → IsSignal v n
IsSignal-coordinate (decimal {s} d e h) = numeral (either d) (rw (big_int-of_decimal s d) e) h
  where
    either : is_decimal s ≡ true → is_decimal_or_hex s ≡ true
    either d = unfold is_decimal_or_hex in ground arith

pub parse_coordinate :
    {v : JsValue} {n : ℕ} (code : SorobanZkErrorCode) (label : Text)
    → IsCoordinate v n
    → parse_field_element v code label ≡ ok n
parse_coordinate code label c = parse_signal code label (IsSignal-coordinate c)

abbrev pub word : ℕ → Bytes
word = bigint_to_bytes32

pub encode_g1-ok :
    {v : JsValue} {x y : ℕ} (label : Text)
    → IsPoint v x y
    → encode_g1 v label ≡ ok (concat (word x ∷ word y ∷ []))
unfolding encode_g1 element
encode_g1-ok label (point p q) = rw (parse_coordinate _ _ p, parse_coordinate _ _ q)

pub encode_g2-ok :
    {v : JsValue} {x_c0 x_c1 y_c0 y_c1 : ℕ} (label : Text)
    → IsPair v x_c0 x_c1 y_c0 y_c1
    → encode_g2 v label ≡ ok (concat (word x_c1 ∷ word x_c0 ∷ word y_c1 ∷ word y_c0 ∷ []))
unfolding encode_g2 coordinate element
encode_g2-ok label (pair (point p q) (point r s)) =
    rw (
      parse_coordinate _ _ p,
      parse_coordinate _ _ q,
      parse_coordinate _ _ r,
      parse_coordinate _ _ s,
    )

encode_signals_from-ok :
    {vs : List JsValue} {ns : List ℕ} (index : ℕ)
    → AreSignals vs ns
    → encode_signals_from index vs ≡ ok (map word ns)
unfolding encode_signals_from
encode_signals_from-ok index done = refl
encode_signals_from-ok index (more s rest) =
    rw (parse_signal _ _ s, encode_signals_from-ok (suc index) rest)

pub encode_public_inputs-ok :
    {v : JsValue} {ns : List ℕ} → IsSignalArray v ns → encode_public_inputs v ≡ ok (map word ns)
unfolding encode_public_inputs
encode_public_inputs-ok (signals s) = encode_signals_from-ok 0 s

length_lt-point : {v : JsValue} {x y : ℕ} → IsPoint v x y → length_lt v 2 ≡ ok false
unfolding length_lt
length_lt-point (point {rest} p q) = ap ok (ground arith)

length_lt-pair : {v : JsValue} {a b c d : ℕ} → IsPair v a b c d → length_lt v 2 ≡ ok false
unfolding length_lt
length_lt-pair (pair {rest} p q) = ap ok (ground arith)

pub lacks_coordinates-ok :
    {a b c : JsValue} {n : Coordinates}
    → IsPoint a n.a_x n.a_y
    → IsPair b n.b_x_c0 n.b_x_c1 n.b_y_c0 n.b_y_c1
    → IsPoint c n.c_x n.c_y
    → lacks_coordinates a b c ≡ ok false
unfolding lacks_coordinates
lacks_coordinates-ok p q r = rw (length_lt-point p, length_lt-pair q, length_lt-point r)

-- The numbers of a well-formed proof fit their words.
pub length-word_coordinate : {v : JsValue} {n : ℕ} → IsCoordinate v n → length (word n) ≡ 32
length-word_coordinate (decimal {s} {n} d e h) = length-bigint_to_bytes32 n (field_fits_word n h)

pub length_g1 :
    {v : JsValue} {x y : ℕ} → IsPoint v x y → length (concat (word x ∷ word y ∷ [])) ≡ 64
unfolding concat
length_g1 (point {x} {y} p q) = omega (
  arith,
  length-append (word x) (word y ++ []),
  length-append (word y) [],
  length-word_coordinate p,
  length-word_coordinate q,
)

pub length_g2 :
    {v : JsValue} {a b c d : ℕ}
    → IsPair v a b c d
    → length (concat (word b ∷ word a ∷ word d ∷ word c ∷ [])) ≡ 128
unfolding concat
length_g2 (pair (point {x = a} {y = b} p q) (point {x = c} {y = d} r s)) = omega (
  arith,
  length-append (word b) (word a ++ (word d ++ (word c ++ []))),
  length-append (word a) (word d ++ (word c ++ [])),
  length-append (word d) (word c ++ []),
  length-append (word c) [],
  length-word_coordinate p,
  length-word_coordinate q,
  length-word_coordinate r,
  length-word_coordinate s,
)
