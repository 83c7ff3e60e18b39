-- ===== src/Tests/Sample.antt =====
-- A small proof with two public signals, one of them in hex, and what it stands for.
use zksoroban.Prelude.{String, [], ◌∷◌, refl, arith}
use zksoroban.Js.Text.{text, text_eq}
use zksoroban.Js.Numeral.{is_decimal, is_decimal_or_hex, is_hex, big_int, spelled}
use zksoroban.Js.Value.{JsValue, string, array, object, field, end, cons, nil, property}
use zksoroban.Validate.{bn254_field_modulus}
use zksoroban.Validate.Shape.{
  decimal, numeral, point, pair, done, more, IsSignalArray, signals, Coordinates, IsProof,
}

abbrev pub str : String → JsValue
str s = string (text s)

abbrev pub g1 : String → String → JsValue
g1 x y = array (cons (str x) (cons (str y) (cons (str "1") nil)))

abbrev pub sample : JsValue
sample = object (
    field (text "pi_a") (g1 "1" "2") (
      field (text "pi_b") (array (cons (g1 "3" "4") (cons (g1 "5" "6") nil)))
        (field (text "pi_c") (g1 "7" "800") (field (text "protocol") (str "groth16") end))))

abbrev pub sample_numbers : Coordinates
sample_numbers = record {
  a_x = 1;
  a_y = 2;
  b_x_c0 = 3;
  b_x_c1 = 4;
  b_y_c0 = 5;
  b_y_c1 = 6;
  c_x = 7;
  c_y = 800;
}

abbrev pub sample_signals : JsValue
sample_signals = array (cons (str "42") (cons (str "0xfF") nil))

pub sample-IsProof : IsProof sample sample_numbers
unfolding text text_eq is_decimal spelled property bn254_field_modulus
sample-IsProof = record {
  is_obj = refl;
  name = text "groth16";
  protocol = refl;
  groth16 = refl;
  pi_a = g1 "1" "2";
  pi_b = array (cons (g1 "3" "4") (cons (g1 "5" "6") nil));
  pi_c = g1 "7" "800";
  has_a = refl;
  has_b = refl;
  has_c = refl;
  point_a = point (decimal refl refl (omega arith)) (decimal refl refl (omega arith));
  pair_b =
      pair (point (decimal refl refl (omega arith)) (decimal refl refl (omega arith)))
        (point (decimal refl refl (omega arith)) (decimal refl refl (omega arith)));
  point_c = point (decimal refl refl (omega arith)) (decimal refl refl (omega arith));
}

pub sample-IsSignalArray : IsSignalArray sample_signals (42 ∷ 255 ∷ [])
unfolding text is_decimal_or_hex is_decimal is_hex big_int spelled bn254_field_modulus
sample-IsSignalArray =
    signals (more (numeral refl refl (omega arith)) (more (numeral refl refl (omega arith)) done))
