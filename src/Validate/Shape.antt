-- ===== src/Validate/Shape.antt =====
-- What a well-formed snarkjs proof is, stated without the code: which values are coordinates,
-- points and public signals, and the numbers that they stand for.
use zksoroban.Prelude.{ℕ, ◌<◌, ◌≡◌, true, List, [], ◌∷◌}
use zksoroban.Js.Text.{Text, text, text_eq}
use zksoroban.Js.Numeral.{is_decimal, is_decimal_or_hex, big_int, spelled}
use zksoroban.Js.Value.{JsValue, string, array, cons, Items, items, is_object, property}
use zksoroban.Types.Result.{ok}
use zksoroban.Validate.{bn254_field_modulus}

-- A string of decimal digits that spells a number of the field.
pub data IsCoordinate : JsValue → ℕ → Type 0 where
  decimal :
      {s : Text} {n : ℕ}
      → is_decimal s ≡ true
      → spelled 10 0 s ≡ n
      → n < bn254_field_modulus
      → IsCoordinate (string s) n

-- A string of decimal digits, or of hex digits behind 0x, that spells a number of the field.
pub data IsSignal : JsValue → ℕ → Type 0 where
  numeral :
      {s : Text} {n : ℕ}
      → is_decimal_or_hex s ≡ true
      → big_int s ≡ n
      → n < bn254_field_modulus
      → IsSignal (string s) n

-- An array that begins with two coordinates.
pub data IsPoint : JsValue → ℕ → ℕ → Type 0 where
  point :
      {u v : JsValue} {rest : Items} {x y : ℕ}
      → IsCoordinate u x
      → IsCoordinate v y
      → IsPoint (array (cons u (cons v rest))) x y

-- An array that begins with two such arrays.
pub data IsPair : JsValue → ℕ → ℕ → ℕ → ℕ → Type 0 where
  pair :
      {u v : JsValue} {rest : Items} {x_c0 x_c1 y_c0 y_c1 : ℕ}
      → IsPoint u x_c0 x_c1
      → IsPoint v y_c0 y_c1
      → IsPair (array (cons u (cons v rest))) x_c0 x_c1 y_c0 y_c1

pub data AreSignals : List JsValue → List ℕ → Type 0 where
  done : AreSignals [] []
  more :
      {v : JsValue} {n : ℕ} {vs : List JsValue} {ns : List ℕ}
      → IsSignal v n
      → AreSignals vs ns
      → AreSignals (v ∷ vs) (n ∷ ns)

pub data IsSignalArray : JsValue → List ℕ → Type 0 where
  signals : {vs : Items} {ns : List ℕ} → AreSignals (items vs) ns → IsSignalArray (array vs) ns

-- The numbers of a Groth16 proof: A, B and C, with B over the quadratic extension.
pub record Coordinates : Type 0 where
  pub a_x : ℕ
  pub a_y : ℕ
  pub b_x_c0 : ℕ
  pub b_x_c1 : ℕ
  pub b_y_c0 : ℕ
  pub b_y_c1 : ℕ
  pub c_x : ℕ
  pub c_y : ℕ

-- The value is an object for a Groth16 proof with these numbers.
pub record IsProof (v : JsValue) (n : Coordinates) : Type 0 where
  pub is_obj : is_object v ≡ true
  pub name : Text
  pub protocol : property v (text "protocol") ≡ ok (string name)
  pub groth16 : text_eq name (text "groth16") ≡ true
  pub pi_a : JsValue
  pub pi_b : JsValue
  pub pi_c : JsValue
  pub has_a : property v (text "pi_a") ≡ ok pi_a
  pub has_b : property v (text "pi_b") ≡ ok pi_b
  pub has_c : property v (text "pi_c") ≡ ok pi_c
  pub point_a : IsPoint pi_a n.a_x n.a_y
  pub pair_b : IsPair pi_b n.b_x_c0 n.b_x_c1 n.b_y_c0 n.b_y_c1
  pub point_c : IsPoint pi_c n.c_x n.c_y
