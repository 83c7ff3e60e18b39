-- ===== src/Proof/VerifyingKey/Sound.antt =====
-- What formatVerifyingKey accepts is a well-formed key.
use zksoroban.Prelude.{ℕ, ◌≡◌, ap, false, not, arith, leb, Bool-cases, inl, inr}
use zksoroban.Js.Text.{Text, text, text_eq, text_eq_sound}
use zksoroban.Js.Numeral.{big_int, is_decimal_or_hex}
use zksoroban.Js.Bytes.{Bytes}
use zksoroban.Js.Value.{JsValue, string, element, equals_text}
use zksoroban.Types.{SorobanZkErrorCode, invalid_proof_format}
use zksoroban.Types.Result.{Result, ok, throw_if, >>-eq-ok, >>=-eq-ok, throw_if-eq-ok, ok-injective}
use zksoroban.Validate.{bn254_field_modulus}
use zksoroban.Validate.Shape.{IsSignal, numeral}
use zksoroban.Proof.{parse_field_element, encode_g1}
use zksoroban.Proof.VerifyingKey.Shape.{G1, IsRow, row}

IsSignal-of_parse :
    (v : JsValue) (code : SorobanZkErrorCode) (label : Text) (n : ℕ)
    → parse_field_element v code label ≡ ok n
    → IsSignal v n
unfolding parse_field_element
IsSignal-of_parse (string s) code label n h =
    let (d, h') = >>-eq-ok (throw_if (not (is_decimal_or_hex s)) _) _ h in
    let (small, e) = >>-eq-ok (throw_if (leb bn254_field_modulus (big_int s)) _) _ h' in
    numeral_of s n (throw_if-eq-ok _ _ d) (throw_if-eq-ok _ _ small) (ok-injective e)
  where
    numeral_of :
        (s : Text) (n : ℕ)
        → not (is_decimal_or_hex s) ≡ false
        → leb bn254_field_modulus (big_int s) ≡ false
        → big_int s ≡ n
        → IsSignal (string s) n
    numeral_of s n d small e = numeral (ground arith) e (ground arith)
IsSignal-of_parse _ code label n h = absurd (cc)

pub IsRow-of_ok :
    (r : JsValue) (label : Text) {bytes : Bytes}
    → encode_g1 r label ≡ ok bytes
    → (p : G1) × IsRow r p.x p.y
unfolding encode_g1
IsRow-of_ok r label h =
    let (u, is_u, h1) = >>=-eq-ok (element r 0) _ h in
    let (x, is_x, h2) = >>=-eq-ok (parse_field_element u invalid_proof_format _) _ h1 in
    let (v, is_v, h3) = >>=-eq-ok (element r 1) _ h2 in
    let (y, is_y, h4) = >>=-eq-ok (parse_field_element v invalid_proof_format _) _ h3 in
    (
      record { x = x; y = y },
      row u v is_u is_v (IsSignal-of_parse u _ _ x is_x) (IsSignal-of_parse v _ _ y is_y),
    )

is_groth16 :
    (p : JsValue) → not (equals_text p (text "groth16")) ≡ false → p ≡ string (text "groth16")
is_groth16 (string s) h = elim (Bool-cases (text_eq s (text "groth16"))) [
  | inl same ↦ ap string (text_eq_sound s (text "groth16") same)
  | inr other ↦ absurd (let h' = rw other at h in cc)
]
is_groth16 _ h = absurd (cc)
