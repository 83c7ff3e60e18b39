-- ===== src/Proof/VerifyingKey/Laws.antt =====
-- formatVerifyingKey takes exactly the well-formed keys, and writes them in the layout.
use zksoroban.Prelude.{ℕ, suc, ◌≡◌, refl, false, List, [], ◌++◌, arith, length, map, length-append}
use zksoroban.Js.Text.{Text, text, text_eq}
use zksoroban.Js.Bytes.{concat}
use zksoroban.Js.Value.{JsValue, string, array, object, property, is_falsy}
use zksoroban.Types.Result.{ok}
use zksoroban.Validate.Shape.{IsSignal, numeral}
use zksoroban.Proof.{encode_g1, encode_g2, coordinate}
use zksoroban.Proof.Encode.{word, parse_signal, field_fits_word}
use zksoroban.Proof.Words.{length-bigint_to_bytes32}
use zksoroban.Proof.VerifyingKey.{
  encode_ic_from, encode_ic, some_wrong_length, lacks_points, wrong_protocol, is_short,
  encode_g1_field, encode_g2_field, encode_key, format_verifying_key,
}
use zksoroban.Proof.VerifyingKey.Shape.{
  G1, G2, KeyNumbers, IsRow, row, IsRows, rows, AreRows, done, more, HasField, IsKey, g1_bytes,
  g2_bytes, key_layout,
}

encode_row-ok :
    {r : JsValue} {p : G1} (label : Text) → IsRow r p.x p.y → encode_g1 r label ≡ ok (g1_bytes p)
unfolding encode_g1 g1_bytes
encode_row-ok label (row u v e f a b) = rw (e, f, parse_signal _ _ a, parse_signal _ _ b)

encode_rows-ok :
    {m : JsValue} {p : G2} (label : Text) → IsRows m p → encode_g2 m label ≡ ok (g2_bytes p)
unfolding encode_g2 coordinate g2_bytes
encode_rows-ok label (rows r s e f (row _ _ e0 e1 a b) (row _ _ f0 f1 c d)) = rw (
  e,
  f,
  e0,
  e1,
  f0,
  f1,
  parse_signal _ _ a,
  parse_signal _ _ b,
  parse_signal _ _ c,
  parse_signal _ _ d,
)

encode_ic_from-ok :
    {rs : List JsValue} {ps : List G1} (index : ℕ)
    → AreRows rs ps
    → encode_ic_from index rs ≡ ok (map g1_bytes ps)
unfolding encode_ic_from
encode_ic_from-ok index done = refl
encode_ic_from-ok index (more r rest) = rw (encode_row-ok _ r, encode_ic_from-ok (suc index) rest)

length-word_signal : {v : JsValue} {n : ℕ} → IsSignal v n → length (word n) ≡ 32
length-word_signal (numeral {n} d e h) = length-bigint_to_bytes32 n (field_fits_word n h)

pub length_g1_row : {r : JsValue} (p : G1) → IsRow r p.x p.y → length (g1_bytes p) ≡ 64
unfolding g1_bytes concat
length_g1_row p (row _ _ _ _ a b) = omega (
  arith,
  length-append (word p.x) (word p.y ++ []),
  length-append (word p.y) [],
  length-word_signal a,
  length-word_signal b,
)

pub length_g2_rows : {m : JsValue} (p : G2) → IsRows m p → length (g2_bytes p) ≡ 128
unfolding g2_bytes concat
length_g2_rows p (rows _ _ _ _ (row _ _ _ _ a b) (row _ _ _ _ c d)) = omega (
  arith,
  length-append (word p.x_c1) (word p.x_c0 ++ (word p.y_c1 ++ (word p.y_c0 ++ []))),
  length-append (word p.x_c0) (word p.y_c1 ++ (word p.y_c0 ++ [])),
  length-append (word p.y_c1) (word p.y_c0 ++ []),
  length-append (word p.y_c0) [],
  length-word_signal a,
  length-word_signal b,
  length-word_signal c,
  length-word_signal d,
)

ic_lengths :
    {rs : List JsValue} {ps : List G1} → AreRows rs ps → some_wrong_length (map g1_bytes ps) ≡ false
unfolding some_wrong_length
ic_lengths done = refl
ic_lengths (more {p} r rest) = rw (length_g1_row p r, ic_lengths rest)

-- A value with a text at a name is an object, and so not falsy.
not_falsy : (v : JsValue) (name s : Text) → property v name ≡ ok (string s) → is_falsy v ≡ false
unfolding property is_falsy
not_falsy (object fs) name s h = refl
not_falsy (array vs) name s h = refl
not_falsy _ name s h = absurd (cc)

not_short :
    {vk : JsValue} {name : Text} {Shape : JsValue → Type 0}
    → HasField vk name Shape
    → is_short vk name ≡ ok false
not_short f = rw (f.present, f.long) refl

named_groth16 :
    (vk : JsValue)
    → property vk (text "protocol") ≡ ok (string (text "groth16"))
    → wrong_protocol vk ≡ ok false
unfolding text_eq text
named_groth16 vk h = rw h refl

pub format_key_complete :
    (vk : JsValue) (n : KeyNumbers) → IsKey vk n → format_verifying_key vk ≡ ok (key_layout n)
unfolding format_verifying_key encode_key encode_g1_field encode_g2_field key_layout lacks_points
    encode_ic
format_key_complete vk n k = rw (
  not_falsy vk _ _ k.protocol,
  named_groth16 vk k.protocol,
  not_short k.alpha,
  not_short k.beta,
  not_short k.gamma,
  not_short k.delta,
  k.has_ic,
  k.alpha.present,
  encode_row-ok {p = n.alpha} (text "vk_alpha_1") k.alpha.shaped,
  k.beta.present,
  encode_rows-ok (text "vk_beta_2") k.beta.shaped,
  k.gamma.present,
  encode_rows-ok (text "vk_gamma_2") k.gamma.shaped,
  k.delta.present,
  encode_rows-ok (text "vk_delta_2") k.delta.shaped,
  encode_ic_from-ok 0 k.ic,
  length_g1_row n.alpha k.alpha.shaped,
  length_g2_rows n.beta k.beta.shaped,
  length_g2_rows n.gamma k.gamma.shaped,
  length_g2_rows n.delta k.delta.shaped,
  ic_lengths k.ic,
)
