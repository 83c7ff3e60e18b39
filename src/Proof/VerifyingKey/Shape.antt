-- ===== src/Proof/VerifyingKey/Shape.antt =====
-- A well-formed verifying key and its layout, stated without the code: coordinates may be decimal
-- or hex here.
use zksoroban.Prelude.{ℕ, ◌≡◌, false, List, [], ◌∷◌, map}
use zksoroban.Js.Text.{Text, text}
use zksoroban.Js.Bytes.{Bytes, concat}
use zksoroban.Js.Value.{JsValue, string, array, Items, cons, items, property, element, length_lt}
use zksoroban.Types.{RegistryVerifyingKey}
use zksoroban.Types.Result.{ok}
use zksoroban.Validate.Shape.{IsSignal}
use zksoroban.Proof.Encode.{word}

pub record G1 : Type 0 where
  pub x : ℕ
  pub y : ℕ

pub record G2 : Type 0 where
  pub x_c0 : ℕ
  pub x_c1 : ℕ
  pub y_c0 : ℕ
  pub y_c1 : ℕ

pub record KeyNumbers : Type 0 where
  pub alpha : G1
  pub beta : G2
  pub gamma : G2
  pub delta : G2
  pub ic : List G1

-- `row[0]` and `row[1]` are numerals below the scalar field's order.
pub data IsRow (r : JsValue) (x y : ℕ) : Type 0 where
  row :
      (u v : JsValue)
      → element r 0 ≡ ok u
      → element r 1 ≡ ok v
      → IsSignal u x
      → IsSignal v y
      → IsRow r x y

-- `m[0]` and `m[1]` are such rows.
pub data IsRows (m : JsValue) (p : G2) : Type 0 where
  rows :
      (r s : JsValue)
      → element m 0 ≡ ok r
      → element m 1 ≡ ok s
      → IsRow r p.x_c0 p.x_c1
      → IsRow s p.y_c0 p.y_c1
      → IsRows m p

pub data AreRows : List JsValue → List G1 → Type 0 where
  done : AreRows [] []
  more :
      {r : JsValue} {p : G1} {rs : List JsValue} {ps : List G1}
      → IsRow r p.x p.y
      → AreRows rs ps
      → AreRows (r ∷ rs) (p ∷ ps)

-- A field of a key that is not shorter than 2.
pub record HasField (vk : JsValue) (name : Text) (Shape : JsValue → Type 0) : Type 0 where
  pub value : JsValue
  pub present : property vk name ≡ ok value
  pub long : length_lt value 2 ≡ ok false
  pub shaped : Shape value

-- A Groth16 key with these numbers and at least one IC point.
pub record IsKey (vk : JsValue) (n : KeyNumbers) : Type 0 where
  pub protocol : property vk (text "protocol") ≡ ok (string (text "groth16"))
  pub alpha : HasField vk (text "vk_alpha_1") (λ v. IsRow v n.alpha.x n.alpha.y)
  pub beta : HasField vk (text "vk_beta_2") (λ v. IsRows v n.beta)
  pub gamma : HasField vk (text "vk_gamma_2") (λ v. IsRows v n.gamma)
  pub delta : HasField vk (text "vk_delta_2") (λ v. IsRows v n.delta)
  pub first : JsValue
  pub others : Items
  pub has_ic : property vk (text "IC") ≡ ok (array (cons first others))
  pub ic : AreRows (first ∷ items others) n.ic

unfoldable pub g1_bytes : G1 → Bytes
g1_bytes p = concat (word p.x ∷ word p.y ∷ [])

-- The imaginary part of a coordinate comes first.
unfoldable pub g2_bytes : G2 → Bytes
g2_bytes p = concat (word p.x_c1 ∷ word p.x_c0 ∷ word p.y_c1 ∷ word p.y_c0 ∷ [])

unfoldable pub key_layout : KeyNumbers → RegistryVerifyingKey
key_layout n = record {
  alpha = g1_bytes n.alpha;
  beta = g2_bytes n.beta;
  gamma = g2_bytes n.gamma;
  delta = g2_bytes n.delta;
  ic = map g1_bytes n.ic;
}
