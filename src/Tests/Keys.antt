-- ===== src/Tests/Keys.antt =====
-- formatVerifyingKey and validateCalldata at concrete inputs.
use zksoroban.Prelude.{String, [], ◌∷◌, ◌≡◌, ◌↔◌}
use zksoroban.Js.Text.{text}
use zksoroban.Js.Value.{JsValue, array, object, of_list, field, end}
use zksoroban.Types.Result.{ok}
use zksoroban.Validate.Calldata.{Calldata, calldata, buffer, array_of, validate_calldata}
use zksoroban.Validate.Calldata.Laws.{HasSizes, validate_calldata_iff}
use zksoroban.Proof.VerifyingKey.Shape.{G2, KeyNumbers}
use zksoroban.Tests.Sample.{str}

abbrev pub key_row : String → String → JsValue
key_row x y = array (of_list (str x ∷ str y ∷ str "1" ∷ []))

abbrev pub square : JsValue
square = array (of_list (key_row "3" "4" ∷ key_row "5" "0x6" ∷ []))

abbrev pub key : JsValue
key = object (
    field (text "protocol") (str "groth16") (
      field (text "vk_alpha_1") (key_row "1" "2") (
        field (text "vk_beta_2") square (
          field (text "vk_gamma_2") square (
            field (text "vk_delta_2") square (
              field (text "IC") (array (of_list (key_row "7" "8" ∷ key_row "9" "10" ∷ [])))
                end))))))

abbrev pub corner : G2
corner = record { x_c0 = 3; x_c1 = 4; y_c0 = 5; y_c1 = 6 }

abbrev pub numbers : KeyNumbers
numbers = record {
  alpha = record { x = 1; y = 2 };
  beta = corner;
  gamma = corner;
  delta = corner;
  ic = record { x = 7; y = 8 } ∷ record { x = 9; y = 10 } ∷ [];
}

abbrev empty : Calldata
empty = calldata (buffer []) (buffer []) (buffer []) (array_of [])

validate_calldata_iff_example : (validate_calldata empty ≡ ok tt) ↔ HasSizes empty
validate_calldata_iff_example = validate_calldata_iff empty
