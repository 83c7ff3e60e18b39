-- ===== src/Proof/Layout.antt =====
-- The byte layout of the contracts, stated without the code that writes it: A.x A.y, then B with
-- the imaginary part of each coordinate first, then C.x C.y, and a word for each public input.
use zksoroban.Prelude.{ℕ, ◌<◌, ◌^◌, List, [], ◌∷◌, map}
use zksoroban.Prelude.Int.{pos}
use zksoroban.Js.Bytes.{concat}
use zksoroban.Js.Value.{JsValue, undefined, integer}
use zksoroban.Types.{SorobanProofCalldata}
use zksoroban.Validate.Shape.{Coordinates}
use zksoroban.Proof.Encode.{word}

-- What an `expiryLedger` argument adds to the public inputs.
pub data IsExpiry : JsValue → List ℕ → Type 0 where
  absent : IsExpiry undefined []
  ledger : {n : ℕ} → n < 2 ^ 32 → IsExpiry (integer (pos n)) (n ∷ [])

unfoldable pub layout : Coordinates → List ℕ → SorobanProofCalldata
layout n inputs = record {
  proof_a = concat (word n.a_x ∷ word n.a_y ∷ []);
  proof_b = concat (word n.b_x_c1 ∷ word n.b_x_c0 ∷ word n.b_y_c1 ∷ word n.b_y_c0 ∷ []);
  proof_c = concat (word n.c_x ∷ word n.c_y ∷ []);
  public_inputs = map word inputs;
}
