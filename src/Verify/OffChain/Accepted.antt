-- ===== src/Verify/OffChain/Accepted.antt =====
-- Proofs that formatProof encodes can be verified off chain.
use zksoroban.Prelude.{ℕ, ◌≡◌, refl, Bool, true, List}
use zksoroban.Js.Value.{JsValue, is_array}
use zksoroban.Types.{SorobanProofCalldata}
use zksoroban.Types.Result.{Result, ok}
use zksoroban.Validate.Shape.{
  IsProof, IsPoint, point, IsPair, pair, IsSignalArray, signals, Coordinates,
}
use zksoroban.Proof.{format_proof}
use zksoroban.Proof.Format.{format_proof_sound}
use zksoroban.Verify.OffChain.{is_groth16, verify_off_chain}

is_array-IsPoint : {v : JsValue} {x y : ℕ} → IsPoint v x y → is_array v ≡ true
is_array-IsPoint (point a b) = refl

is_array-IsPair : {v : JsValue} {a b c d : ℕ} → IsPair v a b c d → is_array v ≡ true
is_array-IsPair (pair a b) = refl

is_array-IsSignalArray : {v : JsValue} {ns : List ℕ} → IsSignalArray v ns → is_array v ≡ true
is_array-IsSignalArray (signals h) = refl

is_groth16-IsProof : (p : JsValue) (n : Coordinates) → IsProof p n → is_groth16 p ≡ ok true
unfolding is_groth16
is_groth16-IsProof p n h = rw (h.is_obj, h.protocol, h.groth16) refl

-- For a proof and signals that formatProof encodes, with whatever expiry, and a Groth16 key object,
-- verifyOffChain gives them to snarkjs and has its result.
pub verify_off_chain-format_proof :
    (groth16_verify : JsValue → JsValue → JsValue → Result Bool) (p s e k : JsValue)
    (c : SorobanProofCalldata)
    → format_proof p s e ≡ ok c
    → is_groth16 k ≡ ok true
    → verify_off_chain groth16_verify p s k ≡ groth16_verify k s p
unfolding verify_off_chain
verify_off_chain-format_proof groth16_verify p s e k c h key =
    let (n, ns, ms, is_p, is_s, is_e, same) = format_proof_sound p s e c h in
    rw
      (
        is_groth16-IsProof p n is_p,
        is_p.has_a,
        is_p.has_b,
        is_p.has_c,
        is_array-IsPoint is_p.point_a,
        is_array-IsPair is_p.pair_b,
        is_array-IsPoint is_p.point_c,
        is_array-IsSignalArray is_s,
        key,
      )
      refl
