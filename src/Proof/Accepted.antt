-- ===== src/Proof/Accepted.antt =====
-- What formatProof returns has the sizes that validateCalldata asks for.
use zksoroban.Prelude.{ℕ, ◌≡◌, refl, List, ◌++◌, map, length, All, arith}
use zksoroban.Js.Value.{JsValue}
use zksoroban.Types.{SorobanProofCalldata}
use zksoroban.Types.Result.{ok}
use zksoroban.Validate.Shape.{
  numeral, AreSignals, done, more, IsSignalArray, signals, Coordinates, IsProof,
}
use zksoroban.Validate.Calldata.{of_proof, validate_calldata}
use zksoroban.Validate.Calldata.Laws.{HasSizes, sized, validate_calldata_iff}
use zksoroban.Proof.{format_proof}
use zksoroban.Proof.Words.{length-bigint_to_bytes32}
use zksoroban.Proof.Encode.{word, field_fits_word, length_g1, length_g2}
use zksoroban.Proof.Layout.{IsExpiry, absent, ledger, layout}
use zksoroban.Proof.Format.{format_proof_sound}

signal_sizes :
    {vs : List JsValue} {ns : List ℕ} (ms : List ℕ)
    → AreSignals vs ns
    → All (λ w. length w ≡ 32) (map word ms)
    → All (λ w. length w ≡ 32) (map word (ns ++ ms))
signal_sizes ms done h = h
signal_sizes ms (more (numeral {n} d e f) rest) h =
    (length-bigint_to_bytes32 n (field_fits_word n f), signal_sizes ms rest h)

expiry_sizes : {e : JsValue} {ms : List ℕ} → IsExpiry e ms → All (λ w. length w ≡ 32) (map word ms)
expiry_sizes absent = tt
expiry_sizes (ledger {n} h) = (length-bigint_to_bytes32 n (omega arith), tt)

input_sizes :
    {s e : JsValue} {ns ms : List ℕ}
    → IsSignalArray s ns
    → IsExpiry e ms
    → All (λ w. length w ≡ 32) (map word (ns ++ ms))
input_sizes (signals are) x = signal_sizes _ are (expiry_sizes x)

layout-HasSizes :
    {p s e : JsValue} {n : Coordinates} {ns ms : List ℕ}
    → IsProof p n
    → IsSignalArray s ns
    → IsExpiry e ms
    → HasSizes (of_proof (layout n (ns ++ ms)))
unfolding of_proof layout
layout-HasSizes p s e =
    sized _ (length_g1 p.point_a) (length_g2 p.pair_b) (length_g1 p.point_c) refl (input_sizes s e)

-- Calldata that formatProof returns passes validateCalldata, for every proof, signals and expiry.
pub validate_calldata-format_proof :
    (p s e : JsValue) (c : SorobanProofCalldata)
    → format_proof p s e ≡ ok c
    → validate_calldata (of_proof c) ≡ ok tt
validate_calldata-format_proof p s e c h =
    let (n, ns, ms, is_p, is_s, is_e, same) = format_proof_sound p s e c h in
    (validate_calldata_iff (of_proof c)).1 (rw same (layout-HasSizes is_p is_s is_e))
