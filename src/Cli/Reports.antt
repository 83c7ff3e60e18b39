-- ===== src/Cli/Reports.antt =====
-- What the commands verify and estimate-fee of sdk/src/cli.ts print for well-formed files.
use zksoroban.Prelude.{
  ℕ, ◌+◌, ◌*◌, ◌≡◌, refl, List, [], ◌∷◌, ◌++◌, some, arith, length, length-map, All, map,
  append-nil,
}
use zksoroban.Js.Text.{Text, text, join, text_eq}
use zksoroban.Js.Numeral.{to_string}
use zksoroban.Js.Bytes.{Bytes}
use zksoroban.Js.Value.{JsValue, undefined}
use zksoroban.Types.Result.{Result, ok}
use zksoroban.Validate.Shape.{
  IsSignalArray, Coordinates, IsProof, AreSignals, signals, done, more, numeral,
}
use zksoroban.Proof.Layout.{absent, layout}
use zksoroban.Proof.Encode.{word, length_g1, length_g2, field_fits_word}
use zksoroban.Proof.Words.{length-bigint_to_bytes32}
use zksoroban.Proof.Format.{format_proof_complete}
use zksoroban.Poseidon.{PoseidonConstants}
use zksoroban.Cli.{
  Files, get_flag, require_flag, read_calldata, total_length, proof_bytes, newline, command_verify,
  command_estimate_fee, run_cli,
}

-- The arguments name two files, which hold a well-formed proof and well-formed public signals.
pub record HasProof (files : Files) (args : List Text) (n : Coordinates) (ns : List ℕ)
    : Type 0 where
  pub proof_path : Text
  pub public_path : Text
  pub proof : JsValue
  pub public_signals : JsValue
  pub proof_flag : get_flag args (text "--proof") ≡ some proof_path
  pub public_flag : get_flag args (text "--public") ≡ some public_path
  pub proof_file : files.read_json proof_path ≡ ok proof
  pub public_file : files.read_json public_path ≡ ok public_signals
  pub is_proof : IsProof proof n
  pub is_signals : IsSignalArray public_signals ns

pub require_flag-some :
    (args : List Text) (name value : Text)
    → get_flag args name ≡ some value
    → require_flag args name ≡ ok value
unfolding require_flag
require_flag-some args name value e = rw (require_flag, e) refl

read_calldata-layout :
    (files : Files) (args : List Text) (n : Coordinates) (ns : List ℕ)
    → HasProof files args n ns
    → read_calldata files args ≡ ok (layout n ns)
unfolding read_calldata
read_calldata-layout files args n ns h =
    rw
      (
        require_flag-some args _ _ h.proof_flag,
        h.proof_file,
        require_flag-some args _ _ h.public_flag,
        h.public_file,
        format_proof_complete h.proof h.public_signals undefined n ns [] h.is_proof h.is_signals
            absent,
        append-nil ns,
      )
      refl

length-word :
    {vs : List JsValue} {ns : List ℕ} → AreSignals vs ns → All (λ w. length w ≡ 32) (map word ns)
length-word done = tt
length-word (more (numeral {n} d e f) rest) =
    (length-bigint_to_bytes32 n (field_fits_word n f), length-word rest)

total_length-words :
    (total : ℕ) (ws : List Bytes)
    → All (λ w. length w ≡ 32) ws
    → total_length total ws ≡ total + 32 * length ws
unfolding total_length
total_length-words total [] h = omega arith
total_length-words total (w ∷ ws) (e, h) =
    omega (arith, e, total_length-words (total + length w) ws h)

proof_bytes-layout :
    {v : JsValue} (n : Coordinates) (ns : List ℕ) → IsProof v n → proof_bytes (layout n ns) ≡ 256
unfolding proof_bytes layout
proof_bytes-layout n ns p =
    omega (arith, length_g1 p.point_a, length_g2 p.pair_b, length_g1 p.point_c)

total_length-layout :
    {v : JsValue} (n : Coordinates) (ns : List ℕ)
    → IsSignalArray v ns
    → total_length 0 (layout n ns).public_inputs ≡ 32 * length ns
unfolding layout
total_length-layout n ns (signals are) =
    omega (arith, total_length-words 0 (map word ns) (length-word are), length-map ns word)

length-inputs : (n : Coordinates) (ns : List ℕ) → length (layout n ns).public_inputs ≡ length ns
unfolding layout
length-inputs n ns = length-map ns word

-- What estimate-fee prints for a number of public inputs.
abbrev pub fee_report : ℕ → List Text
fee_report count =
    text "command: estimate-fee"
    ∷ text "proof bytes: 256"
    ∷ (text "public input bytes: " ++ to_string 10 (32 * count))
    ∷ (text "total bytes: " ++ to_string 10 (256 + 32 * count))
    ∷ (text "estimated fee (stroops): " ++ to_string 10 (1892 + 224 * count))
    ∷ []

-- What verify prints.
abbrev pub layout_report : ℕ → List Text
layout_report count =
    text "command: verify"
    ∷ text "calldata encoding: ok"
    ∷ text "proofA bytes: 64"
    ∷ text "proofB bytes: 128"
    ∷ text "proofC bytes: 64"
    ∷ (text "public inputs: " ++ to_string 10 count)
    ∷ []

estimate_fee-report :
    (files : Files) (args : List Text) (n : Coordinates) (ns : List ℕ)
    → HasProof files args n ns
    → command_estimate_fee files args ≡ ok (fee_report (length ns))
unfolding command_estimate_fee text to_string
estimate_fee-report files args n ns h =
    let fee : 100 + (256 + 32 * length ns) * 7 ≡ 1892 + 224 * length ns = omega arith in
    rw
      (
        read_calldata-layout files args n ns h,
        proof_bytes-layout n ns h.is_proof,
        total_length-layout n ns h.is_signals,
        fee,
      )
      refl

verify-report :
    (files : Files) (args : List Text) (n : Coordinates) (ns : List ℕ)
    → HasProof files args n ns
    → command_verify files args ≡ ok (layout_report (length ns))
unfolding command_verify text to_string
verify-report files args n ns h =
    let size_a : length (layout n ns).proof_a ≡ 64 =
      unfold layout in (length_g1 h.is_proof.point_a) in
    let size_b : length (layout n ns).proof_b ≡ 128 =
      unfold layout in (length_g2 h.is_proof.pair_b) in
    let size_c : length (layout n ns).proof_c ≡ 64 =
      unfold layout in (length_g1 h.is_proof.point_c) in
    rw (read_calldata-layout files args n ns h, length-inputs n ns, size_a, size_b, size_c) refl

-- Where --proof and --public name files with a well-formed proof and well-formed public signals,
-- verify reports 64, 128 and 64 bytes and the count of the signals, and estimate-fee reports 256
-- proof bytes, 32 bytes for each signal, and a fee of 100 stroops and 7 for each byte.
pub run_cli-reports :
    (constants : Result PoseidonConstants) (files : Files) (args : List Text) (n : Coordinates)
    (ns : List ℕ)
    → HasProof files args n ns
    → (run_cli constants files (text "verify" ∷ args)
        ≡ ok (join newline (layout_report (length ns))))
      × (run_cli constants files (text "estimate-fee" ∷ args)
          ≡ ok (join newline (fee_report (length ns))))
unfolding run_cli text text_eq
run_cli-reports constants files args n ns h =
    (rw (verify-report files args n ns h) refl, rw (estimate_fee-report files args n ns h) refl)
