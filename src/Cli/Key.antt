-- ===== src/Cli/Key.antt =====
-- The command format-vk of sdk/src/cli.ts.
use zksoroban.Prelude.{
  ℕ, ◌≡◌, refl, List, [], ◌∷◌, ◌++◌, some, length, length-map, map, All, All-append,
}
use zksoroban.Js.Text.{Text, text, join, text_eq}
use zksoroban.Js.Numeral.{to_string}
use zksoroban.Types.Result.{Result, ok}
use zksoroban.Js.Value.{JsValue}
use zksoroban.Js.Bytes.{concat}
use zksoroban.Js.Bytes.Hex.{AllBytes}
use zksoroban.Validate.Shape.{IsSignal, numeral}
use zksoroban.Proof.Encode.{word, field_fits_word}
use zksoroban.Proof.Words.{bigint_to_bytes32-All_bytes}
use zksoroban.Cli.Printed.{IsKeyJson, HasBytes, vk_json-IsKeyJson}
use zksoroban.Proof.VerifyingKey.Shape.{
  G1, G2, KeyNumbers, IsRow, row, IsRows, rows, AreRows, done, more, IsKey, key_layout, g1_bytes,
  g2_bytes,
}
use zksoroban.Proof.VerifyingKey.Laws.{format_key_complete, length_g1_row, length_g2_rows}
use zksoroban.Poseidon.{PoseidonConstants}
use zksoroban.Cli.Reports.{require_flag-some}
use zksoroban.Cli.{
  Files, get_flag, newline, command_format_vk, run_cli, vk_json, or_default, registry_contract_id,
}

-- The arguments have an id and name a file, which holds a well-formed key.
pub record HasKey (files : Files) (args : List Text) (id : Text) (n : KeyNumbers) : Type 0 where
  pub path : Text
  pub key : JsValue
  pub id_flag : get_flag args (text "--id") ≡ some id
  pub vk_flag : get_flag args (text "--vk") ≡ some path
  pub key_file : files.read_json path ≡ ok key
  pub is_key : IsKey key n

-- What format-vk prints for a circuit, a registry, the JSON of a key and its count of IC points.
abbrev pub key_report : Text → Text → Text → ℕ → List Text
key_report id registry json points =
    text "command: format-vk"
    ∷ (text "circuit id: " ++ id)
    ∷ (text "registry: " ++ registry)
    ∷ text "alpha bytes: 64"
    ∷ text "beta bytes: 128"
    ∷ text "gamma bytes: 128"
    ∷ text "delta bytes: 128"
    ∷ (text "ic points: " ++ to_string 10 points)
    ∷ []
    ∷ text "stellar contract invoke \\"
    ∷ (text "  --id " ++ registry ++ text " \\")
    ∷ text "  --network testnet \\"
    ∷ text "  --source-account <registry-admin> \\"
    ∷ (text "  -- register_circuit --id " ++ id ++ text " --vk '" ++ json ++ text "'")
    ∷ []

-- The bytes of a layout are bytes.
word_bytes : {v : JsValue} {n : ℕ} → IsSignal v n → AllBytes (word n)
word_bytes (numeral {n} d e h) = bigint_to_bytes32-All_bytes n (field_fits_word n h)

g1_row_bytes : {r : JsValue} (p : G1) → IsRow r p.x p.y → AllBytes (g1_bytes p)
unfolding g1_bytes concat
g1_row_bytes p (row _ _ _ _ a b) =
    All-append _ (word p.x) _ (word_bytes a) (All-append _ (word p.y) [] (word_bytes b) tt)

g2_rows_bytes : {m : JsValue} (p : G2) → IsRows m p → AllBytes (g2_bytes p)
unfolding g2_bytes concat
g2_rows_bytes p (rows _ _ _ _ (row _ _ _ _ a b) (row _ _ _ _ c d)) =
    All-append _ (word p.x_c1) _ (word_bytes b) (
      All-append _ (word p.x_c0) _ (word_bytes a) (
        All-append _ (word p.y_c1) _ (word_bytes d)
          (All-append _ (word p.y_c0) [] (word_bytes c) tt)))

points_bytes : {rs : List JsValue} {ps : List G1} → AreRows rs ps → All AllBytes (map g1_bytes ps)
points_bytes done = tt
points_bytes (more {p} r rest) = (g1_row_bytes p r, points_bytes rest)

layout_bytes : {vk : JsValue} (n : KeyNumbers) → IsKey vk n → HasBytes (key_layout n)
unfolding key_layout
layout_bytes n k = record {
  alpha = g1_row_bytes n.alpha k.alpha.shaped;
  beta = g2_rows_bytes n.beta k.beta.shaped;
  gamma = g2_rows_bytes n.gamma k.gamma.shaped;
  delta = g2_rows_bytes n.delta k.delta.shaped;
  ic = points_bytes k.ic;
}

format_vk_report :
    (constants : Result PoseidonConstants) (files : Files) (args : List Text) (id : Text)
    (n : KeyNumbers)
    → HasKey files args id n
    → run_cli constants files (text "format-vk" ∷ args)
      ≡ ok (
          join newline (
            key_report id
              (or_default (get_flag args (text "--registry-id")) registry_contract_id)
              (vk_json (key_layout n))
              (length n.ic)))
unfolding run_cli text text_eq command_format_vk to_string
format_vk_report constants files args id n h =
    let size_a : length (key_layout n).alpha ≡ 64 =
      unfold key_layout in (length_g1_row n.alpha h.is_key.alpha.shaped) in
    let size_b : length (key_layout n).beta ≡ 128 =
      unfold key_layout in (length_g2_rows n.beta h.is_key.beta.shaped) in
    let size_c : length (key_layout n).gamma ≡ 128 =
      unfold key_layout in (length_g2_rows n.gamma h.is_key.gamma.shaped) in
    let size_d : length (key_layout n).delta ≡ 128 =
      unfold key_layout in (length_g2_rows n.delta h.is_key.delta.shaped) in
    let points : length (key_layout n).ic ≡ length n.ic =
      unfold key_layout in (length-map n.ic g1_bytes) in
    rw
      (
        require_flag-some args _ _ h.id_flag,
        require_flag-some args _ _ h.vk_flag,
        h.key_file,
        format_key_complete h.key n h.is_key,
        size_a,
        size_b,
        size_c,
        size_d,
        points,
      )
      refl

-- With an id and a file that holds a well-formed key, format-vk prints the sizes 64, 128, 128 and
-- 128, the count of the IC points, and a call of register_circuit for the id and some text, at the
-- registry of the flag or at the default one. The text is the JSON of an object with the fields
-- alpha, beta, gamma, delta and ic, in this order: each is, in two hex digits for a byte, the bytes
-- of the layout of the key's numbers, and ic is the array of those of the points.
pub run_cli-format_vk :
    (constants : Result PoseidonConstants) (files : Files) (args : List Text) (id : Text)
    (n : KeyNumbers)
    → HasKey files args id n
    → (json : Text) × IsKeyJson (key_layout n) json
      × (run_cli constants files (text "format-vk" ∷ args)
          ≡ ok (
              join newline (
                key_report id
                  (or_default (get_flag args (text "--registry-id")) registry_contract_id)
                  json
                  (length n.ic))))
run_cli-format_vk constants files args id n h = (
  vk_json (key_layout n),
  vk_json-IsKeyJson (key_layout n) (layout_bytes n h.is_key),
  format_vk_report constants files args id n h,
)
