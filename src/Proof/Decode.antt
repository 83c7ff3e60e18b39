-- ===== src/Proof/Decode.antt =====
-- The layout loses nothing: every number of a proof is read back from the calldata.
use zksoroban.Prelude.{
  ℕ, suc, zero, ◌<◌, ◌^◌, ◌≡◌, refl, ap, List, [], ◌∷◌, ◌++◌, arith, length, map, take, drop, sym,
  ◌∙◌,
}
use zksoroban.Js.Bytes.{Bytes, concat, be_value}
use zksoroban.Js.Value.{JsValue}
use zksoroban.Types.{SorobanProofCalldata}
use zksoroban.Types.Result.{ok, ok-injective}
use zksoroban.Validate.Shape.{
  IsSignal, numeral, IsCoordinate, decimal, IsPoint, point, IsPair, pair, AreSignals, done, more,
  IsSignalArray, signals, Coordinates, IsProof,
}
use zksoroban.Proof.{format_proof}
use zksoroban.Proof.Words.{be_value-bigint_to_bytes32, length-bigint_to_bytes32}
use zksoroban.Proof.Encode.{word, field_fits_word}
use zksoroban.Proof.Layout.{IsExpiry, absent, ledger, layout}
use zksoroban.Proof.Format.{format_proof_complete}

-- The number in the k-th 32 bytes.
unfoldable pub word_at : ℕ → Bytes → ℕ
word_at zero bytes = be_value 0 (take 32 bytes)
word_at (suc k) bytes = word_at k (drop 32 bytes)

-- A reader of the contracts' layout, written from the documentation of the layout.
unfoldable pub decode : SorobanProofCalldata → Coordinates × List ℕ
decode c = (
  record {
    a_x = word_at 0 c.proof_a;
    a_y = word_at 1 c.proof_a;
    b_x_c0 = word_at 1 c.proof_b;
    b_x_c1 = word_at 0 c.proof_b;
    b_y_c0 = word_at 3 c.proof_b;
    b_y_c1 = word_at 2 c.proof_b;
    c_x = word_at 0 c.proof_c;
    c_y = word_at 1 c.proof_c;
  },
  map (be_value 0) c.public_inputs,
)

take_front {ℓ} : {A : Type ℓ} (k : ℕ) (xs ys : List A) → length xs ≡ k → take k (xs ++ ys) ≡ xs
take_front zero [] ys h = refl
take_front (suc k) (x ∷ xs) ys h = ap (λ r. x ∷ r) (take_front k xs ys (omega arith))
take_front _ _ ys h = absurd (omega arith)

drop_front {ℓ} : {A : Type ℓ} (k : ℕ) (xs ys : List A) → length xs ≡ k → drop k (xs ++ ys) ≡ ys
drop_front zero [] ys h = refl
drop_front (suc k) (x ∷ xs) ys h = drop_front k xs ys (omega arith)
drop_front _ _ ys h = absurd (omega arith)

word_at-zero : (n : ℕ) (rest : Bytes) → n < 2 ^ 256 → word_at 0 (word n ++ rest) ≡ n
unfolding word_at
word_at-zero n rest h =
    rw (take_front 32 (word n) rest (length-bigint_to_bytes32 n h)) (be_value-bigint_to_bytes32 n h)

word_at-suc :
    (k n : ℕ) (rest : Bytes) → n < 2 ^ 256 → word_at (suc k) (word n ++ rest) ≡ word_at k rest
unfolding word_at
word_at-suc k n rest h = rw (drop_front 32 (word n) rest (length-bigint_to_bytes32 n h)) refl

coordinate_fits : {v : JsValue} {n : ℕ} → IsCoordinate v n → n < 2 ^ 256
coordinate_fits (decimal {s} {n} d e h) = field_fits_word n h

signal_fits : {v : JsValue} {n : ℕ} → IsSignal v n → n < 2 ^ 256
signal_fits (numeral {s} {n} d e h) = field_fits_word n h

point_decodes :
    {v : JsValue} {x y : ℕ}
    → IsPoint v x y
    → (word_at 0 (concat (word x ∷ word y ∷ [])) ≡ x)
      × (word_at 1 (concat (word x ∷ word y ∷ [])) ≡ y)
unfolding concat
point_decodes (point {x} {y} p q) = (
  word_at-zero x _ (coordinate_fits p),
  word_at-suc 0 x _ (coordinate_fits p) ∙ word_at-zero y _ (coordinate_fits q),
)

pair_decodes :
    {v : JsValue} {a b c d : ℕ}
    → IsPair v a b c d
    → (word_at 0 (concat (word b ∷ word a ∷ word d ∷ word c ∷ [])) ≡ b)
      × (word_at 1 (concat (word b ∷ word a ∷ word d ∷ word c ∷ [])) ≡ a)
      × (word_at 2 (concat (word b ∷ word a ∷ word d ∷ word c ∷ [])) ≡ d)
      × (word_at 3 (concat (word b ∷ word a ∷ word d ∷ word c ∷ [])) ≡ c)
unfolding concat
pair_decodes (pair (point {x = a} {y = b} p q) (point {x = c} {y = d} r s)) =
    let fa = coordinate_fits p in
    let fb = coordinate_fits q in
    let fc = coordinate_fits r in
    let fd = coordinate_fits s in
    (
      word_at-zero b _ fb,
      word_at-suc 0 b _ fb ∙ word_at-zero a _ fa,
      word_at-suc 1 b _ fb ∙ word_at-suc 0 a _ fa ∙ word_at-zero d _ fd,
      word_at-suc 2 b _ fb ∙ word_at-suc 1 a _ fa ∙ word_at-suc 0 d _ fd ∙ word_at-zero c _ fc,
    )

signals_decode :
    {vs : List JsValue} {ns : List ℕ}
    → AreSignals vs ns
    → (ms : List ℕ) → map (be_value 0) (map word ms) ≡ ms
    → map (be_value 0) (map word (ns ++ ms)) ≡ ns ++ ms
signals_decode done ms h = h
signals_decode (more {n} s rest) ms h =
    rw (be_value-bigint_to_bytes32 n (signal_fits s), signals_decode rest ms h)

expiry_decodes : {e : JsValue} {ms : List ℕ} → IsExpiry e ms → map (be_value 0) (map word ms) ≡ ms
expiry_decodes absent = refl
expiry_decodes (ledger {n} h) = rw (be_value-bigint_to_bytes32 n (omega arith))

inputs_decode :
    {s e : JsValue} {ns ms : List ℕ}
    → IsSignalArray s ns
    → IsExpiry e ms
    → map (be_value 0) (map word (ns ++ ms)) ≡ ns ++ ms
inputs_decode (signals are) x = signals_decode are _ (expiry_decodes x)

decode-layout :
    {p s e : JsValue} {n : Coordinates} {ns ms : List ℕ}
    → IsProof p n
    → IsSignalArray s ns
    → IsExpiry e ms
    → decode (layout n (ns ++ ms)) ≡ (n, ns ++ ms)
unfolding decode layout
decode-layout p s e =
    let (ax, ay) = point_decodes p.point_a in
    let (cx, cy) = point_decodes p.point_c in
    let (b0, b1, b2, b3) = pair_decodes p.pair_b in
    rw (ax, ay, cx, cy, b0, b1, b2, b3, inputs_decode s e)

-- The calldata of a well-formed proof, read by the layout, gives the proof's eight coordinates
-- and its public signals back, with the expiry as the last input if there is one.
pub decode-format_proof :
    (p s e : JsValue) (n : Coordinates) (ns ms : List ℕ) (c : SorobanProofCalldata)
    → IsProof p n
    → IsSignalArray s ns
    → IsExpiry e ms
    → format_proof p s e ≡ ok c
    → decode c ≡ (n, ns ++ ms)
decode-format_proof p s e n ns ms c is_p is_s is_e h =
    let same : layout n (ns ++ ms) ≡ c =
      ok-injective (sym (format_proof_complete p s e n ns ms is_p is_s is_e) ∙ h) in
    rw (← same) (decode-layout is_p is_s is_e)
