-- ===== src/Proof/Format.antt =====
-- formatProof: which inputs it takes, what it returns, and why it throws.
use zksoroban.Prelude.{
  ℕ, ◌≡◌, refl, ap, true, false, List, [], ◌∷◌, ◌++◌, arith, ltb, map, ◌⊎◌, Bool-cases, inl, inr,
  sym, ◌∙◌,
}
use zksoroban.Prelude.Int.{pos}
use mathlib.Core.List.{map-append}
use zksoroban.Js.Text.{text}
use zksoroban.Js.Value.{JsValue, undefined, integer}
use zksoroban.Types.{Thrown, SorobanProofCalldata}
use zksoroban.Js.Bytes.{Bytes}
use zksoroban.Types.Result.{
  Result, ok, err, ok-injective, err-injective, ◌>>=◌, >>-eq-ok, >>=-eq-ok,
}
use zksoroban.Validate.{validate_proof_input}
use zksoroban.Validate.Shape.{IsSignalArray, Coordinates, IsProof}
use zksoroban.Validate.Complete.{validate_proof_input-ok}
use zksoroban.Validate.Sound.{IsProof-of_ok}
use zksoroban.Proof.{format_proof, expiry_words, max_u32}
use zksoroban.Proof.Encode.{
  word, encode_g1-ok, encode_g2-ok, encode_public_inputs-ok, lacks_coordinates-ok, length_g1,
  length_g2,
}
use zksoroban.Proof.Layout.{IsExpiry, absent, ledger, layout}

-- On a well-formed proof only the expiry can still make it throw: the later guards of the code
-- never fire.
pub format_proof-expiry :
    {p s : JsValue} {n : Coordinates} {ns : List ℕ} (expiry : JsValue)
    → IsProof p n
    → IsSignalArray s ns
    → format_proof p s expiry ≡ (
        expiry_words expiry >>= λ words.
        ok (record (layout n ns) { public_inputs = map word ns ++ words }))
unfolding format_proof layout
format_proof-expiry expiry p s = rw (
  validate_proof_input-ok p s,
  p.protocol,
  p.groth16,
  p.has_a,
  p.has_b,
  p.has_c,
  lacks_coordinates-ok p.point_a p.pair_b p.point_c,
  encode_public_inputs-ok s,
  encode_g1-ok (text "pi_a") p.point_a,
  encode_g2-ok (text "pi_b") p.pair_b,
  encode_g1-ok (text "pi_c") p.point_c,
  length_g1 p.point_a,
  length_g1 p.point_c,
  length_g2 p.pair_b,
)

expiry_words-ok : {e : JsValue} {ms : List ℕ} → IsExpiry e ms → expiry_words e ≡ ok (map word ms)
unfolding expiry_words
expiry_words-ok absent = refl
expiry_words-ok (ledger {n} h) = let fits : ltb max_u32 n ≡ false = ground arith in rw fits

IsExpiry-of_ok :
    (e : JsValue) (words : List Bytes)
    → expiry_words e ≡ ok words
    → (ms : List ℕ) × IsExpiry e ms × (words ≡ map word ms)
unfolding expiry_words
IsExpiry-of_ok undefined words h = ([], absent, cc)
IsExpiry-of_ok (integer (pos n)) words h = elim (Bool-cases (ltb max_u32 n)) [
  | inl large ↦ absurd (small_fails large h)
  | inr small ↦ (n ∷ [], ledger (ground arith), ground arith)
]
  where
    small_fails : ltb max_u32 n ≡ true → expiry_words (integer (pos n)) ≡ ok words → ⊥
    small_fails large h = ground arith
IsExpiry-of_ok _ words h = absurd (cc)

-- A well-formed proof with well-formed public signals and an expiry that is absent or an unsigned
-- 32-bit integer is encoded, without a throw, in the layout of the contracts.
pub format_proof_complete :
    (p s e : JsValue) (n : Coordinates) (ns ms : List ℕ)
    → IsProof p n
    → IsSignalArray s ns
    → IsExpiry e ms
    → format_proof p s e ≡ ok (layout n (ns ++ ms))
unfolding layout
format_proof_complete p s e n ns ms is_p is_s is_e =
    format_proof-expiry e is_p is_s ∙ rw (expiry_words-ok is_e, map-append)

-- Whatever formatProof returns is the layout of a well-formed proof, signals and expiry.
pub format_proof_sound :
    (p s e : JsValue) (c : SorobanProofCalldata)
    → format_proof p s e ≡ ok c
    → (n : Coordinates) × (ns ms : List ℕ) × IsProof p n
      × IsSignalArray s ns
      × IsExpiry e ms
      × (c ≡ layout n (ns ++ ms))
format_proof_sound p s e c h =
    let (n, ns, is_p, is_s) = IsProof-of_ok p s (validated p s e c h) in
    let (words, made, rest) =
      >>=-eq-ok (expiry_words e) _ (sym (format_proof-expiry e is_p is_s) ∙ h) in
    let (ms, is_e, _) = IsExpiry-of_ok e words made in
    (
      n,
      ns,
      ms,
      is_p,
      is_s,
      is_e,
      ok-injective (sym h ∙ format_proof_complete p s e n ns ms is_p is_s is_e),
    )
  where
    validated :
        (p s e : JsValue) (c : SorobanProofCalldata)
        → format_proof p s e ≡ ok c
        → validate_proof_input p s ≡ ok tt
    validated p s e c h = unfold format_proof in ((>>-eq-ok (validate_proof_input p s) _ h).0)

-- What validateProofInput throws, formatProof throws.
format_proof-rejected :
    (p s e : JsValue) {t : Thrown} → validate_proof_input p s ≡ err t → format_proof p s e ≡ err t
unfolding format_proof
format_proof-rejected p s e v = rw v

err_of_map :
    {A B : Type 0} (r : Result A) (f : A → B) {t : Thrown}
    → (r >>= λ a. ok (f a)) ≡ err t
    → r ≡ err t
err_of_map (ok a) f h = cc
err_of_map (err u) f h = cc

-- An exception of formatProof is the one that validateProofInput throws on the same proof and
-- signals, or, where those are accepted, the one for the expiry.
pub format_proof_throws :
    (p s e : JsValue) (thrown : Thrown)
    → format_proof p s e ≡ err thrown
    → (validate_proof_input p s ≡ err thrown)
      ⊎ ((validate_proof_input p s ≡ ok tt) × (expiry_words e ≡ err thrown))
format_proof_throws p s e thrown h = go (validate_proof_input p s) refl
  where
    go :
        (r : Result (Unit {0}))
        → validate_proof_input p s ≡ r
        → (validate_proof_input p s ≡ err thrown)
          ⊎ ((validate_proof_input p s ≡ ok tt) × (expiry_words e ≡ err thrown))
    go (err t) v = inl (v ∙ ap err (err-injective (sym (format_proof-rejected p s e v) ∙ h)))
    go (ok u) v =
        let (n, ns, is_p, is_s) = IsProof-of_ok p s v in
        inr (v, err_of_map (expiry_words e) _ (sym (format_proof-expiry e is_p is_s) ∙ h))
