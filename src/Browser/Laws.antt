-- ===== src/Browser/Laws.antt =====
-- When generateProof of sdk/src/browser.ts returns, and what it throws.
use zksoroban.Prelude.{◌≡◌, ◌↔◌, ◌⊎◌, inl, inr, refl, some, true}
use zksoroban.Prelude.Int.{ℤ}
use zksoroban.Js.Text.{Text, text}
use zksoroban.Js.Bytes.{Bytes}
use zksoroban.Js.Value.{JsValue, bigint, integer_text}
use zksoroban.Types.{Thrown, code, is_zk_input_error, invalid_proof_format, proof_generation_failed}
use zksoroban.Types.Result.{Result, ok, err, >>=-eq-ok, >>-eq-ok}
use zksoroban.Types.Errors.{OnlyThrows, returns, throws, bind_throws, then_throws}
use zksoroban.Browser.{
  Binary, uint8_array, other_value, GenerateProofResult, require_bigint, require_bytes,
  as_proof_error, generate_proof,
}

module _ (loaded : Result (Unit {0}))
    (full_prove : Text → Text → Bytes → Bytes → Result GenerateProofResult) where
  -- The arguments have their types, snarkjs is loaded, and it makes the proof of their texts.
  pub record IsProved (secret commitment : JsValue) (wasm zkey : Binary) (out : GenerateProofResult)
      : Type 0 where
    pub s : ℤ
    pub c : ℤ
    pub w : Bytes
    pub z : Bytes
    pub secret_is : secret ≡ bigint s
    pub commitment_is : commitment ≡ bigint c
    pub wasm_is : wasm ≡ uint8_array w
    pub zkey_is : zkey ≡ uint8_array z
    pub has_loaded : loaded ≡ ok tt
    pub proved : full_prove (integer_text s) (integer_text c) w z ≡ ok out

  bigint-of_ok : (field : Text) (v : JsValue) (z : ℤ) → require_bigint field v ≡ ok z → v ≡ bigint z
  unfolding require_bigint
  bigint-of_ok field (bigint y) z h = cc
  bigint-of_ok field _ z h = absurd (cc)

  bytes-of_ok :
      (field : Text) (v : Binary) (b : Bytes) → require_bytes field v ≡ ok b → v ≡ uint8_array b
  unfolding require_bytes
  bytes-of_ok field (uint8_array y) b h = cc
  bytes-of_ok field (other_value v) b h = absurd (cc)

  as_proof_error-ok : {A : Type 0} (r : Result A) {a : A} → as_proof_error r ≡ ok a → r ≡ ok a
  as_proof_error-ok (ok b) h = h
  as_proof_error-ok (err t) h = absurd (cc)

  -- generateProof returns a result exactly if the secret and the commitment are bigints, the
  -- circuit and the key are Uint8Arrays, snarkjs loads, and fullProve returns the result for the
  -- decimal texts of the two numbers.
  pub generate_proof_iff :
      (secret commitment : JsValue) (wasm zkey : Binary) (out : GenerateProofResult)
      → (generate_proof loaded full_prove secret commitment wasm zkey ≡ ok out)
        ↔ IsProved secret commitment wasm zkey out
  unfolding generate_proof require_bigint require_bytes
  generate_proof_iff secret commitment wasm zkey out = (to, from)
    where
      to :
          generate_proof loaded full_prove secret commitment wasm zkey ≡ ok out
          → IsProved secret commitment wasm zkey out
      to h =
          let (s, e, h1) = >>=-eq-ok (require_bigint (text "secret") secret) _ h in
          let (c, f, h2) = >>=-eq-ok (require_bigint (text "commitment") commitment) _ h1 in
          let (w, g, h3) = >>=-eq-ok (require_bytes (text "wasm") wasm) _ h2 in
          let (z, k, h4) = >>=-eq-ok (require_bytes (text "zkey") zkey) _ h3 in
          let (l, h5) = >>-eq-ok loaded _ h4 in
          record {
            s = s;
            c = c;
            w = w;
            z = z;
            secret_is = bigint-of_ok _ secret s e;
            commitment_is = bigint-of_ok _ commitment c f;
            wasm_is = bytes-of_ok _ wasm w g;
            zkey_is = bytes-of_ok _ zkey z k;
            has_loaded = l;
            proved = as_proof_error-ok _ h5;
          }

      from :
          IsProved secret commitment wasm zkey out
          → generate_proof loaded full_prove secret commitment wasm zkey ≡ ok out
      from p = rw (p.secret_is, p.commitment_is, p.wasm_is, p.zkey_is, p.has_loaded, p.proved) refl

  -- What generateProof may throw.
  pub IsGenerateError : Thrown → Type 0
  IsGenerateError t =
      ((is_zk_input_error t ≡ true) × (code t ≡ some invalid_proof_format))
      ⊎ ((loaded ≡ err t) ⊎ (code t ≡ some proof_generation_failed))

  bigint_throws : (field : Text) (v : JsValue) → OnlyThrows IsGenerateError (require_bigint field v)
  unfolding require_bigint IsGenerateError
  bigint_throws field (bigint z) = returns
  bigint_throws field _ = throws (inl (refl, refl))

  bytes_throws : (field : Text) (v : Binary) → OnlyThrows IsGenerateError (require_bytes field v)
  unfolding require_bytes IsGenerateError
  bytes_throws field (uint8_array z) = returns
  bytes_throws field (other_value v) = throws (inl (refl, refl))

  loaded_throws : (r : Result (Unit {0})) → loaded ≡ r → OnlyThrows IsGenerateError r
  unfolding IsGenerateError
  loaded_throws (ok u) e = returns
  loaded_throws (err t) e = throws (inr (inl e))

  proof_throws : {A : Type 0} (r : Result A) → OnlyThrows IsGenerateError (as_proof_error r)
  unfolding IsGenerateError
  proof_throws (ok u) = returns
  proof_throws (err t) = throws (inr (inr refl))

  -- Whatever its arguments, generateProof throws a ZkInputError with code INVALID_PROOF_FORMAT, an
  -- error with code PROOF_GENERATION_FAILED, or what loading snarkjs throws.
  pub generate_proof-OnlyThrows :
      (secret commitment : JsValue) (wasm zkey : Binary)
      → OnlyThrows IsGenerateError (generate_proof loaded full_prove secret commitment wasm zkey)
  unfolding generate_proof
  generate_proof-OnlyThrows secret commitment wasm zkey = bind_throws (bigint_throws _ secret) λ s.
      bind_throws (bigint_throws _ commitment) λ c. bind_throws (bytes_throws _ wasm) λ w.
        bind_throws (bytes_throws _ zkey)
          λ z. then_throws (loaded_throws loaded refl) (proof_throws _)
