-- ===== src/Verify/OffChain/Errors.antt =====
-- What verifyOffChain throws.
use zksoroban.Prelude.{◌≡◌, refl, Bool, not, ◌&&◌, ◌⊎◌, inl, inr}
use zksoroban.Js.Value.{
  JsValue, undefined, null, boolean, integer, other_number, bigint, string, array, object, property,
  field_of, is_array, equals_text,
}
use zksoroban.Js.Text.{text}
use zksoroban.Types.{Thrown, soroban_zk_error, invalid_proof_format, invalid_public_input}
use zksoroban.Types.Result.{Result, ok, err}
use zksoroban.Types.Errors.{OnlyThrows, returns, throws, bind_throws, then_throws, throw_if_throws}
use zksoroban.Verify.Run.Laws.{IsTyped}
use zksoroban.Verify.OffChain.{is_groth16, verify_off_chain}

groth16-OnlyThrows : {P : Thrown → Type 0} (v : JsValue) → OnlyThrows P (is_groth16 v)
unfolding is_groth16 property
groth16-OnlyThrows (array vs) = returns
groth16-OnlyThrows (object fs) = returns
groth16-OnlyThrows undefined = returns
groth16-OnlyThrows null = returns
groth16-OnlyThrows (boolean b) = returns
groth16-OnlyThrows (integer z) = returns
groth16-OnlyThrows (other_number s) = returns
groth16-OnlyThrows (bigint z) = returns
groth16-OnlyThrows (string s) = returns

module _ (groth16_verify : JsValue → JsValue → JsValue → Result Bool) (s k : JsValue) where
  -- A typed error, or what snarkjs throws on the arguments.
  abbrev pub IsExpected : JsValue → Thrown → Type 0
  IsExpected p t = IsTyped t ⊎ (groth16_verify k s p ≡ err t)

  own_error :
      (p : JsValue) (r : Result Bool) → groth16_verify k s p ≡ r → OnlyThrows (IsExpected p) r
  own_error p (ok b) e = returns
  own_error p (err t) e = throws (inr e)

  -- Whatever its arguments, verifyOffChain throws a SorobanZkError, or what snarkjs throws on the
  -- key, the signals and the proof.
  pub verify_off_chain-OnlyThrows :
      (p : JsValue) → OnlyThrows (IsExpected p) (verify_off_chain groth16_verify p s k)
  unfolding verify_off_chain is_groth16 property
  verify_off_chain-OnlyThrows undefined = throws (inl refl)
  verify_off_chain-OnlyThrows null = throws (inl refl)
  verify_off_chain-OnlyThrows (boolean b) = throws (inl refl)
  verify_off_chain-OnlyThrows (integer z) = throws (inl refl)
  verify_off_chain-OnlyThrows (other_number t) = throws (inl refl)
  verify_off_chain-OnlyThrows (bigint z) = throws (inl refl)
  verify_off_chain-OnlyThrows (string t) = throws (inl refl)
  verify_off_chain-OnlyThrows (array vs) = throws (inl refl)
  verify_off_chain-OnlyThrows (object fs) =
      then_throws
        (throw_if_throws (not (equals_text (field_of fs (text "protocol")) (text "groth16")))
          (soroban_zk_error (text "proof must be a Groth16 snarkjs proof object")
            invalid_proof_format)
          (inl refl))
        (then_throws
          (throw_if_throws
            (not (
              is_array (field_of fs (text "pi_a"))
              && is_array (field_of fs (text "pi_b"))
              && is_array (field_of fs (text "pi_c"))))
            (soroban_zk_error
              (text "proof is missing required Groth16 coordinates (pi_a, pi_b, pi_c)")
              invalid_proof_format)
            (inl refl))
          (then_throws
            (throw_if_throws (not (is_array s))
              (soroban_zk_error (text "publicSignals must be an array of field element strings")
                invalid_public_input)
              (inl refl))
            (bind_throws (groth16-OnlyThrows k) λ is_key.
              then_throws
                (throw_if_throws (not is_key)
                  (soroban_zk_error
                    (text "verificationKey must be a Groth16 verification key object")
                    invalid_proof_format)
                  (inl refl))
                (own_error (object fs) (groth16_verify k s (object fs)) refl))))
