-- ===== src/Tests/Poseidon.antt =====
-- Poseidon of one input, with small constants for a state of two elements.
use zksoroban.Prelude.{
  ℕ, zero, suc, ◌<◌, ◌≤◌, ◌≡◌, ◌⊎◌, refl, List, [], ◌∷◌, arith, replicate, map, some, none, length,
  length-replicate,
}
use zksoroban.Prelude.Int.{ℤ, pos}
use zksoroban.Js.Value.{JsValue, array, bigint, cons, nil, string}
use zksoroban.Types.{Thrown, code, invalid_public_input}
use zksoroban.Types.Result.{ok, err}
use zksoroban.Poseidon.{PoseidonConstants, bn254_scalar_modulus, poseidon}
use zksoroban.Poseidon.Cached.{poseidon_calls}
use zksoroban.Poseidon.Refines.{IsSquare, row_at}
use zksoroban.Poseidon.Spec.{hash}
use zksoroban.Poseidon.Hash.{
  IsShaped, parameters_of, input_vector, bigints, poseidon-hash, poseidon-IsReduced,
}
use zksoroban.Poseidon.Calls.{poseidon_inputs, poseidon_calls-uncached}

abbrev pub rows : List (List ℤ)
rows = (pos 1 ∷ pos 2 ∷ []) ∷ (pos 3 ∷ pos 4 ∷ []) ∷ []

abbrev pub constants : PoseidonConstants
constants = record {
  c = replicate 72 (pos 5) ∷ [];
  s = replicate 168 (pos 6) ∷ [];
  m = rows ∷ [];
  p = rows ∷ [];
}

rows-IsSquare : IsSquare 2 rows
rows-IsSquare = record { height = omega arith; width = wide }
  where
    wide : (i : ℕ) → i < 2 → 2 ≤ length (row_at rows i)
    wide zero h = omega arith
    wide (suc zero) h = omega arith
    wide (suc (suc i)) h = absurd (omega arith)

pub constants-IsShaped : IsShaped constants 2
constants-IsShaped = record {
  c = replicate 72 (pos 5);
  s = replicate 168 (pos 6);
  m = rows;
  p = rows;
  has_c = refl;
  has_s = refl;
  has_m = refl;
  has_p = refl;
  room_c = omega (arith, length-replicate 72 (pos 5));
  room_s = omega (arith, length-replicate 168 (pos 6));
  square_m = rows-IsSquare;
  square_p = rows-IsSquare;
}

poseidon-hash_example :
    poseidon (ok constants) (bigints (pos 42 ∷ []))
    ≡ ok (hash (parameters_of constants-IsShaped) 2 56 (input_vector (pos 42 ∷ [])))
poseidon-hash_example =
    poseidon-hash constants (pos 42 ∷ []) constants-IsShaped (omega arith) (omega arith)

poseidon-IsReduced_example :
    (n : ℕ) × (n < bn254_scalar_modulus)
    × (poseidon (ok constants) (bigints (pos 42 ∷ [])) ≡ ok (pos n))
poseidon-IsReduced_example =
    poseidon-IsReduced constants (pos 42 ∷ []) constants-IsShaped (omega arith) (omega arith)

poseidon_inputs_example :
    ((xs : List ℤ) × (array (cons (bigint (pos 1)) (cons (string []) nil)) ≡ bigints xs)
      × (0 < length xs)
      × (length xs ≤ 16))
    ⊎ ((t : Thrown) × (poseidon
            (ok constants)
            (array (cons (bigint (pos 1)) (cons (string []) nil)))
          ≡ err t)
        × (code t ≡ some invalid_public_input))
poseidon_inputs_example =
    poseidon_inputs (ok constants) (array (cons (bigint (pos 1)) (cons (string []) nil)))

abbrev inputs : List JsValue
inputs = bigints (pos 1 ∷ []) ∷ string [] ∷ bigints (pos 2 ∷ []) ∷ []

poseidon_calls-uncached_example :
    (poseidon_calls (ok constants) (record { constants = none; reads = 0 }) inputs).0
    ≡ map (poseidon (ok constants)) inputs
poseidon_calls-uncached_example = poseidon_calls-uncached (ok constants) inputs
