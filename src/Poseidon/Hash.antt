-- ===== src/Poseidon/Hash.antt =====
-- poseidon of sdk/src/poseidon.ts refines the specification.
use zksoroban.Prelude.{
  ℕ, zero, suc, ◌+◌, ◌-◌, ◌*◌, ◌≤◌, ◌<◌, ◌≡◌, refl, ap, ◌∙◌, List, [], ◌∷◌, some, length, map,
  length-map, get_elem?, arith, ◌==◌, ltb, false,
}
use zksoroban.Prelude.Int.{ℤ, pos, negsuc}
use zksoroban.Js.Value.{JsValue, array, bigint, items, of_list}
use zksoroban.Types.Result.{ok}
use zksoroban.Types.Yields.{Yields, yields, bind-Yields, Yields-eq}
use zksoroban.Poseidon.{
  PoseidonConstants, State, sbox, permute, poseidon, prepare_inputs, bn254_scalar_modulus,
  mod_value, n_rounds_p, max_inputs, rounds_of, normalize_input, normalize_inputs,
}
use zksoroban.Poseidon.Field.{IsReduced}
use zksoroban.Poseidon.Spec.{Vector, Parameters, hash}
use zksoroban.Poseidon.Refines.{
  value_at, matrix_at, Holds, IsSquare, Represents, sbox-Represents, add_constants-Represents,
  mix-Represents,
}
use zksoroban.Poseidon.Rounds.{
  sum-IsReduced, full-AllReduced, full_round-Represents, full_rounds-Represents,
  partial_rounds-Represents,
}

-- The number of partial rounds for the width `t`.
abbrev pub partial_count : ℕ → ℕ
partial_count t = rounds_of (get_elem? n_rounds_p (t - 2))

-- The constants have arrays for the width `t`, each at least as long as the rounds read.
pub record IsShaped (k : PoseidonConstants) (t : ℕ) : Type 0 where
  pub c : List ℤ
  pub s : List ℤ
  pub m : List (List ℤ)
  pub p : List (List ℤ)
  pub has_c : get_elem? k.c (t - 2) ≡ some c
  pub has_s : get_elem? k.s (t - 2) ≡ some s
  pub has_m : get_elem? k.m (t - 2) ≡ some m
  pub has_p : get_elem? k.p (t - 2) ≡ some p
  pub room_c : 8 * t + partial_count t ≤ length c
  pub room_s : (t * 2 - 1) * partial_count t ≤ length s
  pub square_m : IsSquare t m
  pub square_p : IsSquare t p

abbrev pub parameters_of : {k : PoseidonConstants} {t : ℕ} → IsShaped k t → Parameters
parameters_of h = record {
  c = value_at h.c;
  s = value_at h.s;
  m = matrix_at h.m;
  p = matrix_at h.p;
}

early_room : (t n i : ℕ) → 8 * t ≤ n → i < 3 → (0 + i + 1) * t + t ≤ n
early_room t n zero h small = omega arith
early_room t n (suc zero) h small = omega arith
early_room t n (suc (suc zero)) h small = omega arith
early_room t n (suc (suc (suc i))) h small = absurd (omega arith)

late_room : (t count n i : ℕ) → 8 * t + count ≤ n → i < 3 → 5 * t + count + (0 + i) * t + t ≤ n
late_room t count n zero h small = omega arith
late_room t count n (suc zero) h small = omega arith
late_room t count n (suc (suc zero)) h small = omega arith
late_room t count n (suc (suc (suc i))) h small = absurd (omega arith)

first_of : (t : ℕ) (f : Vector) (s : State) → Represents t f s → s.0 ≡ f 0
first_of t f (x, xs) (size, (h, hs)) = h

pub permute-hash :
    (k : PoseidonConstants) (t : ℕ) (f : Vector) (state : State) (h : IsShaped k t)
    → 0 < t
    → Represents t f state
    → Yields (λ v. v ≡ hash (parameters_of h) t (partial_count t) f) (permute k t state)
unfolding permute hash
permute-hash k t f state h positive held =
    rw (h.has_c, h.has_s, h.has_m, h.has_p)
      (bind-Yields
        (add_constants-Represents h.c t f 0 state (let room = h.room_c in omega arith) held)
        λ s1 h1.
          bind-Yields
            (full_rounds-Represents h.c h.m t (λ round. (round + 1) * t) 3 0 _ s1 h.square_m
              (λ i small. early_room t (length h.c) i (let room = h.room_c in omega arith) small)
              h1)
            λ s2 h2.
              bind-Yields
                (full_round-Represents h.c h.p t (4 * t) _ s2 h.square_p
                  (let room = h.room_c in omega arith) h2)
                λ s3 h3.
                  bind-Yields
                    (partial_rounds-Represents h.c h.s t (partial_count t) 0 _ s3 positive
                      (let room = h.room_c in omega arith)
                      (let start : 0 + partial_count t ≡ partial_count t = omega arith in
                        rw start h.room_s)
                      (full-AllReduced t _ _ _ _) h3)
                    λ s4 h4.
                      bind-Yields
                        (full_rounds-Represents h.c h.m t
                          (λ round. 5 * t + partial_count t + round * t) 3 0 _ s4 h.square_m
                          (λ i small. late_room t (partial_count t) (length h.c) i h.room_c small)
                          h4)
                        λ s5 h5.
                          bind-Yields
                            (mix-Represents h.m t _ (sbox s5) h.square_m
                              (sbox-Represents t _ s5 h5))
                            λ s6 h6. yields s6.0 (first_of t _ s6 h6))

-- An array of bigints.
abbrev pub bigints : List ℤ → JsValue
bigints xs = array (of_list (map bigint xs))

pub items-bigints : (xs : List ℤ) → items (of_list (map bigint xs)) ≡ map bigint xs
items-bigints [] = refl
items-bigints (x ∷ xs) = ap (λ vs. bigint x ∷ vs) (items-bigints xs)

pub normalize_inputs-bigint :
    (xs : List ℤ) → normalize_inputs (map bigint xs) ≡ ok (map mod_value xs)
unfolding normalize_inputs normalize_input
normalize_inputs-bigint [] = refl
normalize_inputs-bigint (x ∷ xs) = rw (normalize_inputs-bigint xs) refl

value_at-Holds :
    (f : Vector) (i : ℕ) (xs : List ℤ)
    → ((j : ℕ) → j < length xs → value_at xs j ≡ f (i + j))
    → Holds f i xs
value_at-Holds f i [] e = tt
value_at-Holds f i (x ∷ xs) e = (
  let start : i + 0 ≡ i = omega arith in rw start at (e 0 (omega arith)),
  value_at-Holds f (suc i) xs (λ j small.
      let step : i + suc j ≡ suc i + j = omega arith in rw step at (e (suc j) (omega arith))),
)

-- The vector with a zero in front of the residues of the inputs.
abbrev pub input_vector : List ℤ → Vector
input_vector xs = value_at (pos 0 ∷ map mod_value xs)

-- With constants for the width, one to sixteen bigints hash to the value of the specification.
pub poseidon-hash :
    (k : PoseidonConstants) (xs : List ℤ) (h : IsShaped k (length xs + 1))
    → 0 < length xs
    → length xs ≤ 16
    → poseidon (ok k) (bigints xs)
      ≡ ok
          (hash (parameters_of h) (length xs + 1) (partial_count (length xs + 1)) (input_vector xs))
unfolding poseidon prepare_inputs
poseidon-hash k xs h some_input few =
    let not_empty : (length xs == 0) ≡ false = ground arith in
    let not_many : ltb max_inputs (length xs) ≡ false = ground arith in
    let state : State = (pos 0, map mod_value xs) in
    let held : Represents (length xs + 1) (input_vector xs) state = (
      omega (arith, length-map xs mod_value),
      value_at-Holds (input_vector xs) 0 (pos 0 ∷ map mod_value xs)
          (λ j small. let start : 0 + j ≡ j = omega arith in rw start refl),
    ) in
    rw
      (
        items-bigints xs,
        length-map xs bigint,
        not_empty,
        not_many,
        normalize_inputs-bigint xs,
        length-map xs mod_value,
      )
      (Yields-eq (permute-hash k (length xs + 1) (input_vector xs) state h (omega arith) held))

number_of : (a : ℤ) → IsReduced a → (n : ℕ) × (n < bn254_scalar_modulus) × (a ≡ pos n)
number_of (pos n) h = (n, h, refl)
number_of (negsuc n) h = absurd h

-- Such a hash is an integer from zero to below the order of the field.
pub poseidon-IsReduced :
    (k : PoseidonConstants) (xs : List ℤ) (h : IsShaped k (length xs + 1))
    → 0 < length xs
    → length xs ≤ 16
    → (n : ℕ) × (n < bn254_scalar_modulus) × (poseidon (ok k) (bigints xs) ≡ ok (pos n))
poseidon-IsReduced k xs h some_input few =
    let reduced : IsReduced
        (hash (parameters_of h) (length xs + 1) (partial_count (length xs + 1)) (input_vector xs)) =
      unfold hash in (sum-IsReduced (length xs + 1) _) in
    let (n, small, same) = number_of _ reduced in
    (n, small, poseidon-hash k xs h some_input few ∙ ap ok same)
