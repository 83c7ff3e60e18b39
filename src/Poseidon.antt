-- ===== src/Poseidon.antt =====
-- sdk/src/poseidon.ts: the Poseidon hash over the scalar field of BN254.
pub mod Field
pub mod Spec
pub mod Refines
pub mod Sparse
pub mod Rounds
pub mod Hash
pub mod Cached
pub mod Calls
use zksoroban.Prelude.{
  ℕ, zero, suc, ◌+◌, ◌-◌, ◌*◌, ◌/◌, ◌||◌, Bool, true, false, List, [], ◌∷◌, ◌++◌, Option, none,
  some, map, length, get_elem?, ltb, ◌==◌, if◌then◌else◌,
}
use zksoroban.Prelude.Int.{ℤ, pos, negsuc, ◌+ℤ◌, ◌*ℤ◌, rem, is_nonneg}
use zksoroban.Js.Text.{Text, text}
use zksoroban.Js.Numeral.{to_string}
use zksoroban.Js.Value.{JsValue, array, bigint, items}
use zksoroban.Types.{Thrown, native_error, soroban_zk_error, invalid_public_input}
use zksoroban.Types.Result.{Result, ok, err, throw_if, ◌>>=◌, ◌>>◌}

unfoldable pub bn254_scalar_modulus : ℕ
bn254_scalar_modulus = 21888242871839275222246405745257275088548364400416034343698204186575808495617

abbrev pub n_rounds_f : ℕ
n_rounds_f = 8

abbrev pub n_rounds_p : List ℕ
n_rounds_p = 56 ∷ 57 ∷ 56 ∷ 60 ∷ 60 ∷ 63 ∷ 64 ∷ 63 ∷ 60 ∷ 66 ∷ 60 ∷ 65 ∷ 70 ∷ 60 ∷ 64 ∷ 68 ∷ []

abbrev pub max_inputs : ℕ
max_inputs = length n_rounds_p

-- `PoseidonPreparedConstants`
pub record PoseidonConstants : Type 0 where
  pub c : List (List ℤ)
  pub s : List (List ℤ)
  pub m : List (List (List ℤ))
  pub p : List (List (List ℤ))

unfoldable pub mod_value : ℤ → ℤ
mod_value value =
    let reduced = rem value bn254_scalar_modulus in
    if is_nonneg reduced then reduced else reduced +ℤ pos bn254_scalar_modulus

unfoldable pub add : ℤ → ℤ → ℤ
add a b = mod_value (a +ℤ b)

unfoldable pub mul : ℤ → ℤ → ℤ
mul a b = mod_value (a *ℤ b)

unfoldable pub pow5 : ℤ → ℤ
pow5 value = let squared = mul value value in let fourth = mul squared squared in mul value fourth

abbrev pub mixed_types : Thrown
mixed_types = native_error (text "Cannot mix BigInt and other types, use explicit conversions")

abbrev pub cannot_read : ℕ → Thrown
cannot_read i =
    native_error
      (text "Cannot read properties of undefined (reading '" ++ to_string 10 i ++ text "')")

-- `xs[i]` where arithmetic uses it: the array or its element may be undefined.
unfoldable pub entry : Option (List ℤ) → ℕ → Result ℤ
entry none i = err (cannot_read i)
entry (some xs) i = elim (get_elem? xs i) [ none ↦ err mixed_types | some v ↦ ok v ]

-- `M[row][column]`
unfoldable pub cell : Option (List (List ℤ)) → ℕ → ℕ → Result ℤ
cell none row column = err (cannot_read row)
cell (some rows) row column = entry (get_elem? rows row) column

-- The state has a first element.
abbrev pub State : Type 0
State = ℤ × List ℤ

abbrev pub cells : State → List ℤ
cells (x, xs) = x ∷ xs

abbrev pub sbox : State → State
sbox (x, xs) = (pow5 x, map pow5 xs)

-- `state.map((value, index) => add(value, C[offset + index]))`
unfoldable pub add_constants_from : Option (List ℤ) → ℕ → List ℤ → Result (List ℤ)
add_constants_from c offset [] = ok []
add_constants_from c offset (value ∷ rest) = do
  constant ← entry c offset
  sums ← add_constants_from c (suc offset) rest
  ok (add value constant ∷ sums)

unfoldable pub add_constants : Option (List ℤ) → ℕ → State → Result State
add_constants c offset (x, xs) = do
  constant ← entry c offset
  sums ← add_constants_from c (suc offset) xs
  ok (add x constant, sums)

-- `state.reduce((acc, value, row) => add(acc, mul(M[row][column], value)), 0n)`, from a row on.
unfoldable pub mix_column : Option (List (List ℤ)) → ℕ → ℕ → ℤ → List ℤ → Result ℤ
mix_column m column row acc [] = ok acc
mix_column m column row acc (value ∷ rest) = do
  factor ← cell m row column
  mix_column m column (suc row) (add acc (mul factor value)) rest

-- The columns from one on, one for each element of the last argument.
unfoldable pub mix_from : Option (List (List ℤ)) → List ℤ → ℕ → List ℤ → Result (List ℤ)
mix_from m state column [] = ok []
mix_from m state column (_ ∷ rest) = do
  value ← mix_column m column 0 (pos 0) state
  values ← mix_from m state (suc column) rest
  ok (value ∷ values)

unfoldable pub mix : Option (List (List ℤ)) → State → Result State
mix m (x, xs) = do
  value ← mix_column m 0 0 (pos 0) (x ∷ xs)
  values ← mix_from m (x ∷ xs) 1 xs
  ok (value, values)

-- `state = state.map(pow5)`, the constants from an offset on, and the matrix.
unfoldable pub full_round : Option (List ℤ) → Option (List (List ℤ)) → ℕ → State → Result State
full_round c m offset state = do sums ← add_constants c offset (sbox state); mix m sums

-- `count` rounds from `round` on; the constants of a round start at `offset round`.
unfoldable pub full_rounds :
    Option (List ℤ) → Option (List (List ℤ)) → (ℕ → ℕ) → ℕ → ℕ → State → Result State
full_rounds c m offset zero round state = ok state
full_rounds c m offset (suc count) round state = do
  next ← full_round c m (offset round) state
  full_rounds c m offset count (suc round) next

-- `state.reduce((acc, value, index) => add(acc, mul(S[base + index], value)), 0n)`
unfoldable pub dot : Option (List ℤ) → ℕ → ℤ → List ℤ → Result ℤ
dot s index acc [] = ok acc
dot s index acc (value ∷ rest) = do
  factor ← entry s index
  dot s (suc index) (add acc (mul factor value)) rest

-- `state[k] = add(state[k], mul(state[0], S[…]))` from k = 1 on.
unfoldable pub add_multiples : Option (List ℤ) → ℕ → ℤ → List ℤ → Result (List ℤ)
add_multiples s index first [] = ok []
add_multiples s index first (value ∷ rest) = do
  factor ← entry s index
  sums ← add_multiples s (suc index) first rest
  ok (add value (mul first factor) ∷ sums)

-- A partial round, with its constant at `index` and its row of `S` from `base` on.
unfoldable pub partial_round :
    Option (List ℤ) → Option (List ℤ) → (t index base : ℕ) → State → Result State
partial_round c s t index base (x, xs) = do
  constant ← entry c index
  let first = add (pow5 x) constant
  s0 ← dot s base (pos 0) (first ∷ xs)
  sums ← add_multiples s (base + t) first xs
  ok (s0, sums)

unfoldable pub partial_rounds : Option (List ℤ) → Option (List ℤ) → ℕ → ℕ → ℕ → State → Result State
partial_rounds c s t zero round state = ok state
partial_rounds c s t (suc count) round state = do
  next ← partial_round c s t ((n_rounds_f / 2 + 1) * t + round) ((t * 2 - 1) * round) state
  partial_rounds c s t count (suc round) next

-- `round < undefined` is false.
abbrev pub rounds_of : Option ℕ → ℕ
rounds_of none = 0
rounds_of (some n) = n

-- From `let state = [0n, ...preparedInputs]` on, for the width `t`.
unfoldable pub permute : PoseidonConstants → ℕ → State → Result ℤ
permute k t state = do
  let partial = rounds_of (get_elem? n_rounds_p (t - 2))
  let c = get_elem? k.c (t - 2)
  let s = get_elem? k.s (t - 2)
  let m = get_elem? k.m (t - 2)
  let p = get_elem? k.p (t - 2)
  started ← add_constants c 0 state
  early ← full_rounds c m (λ round. (round + 1) * t) (n_rounds_f / 2 - 1) 0 started
  middle ← full_round c p (n_rounds_f / 2 * t) early
  sparse ← partial_rounds c s t partial 0 middle
  late ←
      full_rounds c m (λ round. (n_rounds_f / 2 + 1) * t + partial + round * t) (n_rounds_f / 2 - 1)
        0 sparse
  final ← mix m (sbox late)
  ok final.0

unfoldable pub normalize_input : JsValue → Result ℤ
normalize_input (bigint value) = ok (mod_value value)
normalize_input value =
    err (soroban_zk_error (text "poseidon() inputs must be bigint values") invalid_public_input)

-- `inputs.map((input) => normalizeInput(input))`
unfoldable pub normalize_inputs : List JsValue → Result (List ℤ)
normalize_inputs [] = ok []
normalize_inputs (input ∷ rest) = do
  value ← normalize_input input
  values ← normalize_inputs rest
  ok (value ∷ values)

abbrev pub wrong_count : Thrown
wrong_count =
    soroban_zk_error
      (text "poseidon() supports between 1 and " ++ to_string 10 max_inputs ++ text " inputs")
      invalid_public_input

-- The checks of the inputs, and their residues.
unfoldable pub prepare_inputs : JsValue → Result (List ℤ)
prepare_inputs (array inputs) = do
  throw_if (length (items inputs) == 0 || ltb max_inputs (length (items inputs))) wrong_count
  normalize_inputs (items inputs)
prepare_inputs inputs =
    err
      (soroban_zk_error (text "poseidon() expects an array of bigint inputs") invalid_public_input)

-- `constants` is what `getConstants` returns or throws.
unfoldable pub poseidon : Result PoseidonConstants → JsValue → Result ℤ
poseidon constants inputs = do
  prepared ← prepare_inputs inputs
  k ← constants
  permute k (length prepared + 1) (pos 0, prepared)
