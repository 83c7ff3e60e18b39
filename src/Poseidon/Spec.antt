-- ===== src/Poseidon/Spec.antt =====
-- Poseidon as a specification: vectors and matrices over the field as functions, and every round,
-- the partial ones included, as the S-box, the round constants and a whole matrix.
use zksoroban.Prelude.{ℕ, zero, suc, ◌+◌, ◌-◌, ◌*◌, ◌==◌, if◌then◌else◌}
use zksoroban.Prelude.Int.{ℤ, pos}
use zksoroban.Poseidon.{add, mul, pow5}

abbrev pub Vector : Type 0
Vector = ℕ → ℤ

abbrev pub Matrix : Type 0
Matrix = ℕ → ℕ → ℤ

-- The sum of the first `n` values.
abbrev pub sum_to : ℕ → Vector → ℤ
sum_to zero h = pos 0
sum_to (suc n) h = add (sum_to n h) (h n)

-- The row vector `f` times a matrix of `t` rows.
abbrev pub times : ℕ → Matrix → Vector → Vector
times t m f column = sum_to t (λ row. mul (m row column) (f row))

abbrev pub plus_constants : Vector → ℕ → Vector → Vector
plus_constants c offset f i = add (f i) (c (offset + i))

unfoldable pub full : ℕ → Vector → Matrix → ℕ → Vector → Vector
full t c m offset f = times t m (plus_constants c offset (λ i. pow5 (f i)))

unfoldable pub fulls : ℕ → Vector → Matrix → (ℕ → ℕ) → ℕ → ℕ → Vector → Vector
fulls t c m offset zero round f = f
fulls t c m offset (suc count) round f =
    fulls t c m offset count (suc round) (full t c m (offset round) f)

-- The first element through the S-box and a constant.
abbrev pub first_sbox : ℤ → Vector → Vector
first_sbox constant f i = if i == 0 then add (pow5 (f 0)) constant else f i

-- The sparse matrix of a partial round: the first column and the first row are in `s` from `base`
-- on, and the rest is the identity.
abbrev pub sparse : Vector → ℕ → ℕ → Matrix
sparse s base t row column =
    if column == 0
    then s (base + row)
    else if row == 0
    then s (base + t + (column - 1))
    else if row == column
    then pos 1
    else pos 0

unfoldable pub partial : ℕ → Vector → Vector → ℕ → ℕ → Vector → Vector
partial t c s index base f = times t (sparse s base t) (first_sbox (c index) f)

unfoldable pub partials : ℕ → Vector → Vector → ℕ → ℕ → Vector → Vector
partials t c s zero round f = f
partials t c s (suc count) round f =
    partials t c s count (suc round) (partial t c s (5 * t + round) ((t * 2 - 1) * round) f)

pub record Parameters : Type 0 where
  pub c : Vector
  pub s : Vector
  pub m : Matrix
  pub p : Matrix

-- The permutation with four full rounds, the last by another matrix, `count` partial rounds and
-- four full rounds, the last without constants; the hash is its first element.
unfoldable pub hash : Parameters → (t count : ℕ) → Vector → ℤ
hash k t count f =
    let started = plus_constants k.c 0 f in
    let early = fulls t k.c k.m (λ round. (round + 1) * t) 3 0 started in
    let middle = full t k.c k.p (4 * t) early in
    let inner = partials t k.c k.s count 0 middle in
    let late = fulls t k.c k.m (λ round. 5 * t + count + round * t) 3 0 inner in
    times t k.m (λ i. pow5 (late i)) 0
