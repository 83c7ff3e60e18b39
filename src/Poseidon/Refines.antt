-- ===== src/Poseidon/Refines.antt =====
-- The loops of sdk/src/poseidon.ts over arrays compute the vectors of the specification.
use zksoroban.Prelude.{
  ℕ, zero, suc, ◌+◌, ◌≤◌, ◌<◌, ◌≡◌, refl, ap, ◌∙◌, List, [], ◌∷◌, some, map, length, length-map,
  get_elem?, arith,
}
use zksoroban.Prelude.Int.{ℤ, pos}
use zksoroban.Types.Yields.{Yields, yields, bind-Yields, Yields-of_eq}
use zksoroban.Poseidon.{
  add, mul, pow5, entry, cell, State, cells, sbox, add_constants_from, add_constants, mix_column,
  mix_from, mix,
}
use zksoroban.Poseidon.Spec.{Vector, Matrix, sum_to, times, plus_constants}

-- The elements of an array, and a zero behind its end.
abbrev pub value_at : List ℤ → Vector
value_at [] i = pos 0
value_at (x ∷ xs) zero = x
value_at (x ∷ xs) (suc i) = value_at xs i

abbrev pub row_at : List (List ℤ) → ℕ → List ℤ
row_at [] i = []
row_at (r ∷ rs) zero = r
row_at (r ∷ rs) (suc i) = row_at rs i

abbrev pub matrix_at : List (List ℤ) → Matrix
matrix_at rows row column = value_at (row_at rows row) column

-- At least `t` rows, of which each has at least `t` elements.
pub record IsSquare (t : ℕ) (rows : List (List ℤ)) : Type 0 where
  pub height : t ≤ length rows
  pub width : (i : ℕ) → i < t → t ≤ length (row_at rows i)

get_elem?_value : (xs : List ℤ) (i : ℕ) → i < length xs → get_elem? xs i ≡ some (value_at xs i)
get_elem?_value [] i h = absurd (omega arith)
get_elem?_value (x ∷ xs) zero h = refl
get_elem?_value (x ∷ xs) (suc i) h = get_elem?_value xs i (omega arith)

get_elem?_row : (rs : List (List ℤ)) (i : ℕ) → i < length rs → get_elem? rs i ≡ some (row_at rs i)
get_elem?_row [] i h = absurd (omega arith)
get_elem?_row (r ∷ rs) zero h = refl
get_elem?_row (r ∷ rs) (suc i) h = get_elem?_row rs i (omega arith)

pub entry-ok :
    (xs : List ℤ) (i : ℕ) → i < length xs → Yields (λ v. v ≡ value_at xs i) (entry (some xs) i)
unfolding entry
entry-ok xs i h = Yields-of_eq (rw (get_elem?_value xs i h, entry) refl)

cell-ok :
    (rows : List (List ℤ)) (t row column : ℕ)
    → IsSquare t rows
    → row < t
    → column < t
    → Yields (λ v. v ≡ matrix_at rows row column) (cell (some rows) row column)
unfolding cell
cell-ok rows t row column square h k =
    rw (get_elem?_row rows row (let tall = square.height in omega arith), cell)
      (entry-ok (row_at rows row) column (let wide = square.width row h in omega arith))

-- A list holds the values of a vector from an index on.
abbrev pub Holds : Vector → ℕ → List ℤ → Type 0
Holds f i [] = Unit
Holds f i (x ∷ xs) = (x ≡ f i) × Holds f (suc i) xs

-- ... and has `n` elements.
abbrev pub Lists : Vector → ℕ → ℕ → List ℤ → Type 0
Lists f i n xs = (length xs ≡ n) × Holds f i xs

pub Holds-ext :
    (f g : Vector) (i : ℕ) (xs : List ℤ)
    → ((j : ℕ) → i ≤ j → j < i + length xs → f j ≡ g j)
    → Holds f i xs
    → Holds g i xs
Holds-ext f g i [] e h = tt
Holds-ext f g i (x ∷ xs) e (h, hs) = (
  h ∙ e i (omega arith) (omega arith),
  Holds-ext f g (suc i) xs (λ j low high. e j (omega arith) (omega arith)) hs,
)

pub map-Holds :
    (f : Vector) (i : ℕ) (xs : List ℤ) → Holds f i xs → Holds (λ j. pow5 (f j)) i (map pow5 xs)
map-Holds f i [] h = tt
map-Holds f i (x ∷ xs) (h, hs) = (ap pow5 h, map-Holds f (suc i) xs hs)

constants_from-Lists :
    (c : List ℤ) (f : Vector) (base offset i : ℕ) (xs : List ℤ)
    → offset ≡ base + i
    → offset + length xs ≤ length c
    → Holds f i xs
    → Yields
        (Lists (plus_constants (value_at c) base f) i (length xs))
        (add_constants_from (some c) offset xs)
unfolding add_constants_from
constants_from-Lists c f base offset i [] e room h = yields [] (refl, tt)
constants_from-Lists c f base offset i (x ∷ xs) e room (h, hs) =
    bind-Yields (entry-ok c offset (omega arith)) λ v ev.
      bind-Yields
        (constants_from-Lists c f base (suc offset) (suc i) xs (omega arith) (omega arith) hs)
        λ ys (size, held). yields (add x v ∷ ys) (ap suc size, (rw (ev, h, e) refl, held))

-- The state has `t` elements, the values of a vector.
abbrev pub Represents : ℕ → Vector → State → Type 0
Represents t f s = Lists f 0 t (cells s)

pub add_constants-Represents :
    (c : List ℤ) (t : ℕ) (f : Vector) (offset : ℕ) (s : State)
    → offset + t ≤ length c
    → Represents t f s
    → Yields (Represents t (plus_constants (value_at c) offset f)) (add_constants (some c) offset s)
unfolding add_constants
add_constants-Represents c t f offset (x, xs) room (size, (h, hs)) =
    let start : offset + 0 ≡ offset = omega arith in
    bind-Yields (entry-ok c offset (omega arith)) λ v ev.
      bind-Yields (constants_from-Lists c f offset (suc offset) 1 xs (omega arith) (omega arith) hs)
        λ ys (size', held). yields (add x v, ys) (omega arith, (rw (ev, h, start) refl, held))

pub sbox-Represents :
    (t : ℕ) (f : Vector) (s : State) → Represents t f s → Represents t (λ i. pow5 (f i)) (sbox s)
sbox-Represents t f (x, xs) (size, (h, hs)) =
    (omega (arith, length-map xs pow5), (ap pow5 h, map-Holds f 1 xs hs))

-- The sum over the rows from `row` on, added to that of the rows before.
mix_column-ok :
    (rows : List (List ℤ)) (t column row : ℕ) (f : Vector) (acc : ℤ) (xs : List ℤ)
    → IsSquare t rows
    → column < t
    → row + length xs ≡ t
    → acc ≡ sum_to row (λ j. mul (matrix_at rows j column) (f j))
    → Holds f row xs
    → Yields (λ v. v ≡ times t (matrix_at rows) f column) (mix_column (some rows) column row acc xs)
unfolding mix_column
mix_column-ok rows t column row f acc [] square inside size e h =
    let done : row ≡ t = omega arith in yields acc (rw (e, done) refl)
mix_column-ok rows t column row f acc (x ∷ xs) square inside size e (h, hs) =
    bind-Yields (cell-ok rows t row column square (omega arith) inside) λ v ev.
      mix_column-ok rows t column (suc row) f (add acc (mul v x)) xs square inside (omega arith)
        (rw (e, ev, h) refl) hs

mix_from-Lists :
    (rows : List (List ℤ)) (t column : ℕ) (f : Vector) (state xs : List ℤ)
    → IsSquare t rows
    → column + length xs ≡ t
    → length state ≡ t
    → Holds f 0 state
    → Yields
        (Lists (times t (matrix_at rows) f) column (length xs))
        (mix_from (some rows) state column xs)
unfolding mix_from
mix_from-Lists rows t column f state [] square size full h = yields [] (refl, tt)
mix_from-Lists rows t column f state (x ∷ xs) square size full h =
    bind-Yields
      (mix_column-ok rows t column 0 f (pos 0) state square (omega arith) (omega arith) refl h)
      λ v ev.
        bind-Yields (mix_from-Lists rows t (suc column) f state xs square (omega arith) full h)
          λ vs (size', held). yields (v ∷ vs) (ap suc size', (ev, held))

pub mix-Represents :
    (rows : List (List ℤ)) (t : ℕ) (f : Vector) (s : State)
    → IsSquare t rows
    → Represents t f s
    → Yields (Represents t (times t (matrix_at rows) f)) (mix (some rows) s)
unfolding mix
mix-Represents rows t f (x, xs) square (size, held) =
    bind-Yields
      (mix_column-ok rows t 0 0 f (pos 0) (x ∷ xs) square (omega arith) (omega arith) refl held)
      λ v ev.
        bind-Yields (mix_from-Lists rows t 1 f (x ∷ xs) xs square (omega arith) size held)
          λ vs (size', rest). yields (v, vs) (omega arith, (ev, rest))
