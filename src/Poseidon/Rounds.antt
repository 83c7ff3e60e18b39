-- ===== src/Poseidon/Rounds.antt =====
-- The rounds of sdk/src/poseidon.ts compute those of the specification.
use zksoroban.Prelude.{
  ℕ, zero, suc, ◌+◌, ◌-◌, ◌*◌, ◌≤◌, ◌<◌, ◌≡◌, refl, sym, List, ◌∷◌, some, length, arith, ◌==◌,
  false,
}
use zksoroban.Prelude.Int.{ℤ, pos}
use zksoroban.Types.Yields.{Yields, yields, bind-Yields}
use zksoroban.Poseidon.{
  bn254_scalar_modulus, add, pow5, State, sbox, full_round, full_rounds, partial_round,
  partial_rounds,
}
use zksoroban.Poseidon.Field.{IsReduced, add-IsReduced}
use zksoroban.Poseidon.Spec.{Vector, Matrix, sum_to, first_sbox, full, fulls, partial, partials}
use zksoroban.Poseidon.Refines.{
  value_at, matrix_at, entry-ok, Holds, Holds-ext, IsSquare, Represents, sbox-Represents,
  add_constants-Represents, mix-Represents,
}
use zksoroban.Poseidon.Sparse.{sparse_column, dot-ok, add_multiples-Lists}

-- Every element of a vector is one of the field.
abbrev pub AllReduced : Vector → Type 0
AllReduced f = (i : ℕ) → IsReduced (f i)

pub full_round-Represents :
    (c : List ℤ) (rows : List (List ℤ)) (t offset : ℕ) (f : Vector) (s : State)
    → IsSquare t rows
    → offset + t ≤ length c
    → Represents t f s
    → Yields
        (Represents t (full t (value_at c) (matrix_at rows) offset f))
        (full_round (some c) (some rows) offset s)
unfolding full_round full
full_round-Represents c rows t offset f s square room h =
    bind-Yields
      (add_constants-Represents c t (λ i. pow5 (f i)) offset (sbox s) room
        (sbox-Represents t f s h))
      λ sums held. mix-Represents rows t _ sums square held

pub full_rounds-Represents :
    (c : List ℤ) (rows : List (List ℤ)) (t : ℕ) (offset : ℕ → ℕ) (count round : ℕ) (f : Vector)
    (s : State)
    → IsSquare t rows
    → ((i : ℕ) → i < count → offset (round + i) + t ≤ length c)
    → Represents t f s
    → Yields
        (Represents t (fulls t (value_at c) (matrix_at rows) offset count round f))
        (full_rounds (some c) (some rows) offset count round s)
unfolding full_rounds fulls
full_rounds-Represents c rows t offset zero round f s square room h = yields s h
full_rounds-Represents c rows t offset (suc count) round f s square room h =
    let start : round + 0 ≡ round = omega arith in
    bind-Yields
      (full_round-Represents c rows t (offset round) f s square (rw start at (room 0 (omega arith)))
        h)
      λ next held.
        full_rounds-Represents c rows t offset count (suc round) _ next square
          (λ i small.
            let step : round + suc i ≡ suc round + i = omega arith in
            rw step at (room (suc i) (omega arith)))
          held

partial_round-Represents :
    (c s : List ℤ) (t index base : ℕ) (f : Vector) (state : State)
    → index < length c
    → base + (t * 2 - 1) ≤ length s
    → AllReduced f
    → Represents t f state
    → Yields
        (Represents t (partial t (value_at c) (value_at s) index base f))
        (partial_round (some c) (some s) t index base state)
unfolding partial_round partial
partial_round-Represents c s t index base f (x, xs) known room reduced (size, (h, hs)) =
    let g : Vector = first_sbox (value_at c index) f in
    let tail : Holds g 1 xs =
      Holds-ext f g 1 xs (λ j low high. let e : (j == 0) ≡ false = ground arith in rw e refl) hs in
    bind-Yields (entry-ok c index known) λ v ev.
      let head : add (pow5 x) v ≡ g 0 = rw (h, ev) refl in
      bind-Yields
        (dot-ok s g base 0 (pos 0) (add (pow5 x) v ∷ xs) t base (omega arith) (omega arith)
          (omega arith) refl (head, tail))
        λ s0 e0.
          bind-Yields
            (add_multiples-Lists s g (base + t) 0 (add (pow5 x) v) xs (base + t) (omega arith)
              (omega arith) tail)
            λ ys (size', held).
              yields (s0, ys)
                (
                  omega arith,
                  (
                    e0,
                    Holds-ext _ _ 1 ys
                        (λ j low high.
                          let e : (j == 0) ≡ false = ground arith in
                          let whole : IsReduced (g j) = rw e (reduced j) in
                          rw head
                            (sym (sparse_column (value_at s) base t j g low (omega arith) whole)))
                        held,
                  ),
                )

pub sum-IsReduced : (n : ℕ) (h : Vector) → IsReduced (sum_to n h)
sum-IsReduced zero h = unfold bn254_scalar_modulus in (omega arith)
sum-IsReduced (suc n) h = add-IsReduced (sum_to n h) (h n)

pub full-AllReduced :
    (t : ℕ) (c : Vector) (m : Matrix) (offset : ℕ) (f : Vector) → AllReduced (full t c m offset f)
unfolding full
full-AllReduced t c m offset f i = sum-IsReduced t _

partial-AllReduced :
    (t : ℕ) (c s : Vector) (index base : ℕ) (f : Vector) → AllReduced (partial t c s index base f)
unfolding partial
partial-AllReduced t c s index base f i = sum-IsReduced t _

room_of_round : (w round count n : ℕ) → w * (round + suc count) ≤ n → w * round + w ≤ n
room_of_round w round count n h = grind arith

pub partial_rounds-Represents :
    (c s : List ℤ) (t count round : ℕ) (f : Vector) (state : State)
    → 0 < t
    → 5 * t + round + count ≤ length c
    → (t * 2 - 1) * (round + count) ≤ length s
    → AllReduced f
    → Represents t f state
    → Yields
        (Represents t (partials t (value_at c) (value_at s) count round f))
        (partial_rounds (some c) (some s) t count round state)
unfolding partial_rounds partials
partial_rounds-Represents c s t zero round f state positive known room reduced h = yields state h
partial_rounds-Represents c s t (suc count) round f state positive known room reduced h =
    bind-Yields
      (partial_round-Represents c s t (5 * t + round) ((t * 2 - 1) * round) f state (omega arith)
        (room_of_round (t * 2 - 1) round count (length s) room) reduced h)
      λ next held.
        partial_rounds-Represents c s t count (suc round) _ next positive (omega arith)
          (let step : round + suc count ≡ suc round + count = omega arith in rw step at room)
          (partial-AllReduced t (value_at c) (value_at s) (5 * t + round) ((t * 2 - 1) * round) f)
          held
