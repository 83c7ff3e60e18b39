-- ===== src/Poseidon/Sparse.antt =====
-- A partial round is a multiplication by the sparse matrix.
use zksoroban.Prelude.{
  ℕ, zero, suc, ◌+◌, ◌-◌, ◌≤◌, ◌<◌, ◌≡◌, refl, ap, ◌∙◌, List, [], ◌∷◌, some, length, arith, ◌==◌,
  false, true, Bool-cases, inl, inr,
}
use zksoroban.Prelude.Int.{ℤ, pos}
use zksoroban.Types.Yields.{Yields, yields, bind-Yields}
use zksoroban.Poseidon.{add, mul, dot, add_multiples}
use zksoroban.Poseidon.Field.{
  IsReduced, add_commutes, mul_commutes, add_zero, mul_zero, mul_one, add-IsReduced, mul-IsReduced,
}
use zksoroban.Poseidon.Spec.{Vector, sum_to, times, sparse}
use zksoroban.Poseidon.Refines.{value_at, entry-ok, Holds, Lists}

-- A sum whose values are zero but at 0 and at `k`.
module _ (h : Vector) (k : ℕ) (a b : ℤ) (inside : 0 < k) (first : h 0 ≡ a) (other : h k ≡ b)
    (nothing : (j : ℕ) → 0 < j → (j == k) ≡ false → h j ≡ pos 0) (reduced : IsReduced a) where
  sum_before : (n : ℕ) → n < k → sum_to (suc n) h ≡ a
  sum_before zero small = rw first (add_commutes (pos 0) a ∙ add_zero a reduced)
  sum_before (suc n) small =
      rw (sum_before n (omega arith), nothing (suc n) (omega arith) (ground arith))
        (add_zero a reduced)

  sum_behind : (n : ℕ) → k < n → sum_to n h ≡ add a b
  sum_behind zero large = absurd (omega arith)
  sum_behind (suc n) large = elim (Bool-cases (n == k)) [
    | inl here ↦
        let same : n ≡ suc (k - 1) = ground arith in
        let same' : n ≡ k = ground arith in
        let before : sum_to n h ≡ a = rw same (sum_before (k - 1) (omega arith)) in
        let value : h n ≡ b = rw same' other in rw (before, value) refl
    | inr past ↦
        rw (sum_behind n (ground arith), nothing n (omega arith) past)
          (add_zero (add a b) (add-IsReduced a b))
  ]

-- A column behind the first of the product with the sparse matrix.
pub sparse_column :
    (s : Vector) (base t k : ℕ) (f : Vector)
    → 0 < k
    → k < t
    → IsReduced (f k)
    → times t (sparse s base t) f k ≡ add (f k) (mul (f 0) (s (base + t + (k - 1))))
sparse_column s base t k f low high reduced =
    let h : Vector = λ row. mul (sparse s base t row k) (f row) in
    let not_first : (k == 0) ≡ false = ground arith in
    let itself : (k == k) ≡ true = ground arith in
    let factor = s (base + t + (k - 1)) in
    let total : sum_to t h ≡ add (mul factor (f 0)) (f k) =
      sum_behind h k (mul factor (f 0)) (f k) low (rw not_first refl)
        (rw (not_first, itself) (mul_one (f k) reduced))
        (λ j positive differs.
          let e : (j == 0) ≡ false = ground arith in rw (not_first, e, differs) (mul_zero (f j)))
        (mul-IsReduced factor (f 0)) t high in
    total ∙ add_commutes (mul factor (f 0)) (f k) ∙ ap (add (f k)) (mul_commutes factor (f 0))

pub dot-ok :
    (s : List ℤ) (f : Vector) (base row : ℕ) (acc : ℤ) (xs : List ℤ) (t index : ℕ)
    → index ≡ base + row
    → row + length xs ≡ t
    → base + t ≤ length s
    → acc ≡ sum_to row (λ j. mul (value_at s (base + j)) (f j))
    → Holds f row xs
    → Yields
        (λ v. v ≡ sum_to t (λ j. mul (value_at s (base + j)) (f j)))
        (dot (some s) index acc xs)
unfolding dot
dot-ok s f base row acc [] t index e size room sum h =
    let done : row ≡ t = omega arith in yields acc (rw (sum, done) refl)
dot-ok s f base row acc (x ∷ xs) t index e size room sum (h, hs) =
    bind-Yields (entry-ok s index (omega arith)) λ v ev.
      dot-ok s f base (suc row) (add acc (mul v x)) xs t (suc index) (omega arith) (omega arith)
        room (rw (sum, ev, h, e) refl) hs

pub add_multiples-Lists :
    (s : List ℤ) (f : Vector) (start k : ℕ) (first : ℤ) (xs : List ℤ) (index : ℕ)
    → index ≡ start + k
    → index + length xs ≤ length s
    → Holds f (suc k) xs
    → Yields
        (Lists (λ j. add (f j) (mul first (value_at s (start + (j - 1))))) (suc k) (length xs))
        (add_multiples (some s) index first xs)
unfolding add_multiples
add_multiples-Lists s f start k first [] index e room h = yields [] (refl, tt)
add_multiples-Lists s f start k first (x ∷ xs) index e room (h, hs) =
    let at_k : suc k - 1 ≡ k = omega arith in
    bind-Yields (entry-ok s index (omega arith)) λ v ev.
      bind-Yields
        (add_multiples-Lists s f start (suc k) first xs (suc index) (omega arith) (omega arith) hs)
        λ ys (size, held).
          yields (add x (mul first v) ∷ ys) (ap suc size, (rw (ev, h, e, at_k) refl, held))
