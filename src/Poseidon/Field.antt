-- ===== src/Poseidon/Field.antt =====
-- The arithmetic of sdk/src/poseidon.ts: reduced integers and its laws.
use zksoroban.Prelude.{
  ℕ, zero, suc, ◌+◌, ◌-◌, ◌*◌, ◌%◌, ◌≤◌, ◌<◌, ◌≡◌, refl, ap, ◌∙◌, arith, if◌then◌else◌,
}
use zksoroban.Prelude.Int.{ℤ, pos, negsuc, ◌+ℤ◌, ◌*ℤ◌, rem, is_nonneg, sub_ℕ, pos_part, neg_part}
use zksoroban.Poseidon.{bn254_scalar_modulus, mod_value, add, mul}
use native.Mathlib.Nat.{mul_comm}

-- An element of the field as the code keeps it.
abbrev pub IsReduced : ℤ → Type 0
IsReduced (pos n) = n < bn254_scalar_modulus
IsReduced (negsuc n) = ⊥

sub_cong : (a c b d : ℕ) → a ≡ b → c ≡ d → sub_ℕ a c ≡ sub_ℕ b d
sub_cong a c b d h k = rw (h, k) refl

sub_nonneg : (a b : ℕ) → b ≤ a → sub_ℕ a b ≡ pos (a - b)
sub_nonneg a b h = ground arith

sub_suc : (r : ℕ) → sub_ℕ 0 (suc r) ≡ negsuc r
sub_suc r = ground arith

sub_minus : (n : ℕ) → sub_ℕ n 0 ≡ pos n
sub_minus n = sub_nonneg n 0 (omega arith) ∙ ap pos (omega arith)

lifted-IsReduced :
    (r : ℕ)
    → r < bn254_scalar_modulus
    → IsReduced (if is_nonneg (sub_ℕ 0 r) then sub_ℕ 0 r else sub_ℕ 0 r +ℤ pos bn254_scalar_modulus)
unfolding bn254_scalar_modulus ◌+ℤ◌
lifted-IsReduced zero h = omega arith
lifted-IsReduced (suc r) h =
    rw (sub_suc r)
      (rw (sub_nonneg (0 + bn254_scalar_modulus) (suc r + 0) (omega arith)) (omega arith))

pub mod_value-IsReduced : (a : ℤ) → IsReduced (mod_value a)
unfolding mod_value rem
mod_value-IsReduced (pos n) = unfold bn254_scalar_modulus in (omega arith)
mod_value-IsReduced (negsuc n) =
    let small : suc n % bn254_scalar_modulus < bn254_scalar_modulus =
      unfold bn254_scalar_modulus in (omega arith) in
    lifted-IsReduced (suc n % bn254_scalar_modulus) small

pub add-IsReduced : (a b : ℤ) → IsReduced (add a b)
unfolding add
add-IsReduced a b = mod_value-IsReduced (a +ℤ b)

pub mul-IsReduced : (a b : ℤ) → IsReduced (mul a b)
unfolding mul
mul-IsReduced a b = mod_value-IsReduced (a *ℤ b)

-- A reduced integer stays as it is.
pub mod_value-id : (a : ℤ) → IsReduced a → mod_value a ≡ a
unfolding mod_value rem bn254_scalar_modulus
mod_value-id (pos n) h = ap pos (omega arith)
mod_value-id (negsuc n) h = absurd h

add_comm : (a b : ℤ) → a +ℤ b ≡ b +ℤ a
unfolding ◌+ℤ◌
add_comm a b = sub_cong _ _ _ _ (omega arith) (omega arith)

pub add_commutes : (a b : ℤ) → add a b ≡ add b a
unfolding add
add_commutes a b = ap mod_value (add_comm a b)

product_comm : (a b : ℤ) → a *ℤ b ≡ b *ℤ a
unfolding ◌*ℤ◌
product_comm a b =
    sub_cong _ _ _ _
      (omega (arith, mul_comm (pos_part a) (pos_part b), mul_comm (neg_part a) (neg_part b)))
      (omega (arith, mul_comm (pos_part a) (neg_part b), mul_comm (neg_part a) (pos_part b)))

pub mul_commutes : (a b : ℤ) → mul a b ≡ mul b a
unfolding mul
mul_commutes a b = ap mod_value (product_comm a b)

sum_zero : (n : ℕ) → pos n +ℤ pos 0 ≡ pos n
unfolding ◌+ℤ◌
sum_zero n = sub_cong (n + 0) (0 + 0) n 0 (omega arith) (omega arith) ∙ sub_minus n

product_zero : (a : ℤ) → pos 0 *ℤ a ≡ pos 0
unfolding ◌*ℤ◌
product_zero a = sub_cong _ _ 0 0 (omega arith) (omega arith) ∙ sub_minus 0

product_one : (n : ℕ) → pos 1 *ℤ pos n ≡ pos n
unfolding ◌*ℤ◌
product_one n = sub_cong _ _ n 0 (omega arith) (omega arith) ∙ sub_minus n

pub add_zero : (a : ℤ) → IsReduced a → add a (pos 0) ≡ a
unfolding add
add_zero (pos n) h = rw (sum_zero n) (mod_value-id (pos n) h)
add_zero (negsuc n) h = absurd h

pub mul_zero : (a : ℤ) → mul (pos 0) a ≡ pos 0
unfolding mul
mul_zero a =
    rw (product_zero a) (mod_value-id (pos 0) (unfold bn254_scalar_modulus in (omega arith)))

pub mul_one : (a : ℤ) → IsReduced a → mul (pos 1) a ≡ a
unfolding mul
mul_one (pos n) h = rw (product_one n) (mod_value-id (pos n) h)
mul_one (negsuc n) h = absurd h

-- Adding a multiple of the modulus changes nothing.
pub mod_value_shift : (n k : ℕ) → mod_value (pos (n + k * bn254_scalar_modulus)) ≡ mod_value (pos n)
unfolding mod_value rem bn254_scalar_modulus
mod_value_shift n k = ap pos (omega arith)
