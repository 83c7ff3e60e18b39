-- ===== src/Prelude/Order.antt =====
-- Division by a base of two or more makes a number smaller.
use Prim.Native.Nat.{ℕ, ◌+◌, ◌*◌, ◌/◌, ◌%◌, ◌≤◌, ◌<◌}
use mathlib.Core.Path.{◌≡◌}
use native.Mathlib.Omega.{arith}
use native.Mathlib.Nat.{div-add-mod}

pub div_mul_mod : (n b : ℕ) → n / b * b + n % b ≡ n
div_mul_mod n b = omega (arith, div-add-mod n b)

pub div-lt_base : (n b : ℕ) → 2 ≤ b → 0 < n → n / b < n
div-lt_base n b h k = grind (arith, div_mul_mod n b)

pub mod-lt_base : (n b : ℕ) → 2 ≤ b → n % b < b
mod-lt_base n b h = grind arith

pub div-lt_mul : (n b m : ℕ) → 2 ≤ b → n < m * b → n / b < m
div-lt_mul n b m h k = grind (arith, div_mul_mod n b)
