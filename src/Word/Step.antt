-- ===== src/Word/Step.antt =====
-- The native bit operations mean a recursion on binary digits with fuel. Here the fuel is dropped:
-- one equation for the lowest digit of each.
use Prim.Native.Nat.{digits, bit_and-bitwise, bit_or-bitwise}
use ckernel.Prelude.{ℕ, zero, suc, ◌+◌, ◌-◌, ◌*◌, ◌/◌, ◌%◌, ◌≤◌, min, max}
use ckernel.Prelude.{bit_and, bit_or, ◌≡◌, refl, ◌∙◌, arith}

module _ (rest : ℕ → ℕ) (pick : ℕ → ℕ → ℕ) where
  -- A unit of fuel more changes nothing once there is a unit for each digit.
  steady : (n x y : ℕ) → x ≤ n → digits rest pick (suc n) x y ≡ digits rest pick n x y
  steady zero zero y h = refl
  steady (suc n) zero y h = refl
  steady zero (suc x) y h = absurd (omega arith)
  steady (suc n) (suc x) y h = omega (arith, steady n (suc x / 2) (y / 2) (omega arith))

  climb : (k n x y : ℕ) → x + k ≡ n → digits rest pick n x y ≡ digits rest pick x x y
  climb zero n x y e = let same : n ≡ x = omega arith in rw same
  climb (suc k) zero x y e = absurd (omega arith)
  climb (suc k) (suc n) x y e = steady n x y (omega arith) ∙ climb k n x y (omega arith)

  lowest :
      (x y : ℕ)
      → digits rest pick (suc x) (suc x) y
        ≡ digits rest pick (suc x / 2) (suc x / 2) (y / 2) * 2 + pick (suc x % 2) (y % 2)
  lowest x y = omega (arith, climb (x - suc x / 2) x (suc x / 2) (y / 2) (omega arith))

-- `&` with 0, whatever the fuel.
digits-min_zero : (n x : ℕ) → digits (λ y. 0) min n x 0 ≡ 0
digits-min_zero zero x = refl
digits-min_zero (suc n) zero = refl
digits-min_zero (suc n) (suc x) = omega (arith, digits-min_zero n (suc x / 2))

pub bit_and-zero : (x : ℕ) → bit_and x 0 ≡ 0
bit_and-zero x = bit_and-bitwise x 0 ∙ digits-min_zero x x

pub bit_or_step : (x y : ℕ) → bit_or x y ≡ bit_or (x / 2) (y / 2) * 2 + max (x % 2) (y % 2)
bit_or_step zero y = omega (arith, bit_or-bitwise 0 y, bit_or-bitwise 0 (y / 2))
bit_or_step (suc x) y =
    omega
      (arith, lowest (λ t. t) max x y, bit_or-bitwise (suc x) y, bit_or-bitwise (suc x / 2) (y / 2))

pub bit_and_step : (x y : ℕ) → bit_and x y ≡ bit_and (x / 2) (y / 2) * 2 + min (x % 2) (y % 2)
bit_and_step zero y = omega (arith, bit_and-bitwise 0 y, bit_and-bitwise 0 (y / 2))
bit_and_step (suc x) y =
    omega (
      arith,
      lowest (λ t. 0) min x y,
      bit_and-bitwise (suc x) y,
      bit_and-bitwise (suc x / 2) (y / 2),
    )
