-- ===== src/Word/Shift.antt =====
-- `|` with a number whose low digits are zero.
use ckernel.Prelude.{ℕ, zero, suc, ◌+◌, ◌*◌, ◌/◌, ◌^◌, ◌<◌, ◌≡◌, ap, arith, bit_or}
use ckernel.Word.Step.{bit_or_step}
use native.Mathlib.Nat.{pow-suc}
use Prim.Native.Nat.{bit_or-bitwise}

pub bit_or-zero_left : (b : ℕ) → bit_or 0 b ≡ b
bit_or-zero_left b = bit_or-bitwise 0 b

-- The low digits are those of the first number.
pub bit_or-high :
    (k r a b : ℕ) → r < 2 ^ k → bit_or (r + a * 2 ^ k) (b * 2 ^ k) ≡ r + bit_or a b * 2 ^ k
bit_or-high zero r a b h =
    let none_low : r ≡ 0 = omega arith in
    let left : 0 + a * 1 ≡ a = omega arith in
    let right : b * 1 ≡ b = omega arith in rw (none_low, left, right) (omega arith)
bit_or-high (suc k) r a b h =
    let double_b : b * 2 ^ suc k ≡ b * 2 ^ k * 2 =
      omega (arith, ap (λ (t : ℕ). b * t) (pow-suc 2 k)) in
    let double_a : a * 2 ^ suc k ≡ a * 2 ^ k * 2 =
      omega (arith, ap (λ (t : ℕ). a * t) (pow-suc 2 k)) in
    let double_ab : bit_or a b * 2 ^ suc k ≡ bit_or a b * 2 ^ k * 2 =
      omega (arith, ap (λ (t : ℕ). bit_or a b * t) (pow-suc 2 k)) in
    let half_a : (r + a * 2 ^ suc k) / 2 ≡ r / 2 + a * 2 ^ k = omega arith in
    let half_b : b * 2 ^ suc k / 2 ≡ b * 2 ^ k = omega arith in
    ground (
      arith,
      bit_or_step (r + a * 2 ^ suc k) (b * 2 ^ suc k),
      half_a,
      half_b,
      double_a,
      double_b,
      double_ab,
      bit_or-high k (r / 2) a b (omega (arith, pow-suc 2 k)),
    )

pub bit_or-shifted : (k r q : ℕ) → r < 2 ^ k → bit_or r (q * 2 ^ k) ≡ r + q * 2 ^ k
bit_or-shifted k r q h =
    let alone : r + 0 * 2 ^ k ≡ r = omega arith in
    ground (arith, bit_or-high k r 0 q h, alone, bit_or-zero_left q)
