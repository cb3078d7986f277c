-- ===== src/Word/Bits.antt =====
-- Single bits of a word, and what `|`, `&` and `~` do to them, at every position.
use native.Mathlib.Nat.{pow-suc, one-le-pow, add-mul-mod_self_right, mod-eq_of_lt}
use ckernel.Prelude.{ℕ, zero, suc, ◌+◌, ◌-◌, ◌*◌, ◌/◌, ◌%◌, ◌^◌, ◌<◌, bit_and, bit_or}
use ckernel.Prelude.{◌≡◌, refl, sym, ◌∙◌, ap, Bool, false, not, ◌&&◌, ◌||◌, arith, ◌==◌}
use ckernel.Word.Step.{bit_or_step, bit_and_step, bit_and-zero}

-- Bit `k` of `w`.
abbrev pub bit : ℕ → ℕ → Bool
bit w zero = w % 2 == 1
bit w (suc k) = bit (w / 2) k

pub bit-or : (a b k : ℕ) → bit (bit_or a b) k ≡ (bit a k || bit b k)
bit-or a b zero = ground (arith, bit_or_step a b)
bit-or a b (suc k) = rw halves (bit-or (a / 2) (b / 2) k)
  where
    halves : bit_or a b / 2 ≡ bit_or (a / 2) (b / 2)
    halves = omega (arith, bit_or_step a b)

pub bit-and : (a b k : ℕ) → bit (bit_and a b) k ≡ (bit a k && bit b k)
bit-and a b zero = ground (arith, bit_and_step a b)
bit-and a b (suc k) = rw halves (bit-and (a / 2) (b / 2) k)
  where
    halves : bit_and a b / 2 ≡ bit_and (a / 2) (b / 2)
    halves = omega (arith, bit_and_step a b)

pub bit-zero : (k : ℕ) → bit 0 k ≡ false
bit-zero zero = refl
bit-zero (suc k) = bit-zero k

pub bit-pow : (j k : ℕ) → bit (2 ^ j) k ≡ (j == k)
bit-pow zero zero = refl
bit-pow zero (suc k) = ground (arith, bit-zero k)
bit-pow (suc j) zero = ground (arith, pow-suc 2 j)
bit-pow (suc j) (suc k) = rw halves (ground (arith, bit-pow j k))
  where
    halves : 2 ^ suc j / 2 ≡ 2 ^ j
    halves = omega (arith, pow-suc 2 j)

pub bit-complement : (n a k : ℕ) → a < 2 ^ n → k < n → bit (2 ^ n - 1 - a) k ≡ not (bit a k)
bit-complement zero a k h p = absurd (omega arith)
bit-complement (suc n) a zero h p = ground (arith, pow-suc 2 n)
bit-complement (suc n) a (suc k) h p =
    rw halves (bit-complement n (a / 2) k (omega (arith, pow-suc 2 n)) (omega arith))
  where
    halves : (2 ^ suc n - 1 - a) / 2 ≡ 2 ^ n - 1 - a / 2
    halves = omega (arith, pow-suc 2 n)

-- `w & (1 << k)` is the bit in its place, so it is nonzero exactly when the bit is set.
pub bit_and-pow : (w k : ℕ) → not (bit_and w (2 ^ k) == 0) ≡ bit w k
bit_and-pow w zero = ground (arith, bit_and_step w 1, bit_and-zero (w / 2))
bit_and-pow w (suc k) = rw (← bit_and-pow (w / 2) k) (ground (arith, doubles, pow-suc 2 k))
  where
    doubles : bit_and w (2 ^ suc k) ≡ bit_and (w / 2) (2 ^ k) * 2
    doubles = ground (arith, bit_and_step w (2 ^ suc k), pow-suc 2 k, halves)
      where
        halves : 2 ^ suc k / 2 ≡ 2 ^ k
        halves = omega (arith, pow-suc 2 k)

-- The remainder by twice a number, from the half and the lowest digit.
mod-double : (m a : ℕ) → 0 < m → a / 2 % m * 2 + a % 2 ≡ a % (m * 2)
mod-double m a pos = sym (
    ap (λ t. t % (m * 2)) parts
    ∙ add-mul-mod_self_right low (a / 2 / m) (m * 2)
    ∙ mod-eq_of_lt small)
  where
    low : ℕ
    low = a / 2 % m * 2 + a % 2

    parts : a ≡ low + a / 2 / m * (m * 2)
    parts = omega arith

    small : low < m * 2
    small = omega arith

-- A mask of the `k` low bits is the remainder by `2 ^ k`.
pub bit_and_mask : (k a : ℕ) → bit_and a (2 ^ k - 1) ≡ a % 2 ^ k
bit_and_mask zero a = omega (arith, bit_and-zero a)
bit_and_mask (suc k) a =
    let positive : 0 < 2 ^ k = one-le-pow k 2 (omega arith) in
    let shorter : (2 ^ suc k - 1) / 2 ≡ 2 ^ k - 1 = omega (arith, pow-suc 2 k) in
    let odd : (2 ^ suc k - 1) % 2 ≡ 1 = omega (arith, pow-suc 2 k) in
    let step = bit_and_step a (2 ^ suc k - 1) in
    ground (
      arith,
      step,
      shorter,
      odd,
      pow-suc 2 k,
      mod-double (2 ^ k) a positive,
      bit_and_mask k (a / 2),
    )
