-- ===== src/Str/Magic.antt =====
-- The test of `strnlen` for a zero byte in a word of 8 bytes.
use native.Mathlib.Nat.{pow-suc, div-div-eq-div-mul}
use ckernel.Prelude.{
  ℕ, zero, suc, ◌+◌, ◌*◌, ◌/◌, ◌%◌, ◌^◌, ◌<◌, ◌≡◌, refl, ◌∙◌, ap, arith, bit_and, none,
}
use ckernel.Prelude.{true, ◌==◌}
use ckernel.Word.{sub64}
use ckernel.Word.Bits.{bit, bit-and, bit-zero}
use ckernel.Mem.{Memory, IsBytes, load64}
use ckernel.Str.{himagic, lomagic, zero_byte}

-- Bit `k` by division.
bit_div : (x k : ℕ) → bit x k ≡ (x / 2 ^ k % 2 == 1)
bit_div x zero = ground arith
bit_div x (suc k) =
    let halves : x / 2 / 2 ^ k ≡ x / 2 ^ suc k =
      (div-div-eq-div-mul x 2 (2 ^ k)
        ∙ (let twice : 2 * 2 ^ k ≡ 2 ^ suc k = omega (arith, pow-suc 2 k) in
            ap (λ d. x / d) twice)) in
    rw (← halves) (bit_div (x / 2) k)

clear_bit : (x h k : ℕ) → bit_and x h ≡ 0 → bit h k ≡ true → x / 2 ^ k % 2 ≡ 0
clear_bit x h k e set = ground (arith, bit-and x h k, e, set, bit-zero k, bit_div x k)

module _ (b0 b1 b2 b3 b4 b5 b6 b7 : ℕ) where
  -- A word of 8 bytes, as `load64` puts it together.
  abbrev word : ℕ
  word =
      b0
      + b1 * 0x100
      + b2 * 0x10000
      + b3 * 0x1000000
      + (b4 + b5 * 0x100 + b6 * 0x10000 + b7 * 0x1000000) * 0x1_0000_0000

  abbrev Clear : Type 0
  Clear = bit_and (sub64 word lomagic) himagic ≡ 0

  -- If the test finds nothing, no byte is zero: the lowest zero byte would borrow, and its top bit
  -- would be set.
  nonzero :
      Clear
      → (b0 < 256)
        × (b1 < 256)
        × (b2 < 256)
        × (b3 < 256)
        × (b4 < 256)
        × (b5 < 256)
        × (b6 < 256)
        × (b7 < 256)
      → (0 < b0) × (0 < b1) × (0 < b2) × (0 < b3) × (0 < b4) × (0 < b5) × (0 < b6) × (0 < b7)
  nonzero e (h0, h1, h2, h3, h4, h5, h6, h7) =
      let top : (k : ℕ) → bit himagic k ≡ true → sub64 word lomagic / 2 ^ k % 2 ≡ 0 =
        λ k set. clear_bit (sub64 word lomagic) himagic k e set in
      let n0 : 0 < b0 = omega (arith, top 7 refl) in
      let n1 : 0 < b1 = omega (arith, top 15 refl) in
      let n2 : 0 < b2 = omega (arith, top 23 refl) in
      let n3 : 0 < b3 = omega (arith, top 31 refl) in
      let n4 : 0 < b4 = omega (arith, top 39 refl) in
      let n5 : 0 < b5 = omega (arith, top 47 refl) in
      let n6 : 0 < b6 = omega (arith, top 55 refl) in
      let n7 : 0 < b7 = omega (arith, top 63 refl) in (n0, n1, n2, n3, n4, n5, n6, n7)

-- Where the test finds nothing the byte by byte search finds nothing either.
pub magic-zero_byte :
    (m : Memory) (a : ℕ)
    → IsBytes m
    → bit_and (sub64 (load64 m a) lomagic) himagic ≡ 0
    → zero_byte 8 m a ≡ none
unfolding zero_byte
magic-zero_byte m a b e =
    let (n0, n1, n2, n3, n4, n5, n6, n7) =
      nonzero (m a) (m (a + 1)) (m (a + 2)) (m (a + 3)) (m (a + 4)) (m (a + 4 + 1)) (m (a + 4 + 2))
        (m (a + 4 + 3)) e
        (
          b a,
          b (a + 1),
          b (a + 2),
          b (a + 3),
          b (a + 4),
          b (a + 4 + 1),
          b (a + 4 + 2),
          b (a + 4 + 3),
        ) in
    ground (arith, n0, n1, n2, n3, n4, n5, n6, n7)
