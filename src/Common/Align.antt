-- ===== src/Common/Align.antt =====
-- ALIGN of common.h: the next multiple of a power of two.
use ckernel.Prelude.{
  ℕ, zero, suc, ◌+◌, ◌-◌, ◌*◌, ◌/◌, ◌%◌, ◌^◌, ◌<◌, ◌≡◌, refl, sym, ◌∙◌, ap, arith, bit_and,
}
use ckernel.Word.{u64, sub64, lnot64}
use ckernel.Word.Step.{bit_and_step}
use ckernel.Word.Bits.{bit_and_mask}
use ckernel.Common.{page_size, page_mask, align, align_pointer, align32}
use native.Mathlib.Nat.{pow-suc}

-- `&` with an even number.
bit_and_even : (x c : ℕ) → bit_and x (c * 2) ≡ bit_and (x / 2) c * 2
bit_and_even x c =
    let half : c * 2 / 2 ≡ c = omega arith in
    let even : c * 2 % 2 ≡ 0 = omega arith in ground (arith, bit_and_step x (c * 2), half, even)

abbrev halves : ℕ → ℕ → ℕ
halves zero x = x
halves (suc k) x = halves k (x / 2)

-- `&` with a number whose `k` low digits are zero.
bit_and-shifted : (k x c : ℕ) → bit_and x (c * 2 ^ k) ≡ bit_and (halves k x) c * 2 ^ k
bit_and-shifted zero x c = let once : c * 1 ≡ c = omega arith in rw once (omega arith)
bit_and-shifted (suc k) x c =
    let doubled : c * 2 ^ suc k ≡ c * 2 ^ k * 2 =
      omega (arith, ap (λ (t : ℕ). c * t) (pow-suc 2 k)) in
    let grown : bit_and (halves k (x / 2)) c * 2 ^ suc k
        ≡ bit_and (halves k (x / 2)) c * 2 ^ k * 2 =
      omega (arith, ap (λ (t : ℕ). bit_and (halves k (x / 2)) c * t) (pow-suc 2 k)) in
    rw doubled
      (bit_and_even x (c * 2 ^ k) ∙ ap (λ (t : ℕ). t * 2) (bit_and-shifted k (x / 2) c) ∙ sym grown)

-- The two alignments of the kernel, to a page and to 8 bytes: for a number that they do not wrap, the
-- result is the number rounded up to the next multiple.
pub align_lem :
    (x : ℕ)
    → x + page_size < 2 ^ 64
    → (align x page_size ≡ (x + (page_size - 1)) / page_size * page_size)
      × (align x 8 ≡ (x + 7) / 8 * 8)
unfolding align
align_lem x small = (
  omega (arith, page, bit_and_mask 52 (halves 12 (x + 4095))),
  omega (arith, word, bit_and_mask 61 (halves 3 (x + 7))),
)
  where
    page :
        bit_and (sub64 (u64 (x + 4096)) 1) (lnot64 (sub64 4096 1))
        ≡ bit_and (halves 12 (x + 4095)) (2 ^ 52 - 1) * 4096
    page =
        let sum : sub64 (u64 (x + 4096)) 1 ≡ x + 4095 = omega arith in
        rw sum (bit_and-shifted 12 (x + 4095) (2 ^ 52 - 1))

    word :
        bit_and (sub64 (u64 (x + 8)) 1) (lnot64 (sub64 8 1))
        ≡ bit_and (halves 3 (x + 7)) (2 ^ 61 - 1) * 8
    word =
        let sum : sub64 (u64 (x + 8)) 1 ≡ x + 7 = omega arith in
        rw sum (bit_and-shifted 3 (x + 7) (2 ^ 61 - 1))

-- The `uint32_t` overload cuts the number rounded up to 32 bits.
pub align32_lem : (x : ℕ) → x < 2 ^ 32 → align32 x 8 ≡ (x + 7) / 8 * 8 % 2 ^ 32
unfolding align align32
align32_lem x small = ap (λ (t : ℕ). t % 2 ^ 32) ((align_lem x (omega arith)).1)

-- The template for pointers rounds like the overload for numbers of 64 bits.
pub align_pointer-eq-align : (addr a : ℕ) → align_pointer addr a ≡ align addr a
unfolding align align_pointer
align_pointer-eq-align addr a = refl

-- `& PAGE_MASK` rounds down to a page.
pub page_mask_lem : (x : ℕ) → x < 2 ^ 64 → bit_and x page_mask ≡ x / page_size * page_size
page_mask_lem x small =
    omega (arith, bit_and-shifted 12 x (2 ^ 52 - 1), bit_and_mask 52 (halves 12 x))
