-- ===== src/Firstfit/Bitmap.antt =====
-- The map of firstfit.cpp seen as the set of the pages in use, and what `set`, `clr` and `test`
-- do to that set.
use ckernel.Prelude.{ℕ, ◌/◌, ◌%◌, ◌^◌, ◌<◌, bit_and, bit_or, ◌≡◌, refl, ◌∙◌}
use native.Mathlib.Decide.{ℕ_discrete}
use native.Mathlib.Nat.{pow-le-pow_right}
use ckernel.Prelude.{Bool, true, false, not, ◌&&◌, ◌||◌, some, arith}
use ckernel.Prelude.{
  length, get_or, length-set, get_elem?-eq-get_or, get_or-set_self, get_or-set_ne,
}
use ckernel.Prelude.{◌==◌, if◌then◌else◌, set as set_elem}
use ckernel.Word.{lnot64}
use ckernel.Word.Bits.{bit, bit-or, bit-and, bit-pow, bit-complement, bit_and-pow, bit_and_mask}
use ckernel.Firstfit.{Firstfit, bits_arr_size, bit_of, set, clr, test}

-- Page `i` is in use.
abbrev pub used : Firstfit → ℕ → Bool
used a i = bit (get_or a.map (i / 64) 0) (i % 64)

-- The map is whole, so that it holds 32768 bits.
abbrev pub IsWhole : Firstfit → Type 0
IsWhole a = length a.map ≡ bits_arr_size

pow-lt : (k : ℕ) → k < 64 → 2 ^ k < 2 ^ 64
pow-lt k h = omega (arith, pow-le-pow_right {n = 2} (omega arith) {i = k} {j = 63} (omega arith))

bit_of-eq-pow : (i : ℕ) → bit_of i ≡ 2 ^ (i % 64)
bit_of-eq-pow i = rw (bit_and_mask 6 i) (omega (arith, pow-lt (i % 64) (omega arith)))

bit-set : (w i k : ℕ) → bit (bit_or w (bit_of i)) k ≡ (bit w k || (i % 64 == k))
bit-set w i k = rw (bit_of-eq-pow i, bit-or w (2 ^ (i % 64)) k, bit-pow (i % 64) k)

bit-clr :
    (w i k : ℕ) → k < 64 → bit (bit_and w (lnot64 (bit_of i))) k ≡ (bit w k && not (i % 64 == k))
bit-clr w i k h = rw (
  bit_of-eq-pow i,
  bit-and w (lnot64 (2 ^ (i % 64))) k,
  bit-complement 64 (2 ^ (i % 64)) k (pow-lt (i % 64) (omega arith)) h,
  bit-pow (i % 64) k,
)

abbrev word : Firstfit → ℕ → ℕ
word a i = get_or a.map (i / 64) 0

module _ (a : Firstfit) (i : ℕ) (whole : IsWhole a) (h : i < 32768) where
  in_map : i / 64 < length a.map
  in_map = omega arith

  pub test_lem : test a i ≡ some (used a i)
  unfolding test
  test_lem = rw (
    get_elem?-eq-get_or a.map (i / 64) 0 in_map,
    bit_of-eq-pow i,
    bit_and-pow (word a i) (i % 64),
  )

  -- The pages in use after the word of page `i` is replaced.
  used_set :
      (v j : ℕ)
      → used (record a { map = set_elem a.map (i / 64) v }) j
        ≡ (if i / 64 == j / 64 then bit v (j % 64) else used a j)
  used_set v j = elim (ℕ_discrete (i / 64) (j / 64)) [
    | yes e ↦ rw (← e) (ground (arith, get_or-set_self a.map (i / 64) v 0 in_map))
    | no ne ↦ ground (arith, get_or-set_ne a.map (i / 64) (j / 64) v 0 ne)
  ]

  -- What `set` returns, and the pages in use then.
  pub set_lem :
      (a' : Firstfit) × (set a i ≡ some a')
      × (a'.base ≡ a.base)
      × IsWhole a'
      × ((j : ℕ) → used a' j ≡ (if i == j then true else used a j))
  unfolding set
  set_lem = (
    record a { map = set_elem a.map (i / 64) (bit_or (word a i) (bit_of i)) },
    rw (get_elem?-eq-get_or a.map (i / 64) 0 in_map),
    refl,
    length-set a.map (i / 64) (bit_or (word a i) (bit_of i)) ∙ whole,
    λ j. ground (arith, used_set (bit_or (word a i) (bit_of i)) j, bit-set (word a i) i (j % 64)),
  )

  pub clr_lem :
      (a' : Firstfit) × (clr a i ≡ some a')
      × (a'.base ≡ a.base)
      × IsWhole a'
      × ((j : ℕ) → used a' j ≡ (if i == j then false else used a j))
  unfolding clr
  clr_lem = (
    record a { map = set_elem a.map (i / 64) (bit_and (word a i) (lnot64 (bit_of i))) },
    rw (get_elem?-eq-get_or a.map (i / 64) 0 in_map),
    refl,
    length-set a.map (i / 64) (bit_and (word a i) (lnot64 (bit_of i))) ∙ whole,
    λ j. ground (
      arith,
      used_set (bit_and (word a i) (lnot64 (bit_of i))) j,
      bit-clr (word a i) i (j % 64) (omega arith),
    ),
  )
