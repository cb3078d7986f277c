-- ===== src/Firstfit/Beyond.antt =====
-- `FIRSTFIT::find_len` where the area has more pages than the map has bits, 32768 (128 MiB): the
-- constructor accepts any length.
use ckernel.Prelude.{ℕ, zero, suc, ◌+◌, ◌/◌, ◌≤◌, ◌<◌, ◌≡◌, true, false, none, arith}
use ckernel.Prelude.{get_elem?-beyond}
use ckernel.Firstfit.{Firstfit, find_len_loop, find_len, test, alloc}
use ckernel.Firstfit.Bitmap.{used, IsWhole, test_lem}
use native.Mathlib.Decide.{dec_lt}

test-beyond : (a : Firstfit) (i : ℕ) → IsWhole a → 32768 ≤ i → test a i ≡ none
unfolding test
test-beyond a i whole h = rw (get_elem?-beyond a.map (i / 64) (omega arith))

module _ (a : Firstfit) (len : ℕ) (whole : IsWhole a) (pos : 0 < len)
    (full : (j : ℕ) → j < 32768 → used a j ≡ true) where
  find_len_loop-full :
      (left i idx : ℕ)
      → i ≤ 32768
      → 32768 < i + left
      → find_len_loop a len false left i 0 idx ≡ none
  unfolding find_len_loop
  find_len_loop-full zero i idx h more = absurd (omega arith)
  find_len_loop-full (suc left) i idx h more = elim (dec_lt i 32768) [
    | yes inside ↦
        rw (test_lem a i whole inside, full i inside)
          (ground (arith, find_len_loop-full left (i + 1) (i + 1)))
    | no beyond ↦ rw (test-beyond a i whole (omega arith))
  ]

  -- Once the first 32768 pages of a larger area are in use, `alloc` of a nonzero length reads beyond
  -- the map.
  pub alloc_beyond : 32768 < a.allocator_length → alloc a len ≡ none
  unfolding alloc find_len
  alloc_beyond more = rw (find_len_loop-full a.allocator_length 0 0 (omega arith) (omega arith))
