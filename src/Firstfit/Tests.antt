-- ===== src/Firstfit/Tests.antt =====
-- Runs of the allocator, and its theorems at an area of four pages.
use ckernel.Prelude.{ℕ, zero, suc, ◌+◌, ◌≤◌, ◌<◌, ◌≡◌, refl, ◌⊎◌, true, false, none, some, arith}
use ckernel.Prelude.{replicate}
use ckernel.Firstfit.{Firstfit, find_len, find_len_loop, alloc, alloc_at, free}
use ckernel.Firstfit.{test, set_range, clr, clr_range}
use ckernel.Firstfit.Bitmap.{used}
use ckernel.Firstfit.Find.{IsRun}
use ckernel.Firstfit.Range.{SomeUsed}
use ckernel.Firstfit.Alloc.{IsValid, IsAllocated, alloc_lem}
use ckernel.Firstfit.AllocAt.{IsGranted, alloc_at_lem, alloc_at_overrun}
use ckernel.Firstfit.Beyond.{alloc_beyond}
use ckernel.Word.Bits.{bit, bit-zero, bit-complement}
use ckernel.Prelude.{get_or, get_or-replicate_in, ◌/◌, ◌%◌}
use native.Mathlib.Decide.{ℕ_discrete}
use ckernel.Firstfit.Sample.{busy, busier, busy-IsValid}

alloc-busy_none : alloc busy 3 ≡ some (0, busy)
unfolding alloc find_len find_len_loop test
alloc-busy_none = refl

-- With length 0 the page behind the first one in use is named.
alloc-busy_zero : alloc busy 0 ≡ some (0x101000, busy)
unfolding alloc find_len find_len_loop test set_range
alloc-busy_zero = refl

free-busier : free busier 0x102000 1 ≡ some busy
unfolding free clr_range clr
free-busier = refl

in_use : (j : ℕ) → j < 2 → used busy j ≡ true
in_use zero h = refl
in_use (suc zero) h = refl
in_use (suc (suc j)) h = absurd (omega arith)

alloc_lem_example :
    IsAllocated busy 2 (alloc busy 2)
    ⊎ ((alloc busy 2 ≡ some (0, busy)) × ((s : ℕ) → ¬ IsRun busy 2 false s))
alloc_lem_example = alloc_lem busy 2 busy-IsValid (omega arith)

alloc_at_lem_example :
    IsGranted busy 2 2 (alloc_at busy 0x102000 2)
    ⊎ ((alloc_at busy 0x102000 2 ≡ some (false, busy)) × SomeUsed busy 2 2)
alloc_at_lem_example =
    alloc_at_lem busy 0x102000 2 busy-IsValid (omega arith, omega arith) (omega arith)

free_behind : (j : ℕ) → 3 ≤ j → j < 3 + 2 → used busy j ≡ false
free_behind j p q = elim (ℕ_discrete j 3) [
  | yes e ↦ rw e
  | no ne ↦ let e : j ≡ 4 = omega arith in rw e
]

alloc_at_overrun_example :
    (a' : Firstfit) × (alloc_at busy 0x103000 2 ≡ some (true, a')) × ¬ IsValid a'
alloc_at_overrun_example =
    alloc_at_overrun busy 0x103000 2 busy-IsValid (omega arith, omega arith) (omega arith)
      (omega arith) free_behind

-- 160 MiB, of which 128 MiB are in use.
abbrev huge : Firstfit
huge = record {
  base = record {
    tag = "test";
    allocator_start_addr = 0x900000;
    allocator_length = 40960;
    allocator_free_count = 8192;
    allocator_used_count = 32768;
  };
  map = replicate 512 0xffff_ffff_ffff_ffff;
}

ones_full :
    (n i k : ℕ) → i < n → k < 64 → bit (get_or (replicate n 0xffff_ffff_ffff_ffff) i 0) k ≡ true
ones_full n i k h p = rw (
  get_or-replicate_in {A = ℕ} n i 0xffff_ffff_ffff_ffff 0 h,
  bit-complement 64 0 k (omega arith) p,
  bit-zero k,
)

huge_full : (j : ℕ) → j < 32768 → used huge j ≡ true
huge_full j h = ones_full 512 (j / 64) (j % 64) (omega arith) (omega arith)

alloc_beyond_example : alloc huge 1 ≡ none
alloc_beyond_example = alloc_beyond huge 1 refl (omega arith) huge_full (omega arith)
