-- ===== src/Pmm/Layout.antt =====
-- The spaces of pmm.cpp as `PMM::init` lays them out.
use ckernel.Prelude.{ℕ, ◌+◌, ◌-◌, ◌*◌, ◌/◌, ◌≤◌, ◌<◌, ◌^◌, ◌≡◌, refl, ◌⊎◌, false}
use ckernel.Prelude.{arith}
use ckernel.Word.{u64, sub64}
use ckernel.Common.{page_size, kernel_space_size}
use ckernel.Firstfit.{firstfit}
use ckernel.Firstfit.Bitmap.{used}
use ckernel.Firstfit.Init.{firstfit-IsValid, firstfit_area, used-firstfit}
use Prim.Native.String.{String}
use ckernel.Prelude.{length, inl, inr}
use native.Mathlib.Decide.{dec_le}
use ckernel.Pmm.{Pmm, layout, get_non_kernel_space_start, get_non_kernel_space_length}
use ckernel.Pmm.Space.{IsOver, IsPmm}

-- The first-fit constructor, as an allocator over the area of `length` bytes at `start`.
firstfit-IsOver :
    (tag : String) (start length : ℕ)
    → length / page_size ≤ 32768
    → start + length < 2 ^ 64
    → IsOver start length (firstfit tag start (length / page_size))
firstfit-IsOver tag start length fits small =
    let (same_start, same_length) = firstfit_area tag start (length / page_size) in
    record {
      valid = (firstfit-IsValid tag start (length / page_size) fits (omega arith)).0;
      at = same_start;
      inside = omega (arith, same_length);
    }

-- A manager whose allocators are as new.
pub record IsNew (kernel_start : ℕ) (p : Pmm) : Type 0 where
  pub valid : IsPmm p
  pub at : p.kernel_space_start ≡ kernel_start
  pub kernel_total : p.kernel_space_allocator.allocator_length ≡ 2048
  pub kernel_fresh : (j : ℕ) → used p.kernel_space_allocator j ≡ false
  pub other_fresh : (j : ℕ) → used p.allocator j ≡ false

pub layout-IsNew :
    (kernel_start kernel_end start length : ℕ)
    → 0 < kernel_start
    → kernel_space_size ≤ length
    → length ≤ kernel_space_size + 32768 * page_size
    → kernel_start + length < 2 ^ 64
    → IsNew kernel_start (layout kernel_start kernel_end start length)
unfolding layout
layout-IsNew kernel_start kernel_end start length pos enough most small =
    let other_at : u64 (kernel_start + kernel_space_size) ≡ kernel_start + kernel_space_size =
      omega arith in
    let other_size : sub64 length kernel_space_size ≡ length - kernel_space_size = omega arith in
    record {
      valid = record {
        kernel =
            firstfit-IsOver "First Fit Allocator(kernel space)" kernel_start kernel_space_size
              (omega arith) (omega arith);
        other =
            firstfit-IsOver "First Fit Allocator" (u64 (kernel_start + kernel_space_size))
              (sub64 length kernel_space_size) (omega arith) (omega arith);
        not_null = pos;
        apart = omega arith;
        no_wrap = omega arith;
      };
      at = refl;
      kernel_total = (firstfit_area "First Fit Allocator(kernel space)" kernel_start 2048).1;
      kernel_fresh = used-firstfit "First Fit Allocator(kernel space)" kernel_start 2048;
      other_fresh =
          used-firstfit "First Fit Allocator" (u64 (kernel_start + kernel_space_size))
            (sub64 length kernel_space_size / page_size);
    }

-- If the start of the second space does not wrap, the spaces that `init` lays out end `kernel_start`
-- bytes above the length of the memory if that has at least 8 MiB; for a smaller memory, the length of
-- the second space wraps, and the sum of its start and its length is larger by 2 ^ 64.
pub layout_end :
    (kernel_start kernel_end start length : ℕ)
    → kernel_start + kernel_space_size < 2 ^ 64
    → length < 2 ^ 64
    → let p = layout kernel_start kernel_end start length in
      let other_end = get_non_kernel_space_start p + get_non_kernel_space_length p in
      ((kernel_space_size ≤ length) × (other_end ≡ length + kernel_start))
      ⊎ ((length < kernel_space_size) × (other_end ≡ length + kernel_start + 2 ^ 64))
unfolding layout
layout_end kernel_start kernel_end start length fits small =
    elim (dec_le kernel_space_size length) [
      | yes enough ↦ inl (enough, omega arith)
      | no less ↦ inr (omega arith, omega arith)
    ]
