-- ===== src/Firstfit/Init.antt =====
-- The constructor of firstfit.cpp.
use ckernel.Prelude.{ℕ, ◌+◌, ◌*◌, ◌/◌, ◌%◌, ◌≤◌, ◌<◌, ◌^◌, ◌≡◌, sym, refl, false, arith}
use ckernel.Prelude.{length-replicate, get_or-replicate}
use ckernel.Common.{page_size}
use ckernel.Firstfit.{firstfit, bits_arr_size, get_used_count, get_free_count}
use ckernel.Firstfit.Bitmap.{used}
use ckernel.Firstfit.Count.{count-false}
use ckernel.Firstfit.Alloc.{IsValid}
use ckernel.Word.Bits.{bit-zero}
use Prim.Native.String.{String}

pub used-firstfit : (tag : String) (addr len j : ℕ) → used (firstfit tag addr len) j ≡ false
unfolding firstfit
used-firstfit tag addr len j =
    rw (get_or-replicate {A = ℕ} bits_arr_size (j / 64) 0, bit-zero (j % 64))

-- The constructor gives a valid allocator of free pages only, for an area of at most 32768 pages
-- whose end does not wrap.
pub firstfit-IsValid :
    (tag : String) (addr len : ℕ)
    → len ≤ 32768
    → addr + len * page_size < 2 ^ 64
    → let a = firstfit tag addr len in
      IsValid a × (get_free_count a ≡ len) × (get_used_count a ≡ 0) × ((j : ℕ) → used a j ≡ false)
unfolding firstfit get_free_count get_used_count
firstfit-IsValid tag addr len fits no_wrap = (
  record {
    bounded = record { whole = length-replicate {A = ℕ} bits_arr_size 0; fits = fits };
    counted = sym (count-false _ len (used-firstfit tag addr len));
    balance = omega arith;
    no_wrap = no_wrap;
  },
  refl,
  refl,
  used-firstfit tag addr len,
)

pub firstfit_area :
    (tag : String) (addr len : ℕ)
    → ((firstfit tag addr len).allocator_start_addr ≡ addr)
      × ((firstfit tag addr len).allocator_length ≡ len)
unfolding firstfit
firstfit_area tag addr len = (refl, refl)
