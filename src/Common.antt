-- ===== src/Common.antt =====
-- src/libk/include/common.h: sizes and alignment.
pub mod Align
mod Tests
use ckernel.Prelude.{ℕ, ◌+◌, ◌*◌, ◌/◌, bit_and}
use ckernel.Word.{u32, u64, sub64, lnot64}

abbrev pub byte : ℕ
byte = 0x1

abbrev pub kb : ℕ
kb = 0x400

abbrev pub mb : ℕ
mb = 0x100000

abbrev pub gb : ℕ
gb = 0x40000000

abbrev pub page_size : ℕ
page_size = 4 * kb

abbrev pub kernel_space_size : ℕ
kernel_space_size = 8 * mb

abbrev pub kernel_space_pages : ℕ
kernel_space_pages = kernel_space_size / page_size

abbrev pub stack_size : ℕ
stack_size = 4 * kb

abbrev pub page_mask : ℕ
page_mask = lnot64 (sub64 page_size 1)

-- The template for pointers: the sum on a pointer to bytes, then the same mask.
unfoldable pub align_pointer : ℕ → ℕ → ℕ
align_pointer addr a = bit_and (sub64 (u64 (addr + a)) 1) (lnot64 (sub64 a 1))

-- The `uint64_t` overload; the sums and the difference wrap at 64 bits.
unfoldable pub align : ℕ → ℕ → ℕ
align x a = bit_and (sub64 (u64 (x + a)) 1) (lnot64 (sub64 a 1))

-- The `uint32_t` overload: computed at 64 bits and cut to 32.
unfoldable pub align32 : ℕ → ℕ → ℕ
align32 x a = u32 (bit_and (sub64 (u64 (x + a)) 1) (lnot64 (sub64 a 1)))
