-- ===== src/Word.antt =====
-- `uint8_t` to `uint64_t` arithmetic as the C and C++ sources use it: every operation is followed
-- by the reduction to its width, shifts are a product or a quotient by a power of two, and `~` is
-- the complement to all ones.
pub mod Step
pub mod Bits
pub mod Shift
use ckernel.Prelude.{ℕ, ◌+◌, ◌-◌, ◌*◌, ◌/◌, ◌%◌, ◌^◌}

abbrev pub u8 : ℕ → ℕ
u8 n = n % 2 ^ 8

abbrev pub u16 : ℕ → ℕ
u16 n = n % 2 ^ 16

abbrev pub u32 : ℕ → ℕ
u32 n = n % 2 ^ 32

abbrev pub u64 : ℕ → ℕ
u64 n = n % 2 ^ 64

-- `a - b` at 64 bits, for `b` below 2 ^ 64.
abbrev pub sub64 : ℕ → ℕ → ℕ
sub64 a b = (a + 2 ^ 64 - b) % 2 ^ 64

-- `~(size_t)0`
abbrev pub all_ones : ℕ
all_ones = 2 ^ 64 - 1

-- `~a` at 64 bits
abbrev pub lnot64 : ℕ → ℕ
lnot64 a = 2 ^ 64 - 1 - a

infixl 75 ◌<<<◌ ◌>>>◌
abbrev pub ◌<<<◌ : ℕ → ℕ → ℕ
x <<< k = x * 2 ^ k

abbrev pub ◌>>>◌ : ℕ → ℕ → ℕ
x >>> k = x / 2 ^ k
