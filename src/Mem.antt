-- ===== src/Mem.antt =====
-- src/libc/src/string/string.c, the functions over blocks of bytes: memset, bzero, memcpy, memmove and
-- memcmp. The memory is the byte at each address; pointer arithmetic does not wrap, since an object
-- ends below the top of the address space. A function that stores returns its value beside the new
-- memory.
pub mod Copy
pub mod Fill
pub mod Compare
mod Tests
use ckernel.Prelude.{ℕ, zero, suc, ◌+◌, ◌*◌, ◌<◌, if◌then◌else◌, ◌==◌, ltb}
use ckernel.Word.{u8}
use ckernel.Prelude.Int.{ℤ, pos, negsuc}

abbrev pub Memory : Type 0
Memory = ℕ → ℕ

abbrev pub store : Memory → ℕ → ℕ → Memory
store m a v q = if a == q then v else m q

-- The loops count down `_len`, the rounds left.
pub memset_loop : ℕ → ℕ → ℕ → Memory → Memory
memset_loop zero ptr val m = m
memset_loop (suc len) ptr val m = memset_loop len (ptr + 1) val (store m ptr (u8 val))

pub memset : Memory → ℕ → ℕ → ℕ → ℕ × Memory
memset m dest val len = (dest, memset_loop len dest val m)

pub bzero : Memory → ℕ → ℕ → Memory
bzero m dest len = (memset m dest 0 len).1

unfoldable pub copy_up : ℕ → ℕ → ℕ → Memory → Memory
copy_up zero d s m = m
copy_up (suc len) d s m = copy_up len (d + 1) (s + 1) (store m d (m s))

pub memcpy : Memory → ℕ → ℕ → ℕ → ℕ × Memory
memcpy m dest src len = (dest, copy_up len dest src m)

-- The loop from the last byte down: with `suc k` rounds left `lastd` is `d + k`.
pub copy_down : ℕ → ℕ → ℕ → Memory → Memory
copy_down zero d s m = m
copy_down (suc k) d s m = copy_down k d s (store m (d + k) (m (s + k)))

pub memmove : Memory → ℕ → ℕ → ℕ → ℕ × Memory
memmove m dest src len =
    (dest, if ltb dest src then copy_up len dest src m else copy_down len dest src m)

pub memcmp : Memory → ℕ → ℕ → ℕ → ℤ
memcmp m s1 s2 zero = pos 0
memcmp m s1 s2 (suc count) =
    let rest = memcmp m (s1 + 1) (s2 + 1) count in
    if m s1 == m s2 then rest else if ltb (m s1) (m s2) then negsuc 0 else pos 1

-- Every address holds a byte.
abbrev pub IsBytes : Memory → Type 0
IsBytes m = (a : ℕ) → m a < 256

-- Loads of little-endian words.
abbrev pub load32 : Memory → ℕ → ℕ
load32 m a = m a + m (a + 1) * 0x100 + m (a + 2) * 0x10000 + m (a + 3) * 0x1000000

abbrev pub load64 : Memory → ℕ → ℕ
load64 m a = load32 m a + load32 m (a + 4) * 0x1_0000_0000
