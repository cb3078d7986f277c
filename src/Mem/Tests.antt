-- ===== src/Mem/Tests.antt =====
-- Runs of the block functions on a memory whose byte at address `a` is `a % 256`.
use ckernel.Prelude.{◌%◌, ◌≡◌, refl}
use ckernel.Prelude.Int.{pos, negsuc}
use ckernel.Mem.{Memory, memset, memset_loop, memcpy, copy_up, memmove, copy_down, memcmp}
use ckernel.Mem.Copy.{copied, memmove_lem}

abbrev ramp : Memory
ramp a = a % 256

memset_runs : ((memset ramp 100 0x1ff 4).1 103 ≡ 0xff) × ((memset ramp 100 0x1ff 4).1 104 ≡ 104)
unfolding memset memset_loop
memset_runs = (refl, refl)

-- Copying to one byte behind the source: `memmove` keeps the block, `memcpy` repeats its first byte.
overlap :
    ((memmove ramp 11 10 3).1 13 ≡ 12)
    × ((memcpy ramp 11 10 3).1 13 ≡ 10)
    × ((memmove ramp 10 11 3).1 12 ≡ 13)
unfolding memmove memcpy copy_up copy_down
overlap = (refl, refl, refl)

memcmp_runs :
    (memcmp ramp 10 266 5 ≡ pos 0)
    × (memcmp ramp 10 11 5 ≡ negsuc 0)
    × (memcmp ramp 11 10 5 ≡ pos 1)
unfolding memcmp
memcmp_runs = (refl, refl, refl)

memmove_lem_example : memmove ramp 11 10 3 ≡ (11, copied ramp 11 10 3)
memmove_lem_example = memmove_lem ramp 11 10 3
