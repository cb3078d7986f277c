-- ===== src/Multiboot2/Tests.antt =====
-- Runs over a boot information block, and the theorems applied to it.
use ckernel.Prelude.{ℕ, ◌+◌, ◌%◌, ◌≤◌, ◌≡◌, refl, ◌↔◌, Bool, true, false, [], ◌∷◌}
use ckernel.Prelude.{some, arith, ltb, if◌then◌else◌}
use ckernel.Mem.{Memory, load32}
use ckernel.Multiboot2.{
  multiboot2_bootloader_magic, multiboot2_init, read_size, init, get_memory, iter_loop,
}
use ckernel.Multiboot2.Init.{init_iff}
use ckernel.Multiboot2.Iter.{walk, iter_loop-walk}
use ckernel.Multiboot2.MemoryMap.{memory_of, get_memory_lem}
use Prim.{tt}
use ckernel.Multiboot2.Sample.{base, mmap, memory, boot_info, memory-IsBytes, memory-Tags}

init_runs : (init memory boot_info).0 ≡ true
unfolding init multiboot2_init read_size
init_runs = refl

init_iff_example :
    (((init memory boot_info).0 ≡ true) ↔ (
      (boot_info.multiboot2_magic ≡ multiboot2_bootloader_magic)
      × (boot_info.boot_info_addr % 8 ≡ 0)
      × (0x100000 ≤ boot_info.boot_info_addr)
      × (boot_info.boot_info_addr ≤ 0x1000000)
      × (8 ≤ load32 memory boot_info.boot_info_addr)
      × (load32 memory boot_info.boot_info_addr ≤ 65536)))
    × ((init memory boot_info).1.boot_info_addr ≡ boot_info.boot_info_addr)
    × ((init memory boot_info).1.multiboot2_magic ≡ boot_info.multiboot2_magic)
    × ((init memory boot_info).1.inited ≡ true)
init_iff_example = init_iff memory boot_info (memory-IsBytes mmap)

-- Count the tags, up to the second.
abbrev count_tags : ℕ → ℕ → Bool × ℕ
count_tags tag n = (ltb 0 n, n + 1)

iter_loop-walk_example :
    iter_loop memory count_tags 3 (base + 8) 0
    ≡ some (walk count_tags ((base + 8) ∷ (base + 24) ∷ []) 0)
iter_loop-walk_example = iter_loop-walk memory count_tags 3 0 memory-Tags (omega arith)

-- A tag of size 0 and an address that is not one of an end tag.
abbrev broken : Memory
broken a = if ltb a 1 then 1 else 0

abbrev never : ℕ → ℕ → Bool × ℕ
never tag n = (false, n)

get_memory_lem_example : get_memory 3 memory boot_info ≡ some (memory_of memory (base + 24))
get_memory_lem_example =
    get_memory_lem memory boot_info 3 ((base + 8) ∷ []) (base + 24) [] refl memory-Tags
      (omega arith) (omega arith, tt) refl (omega arith) (omega arith)
