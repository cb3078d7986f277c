-- ===== src/Multiboot2/Init.antt =====
-- multiboot2_init: which blocks it accepts.
use ckernel.Prelude.{refl, ℕ, ◌+◌, ◌*◌, ◌%◌, ◌^◌, ◌≤◌, ◌≡◌, ◌↔◌, true}
use ckernel.Prelude.{arith}
use ckernel.Word.Bits.{bit_and_mask}
use ckernel.Word.Shift.{bit_or-zero_left, bit_or-shifted}
use ckernel.Mem.{IsBytes, Memory, load32}
use ckernel.Multiboot2.{BootInfo, multiboot2_bootloader_magic, read_size, multiboot2_init, init}
use native.Mathlib.Nat.{add-zero}

read_size-eq-load32 : (m : Memory) (addr : ℕ) → IsBytes m → read_size m addr ≡ load32 m addr
unfolding read_size
read_size-eq-load32 m addr bytes = rw (
  add-zero addr,
  bit_or-zero_left,
  cut0,
  cut1,
  cut2,
  cut3,
  bit_or-shifted 8 (m addr) (m (addr + 1)) (bytes addr),
  bit_or-shifted 16 low2 (m (addr + 2)) (omega (arith, bytes addr, bytes (addr + 1))),
  bit_or-shifted 24 low3 (m (addr + 3))
      (omega (arith, bytes addr, bytes (addr + 1), bytes (addr + 2))),
)
  where
    low2 : ℕ
    low2 = m addr + m (addr + 1) * 2 ^ 8

    low3 : ℕ
    low3 = low2 + m (addr + 2) * 2 ^ 16

    cut0 : m addr * 1 % 2 ^ 32 ≡ m addr
    cut0 = omega (arith, bytes addr)

    cut1 : m (addr + 1) * 256 % 2 ^ 32 ≡ m (addr + 1) * 2 ^ 8
    cut1 = omega (arith, bytes (addr + 1))

    cut2 : m (addr + 2) * 65536 % 2 ^ 32 ≡ m (addr + 2) * 2 ^ 16
    cut2 = omega (arith, bytes (addr + 2))

    cut3 : m (addr + 3) * 16777216 % 2 ^ 32 ≡ m (addr + 3) * 2 ^ 24
    cut3 = omega (arith, bytes (addr + 3))

-- Over a memory of bytes, `init` succeeds exactly if the magic number is right and the block is aligned
-- to 8 bytes, lies between 1 and 16 MiB and gives itself a size from 8 to 65536 bytes. It keeps the
-- address and the magic number and always marks the information as initialised.
pub init_iff :
    (m : Memory) (b : BootInfo)
    → IsBytes m
    → (((init m b).0 ≡ true) ↔ (
        (b.multiboot2_magic ≡ multiboot2_bootloader_magic)
        × (b.boot_info_addr % 8 ≡ 0)
        × (0x100000 ≤ b.boot_info_addr)
        × (b.boot_info_addr ≤ 0x1000000)
        × (8 ≤ load32 m b.boot_info_addr)
        × (load32 m b.boot_info_addr ≤ 65536)))
      × ((init m b).1.boot_info_addr ≡ b.boot_info_addr)
      × ((init m b).1.multiboot2_magic ≡ b.multiboot2_magic)
      × ((init m b).1.inited ≡ true)
unfolding init multiboot2_init
init_iff m b bytes =
    ground (arith, read_size-eq-load32 m b.boot_info_addr bytes, bit_and_mask 3 b.boot_info_addr)

-- `init` does not move the information.
pub init_addr : (m : Memory) (b : BootInfo) → (init m b).1.boot_info_addr ≡ b.boot_info_addr
unfolding init multiboot2_init
init_addr m b = ground arith

-- What `init` makes of a block that it accepts.
pub init_accepted :
    (m : Memory) (b : BootInfo)
    → IsBytes m
    → b.multiboot2_magic ≡ multiboot2_bootloader_magic
    → b.boot_info_addr % 8 ≡ 0
    → 0x100000 ≤ b.boot_info_addr
    → b.boot_info_addr ≤ 0x1000000
    → 8 ≤ load32 m b.boot_info_addr
    → load32 m b.boot_info_addr ≤ 65536
    → init m b ≡ (true, record b { boot_info_size = load32 m b.boot_info_addr; inited = true })
unfolding init multiboot2_init
init_accepted m b bytes magic aligned low high some_size fits =
    rw (magic, read_size-eq-load32 m b.boot_info_addr bytes, bit_and_mask 3 b.boot_info_addr)
      (ground (arith, aligned, low, high, some_size, fits))

-- `init` marks the information as initialised, and keeps a size that the block itself gives.
pub init_kept :
    (m : Memory) (b : BootInfo)
    → ((init m b).1.inited ≡ true)
      × (read_size m b.boot_info_addr ≡ b.boot_info_size
          → (init m b).1.boot_info_size ≡ b.boot_info_size)
unfolding init multiboot2_init
init_kept m b = (refl, λ e. ground (arith, e))
