-- ===== src/Multiboot2/Sample.antt =====
-- A boot information block with a boot loader name, a memory map of one entry of 16 MiB and an end tag.
use ckernel.Prelude.{ℕ, ◌+◌, ◌-◌, ◌%◌, ◌≡◌, refl, true, false, List, [], ◌∷◌, ◌++◌}
use ckernel.Prelude.{arith, get_or}
use ckernel.Common.{align32}
use ckernel.Mem.{Memory}
use ckernel.Multiboot2.{BootInfo, multiboot2_bootloader_magic, init, multiboot2_init, read_size}
use ckernel.Mem.{IsBytes}
use ckernel.Multiboot2.Iter.{Tags, end, more}
use ckernel.Multiboot2.Moved.{IsBlock, ends, goes_on}

abbrev pub base : ℕ
base = 0x200000

abbrev header : List ℕ
header = 72 ∷ 0 ∷ 0 ∷ 0 ∷ 0 ∷ 0 ∷ 0 ∷ 0 ∷ []

abbrev loader_name : List ℕ
loader_name = 2 ∷ 0 ∷ 0 ∷ 0 ∷ 9 ∷ 0 ∷ 0 ∷ 0 ∷ 0 ∷ 0 ∷ 0 ∷ 0 ∷ 0 ∷ 0 ∷ 0 ∷ 0 ∷ []

abbrev pub mmap : List ℕ
mmap =
    6 ∷ 0 ∷ 0 ∷ 0 ∷ 40 ∷ 0 ∷ 0 ∷ 0 ∷ 24 ∷ 0 ∷ 0 ∷ 0 ∷ 0 ∷ 0 ∷ 0 ∷ 0 ∷ 0 ∷ 0 ∷ 0 ∷ 0 ∷ 0 ∷ 0 ∷ 0 ∷ 0
    ∷ 0 ∷ 0 ∷ 0 ∷ 1 ∷ 0 ∷ 0 ∷ 0 ∷ 0 ∷ 1 ∷ 0 ∷ 0 ∷ 0 ∷ 0 ∷ 0 ∷ 0 ∷ 0 ∷ []

-- Behind the listed bytes everything is 0, also the end tag.
abbrev pub block : List ℕ → Memory
block bytes a = get_or (header ++ loader_name ++ bytes) (a - base) 0 % 256

abbrev pub memory : Memory
memory = block mmap

abbrev pub boot_info : BootInfo
boot_info = record {
  boot_info_addr = base;
  boot_info_size = 72;
  multiboot2_magic = multiboot2_bootloader_magic;
  inited = true;
}

pub memory-IsBytes : (bytes : List ℕ) → IsBytes (block bytes)
memory-IsBytes bytes a = omega arith

pub memory-Tags : Tags memory (base + 8) ((base + 8) ∷ (base + 24) ∷ [])
unfolding align32
memory-Tags = more (omega arith) (more (omega arith) (end refl))

pub block-Tags : Tags (block []) (base + 8) ((base + 8) ∷ [])
unfolding align32
block-Tags = more (omega arith) (end refl)

-- The boot information is accepted, and refused with another magic number.
pub init-boot_info : init memory boot_info ≡ (true, boot_info)
unfolding init multiboot2_init read_size
init-boot_info = refl

abbrev pub stranger : BootInfo
stranger = record boot_info { multiboot2_magic = 0 }

pub init-stranger : (m : Memory) → init m stranger ≡ (false, stranger)
unfolding init multiboot2_init
init-stranger m = refl

-- The size and the tags of the block, in its first page.
pub memory-size : read_size memory base ≡ 72
unfolding read_size
memory-size = refl

pub memory-IsBlock : IsBlock memory base 4096 8
unfolding align32
memory-IsBlock =
    goes_on (omega arith) (omega arith) (λ e. omega arith) (omega arith)
      (goes_on (omega arith) (omega arith) (λ e. omega arith) (omega arith)
        (ends (omega arith) refl))
