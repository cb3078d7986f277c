-- ===== src/Multiboot2.antt =====
-- src/libk/src/multiboot2.cpp with src/libk/include/multiboot2.h, boot_info.h and resource.h: the block
-- of boot information that the boot loader leaves in memory. The loops over tags take fuel; `none`
-- means that it ran out. The messages that the functions print are left out.
pub mod Init
pub mod Iter
pub mod MemoryMap
pub mod Moved
pub mod Sample
mod Tests
use ckernel.Prelude.{
  ℕ, zero, suc, ◌+◌, ◌-◌, ◌*◌, ◌/◌, Bool, true, false, not, ◌||◌, Option, none, some,
}
use ckernel.Prelude.{if◌then◌else◌, ltb, leb, ◌==◌, ◌>>=◌, bit_and, bit_or}
use ckernel.Word.{u32, u64, ◌<<<◌}
use ckernel.Common.{align32}
use ckernel.Mem.{Memory, load32, load64}
use Prim.Native.String.{String}

-- The global variables of the namespace BOOT_INFO.
pub record BootInfo : Type 0 where
  pub boot_info_addr : ℕ
  pub boot_info_size : ℕ
  pub multiboot2_magic : ℕ
  pub inited : Bool

-- `resource_t`; `none` is the null pointer of an unset name.
pub record Resource : Type 0 where
  pub type : ℕ
  pub name : Option String
  pub addr : ℕ
  pub len : ℕ
  pub intr_no : ℕ

abbrev pub resource : Resource
resource = record { type = 0; name = none; addr = 0; len = 0; intr_no = 0 }

abbrev pub multiboot2_bootloader_magic : ℕ
multiboot2_bootloader_magic = 0x36d76289

abbrev pub tag_type_end : ℕ
tag_type_end = 0

abbrev pub tag_type_mmap : ℕ
tag_type_mmap = 6

abbrev pub memory_available : ℕ
memory_available = 1

-- `size |= (uint32_t)(size_ptr[i]) << (i * 8)` for `i` below 4
abbrev pub read_size_step : Memory → ℕ → ℕ → ℕ → ℕ
read_size_step m addr i size = bit_or size (u32 (m (addr + i) <<< (i * 8)))

pub read_size : Memory → ℕ → ℕ
read_size m addr =
    read_size_step m addr 3
      (read_size_step m addr 2 (read_size_step m addr 1 (read_size_step m addr 0 0)))

pub multiboot2_init : Memory → BootInfo → Bool × BootInfo
multiboot2_init m b =
    let addr = b.boot_info_addr in
    let size = read_size m addr in
    let sized = record b { boot_info_size = size } in
    if not (b.multiboot2_magic == multiboot2_bootloader_magic)
    then (false, b)
    else if not (bit_and addr 7 == 0)
    then (false, b)
    else if addr == 0
    then (false, b)
    else if ltb addr 0x100000 || ltb 0x1000000 addr
    then (false, b)
    else if ltb size 8 || ltb 65536 size
    then (false, sized)
    else (true, sized)

-- `BOOT_INFO::init`
pub init : Memory → BootInfo → Bool × BootInfo
init m b = let (res, b') = multiboot2_init m b in (res, record b' { inited = true })

-- The fields of an `iter_data_t`.
abbrev pub tag_type : Memory → ℕ → ℕ
tag_type m tag = load32 m tag

abbrev pub tag_size : Memory → ℕ → ℕ
tag_size m tag = load32 m (tag + 4)

module _ {D : Type 0} (m : Memory) (fun : ℕ → D → Bool × D) where
  -- The loop of `multiboot2_iter` at the tag `tag`.
  pub iter_loop : ℕ → ℕ → D → Option D
  iter_loop zero tag data' = none
  iter_loop (suc fuel) tag data' =
      let (stop, data'') = fun tag data' in
      let rest = iter_loop fuel (u64 (tag + align32 (tag_size m tag) 8)) data'' in
      if tag_type m tag == tag_type_end then some data' else if stop then some data'' else rest

  pub multiboot2_iter : ℕ → BootInfo → D → Option D
  multiboot2_iter fuel b data' = iter_loop fuel (b.boot_info_addr + 8) data'

-- The loop over the memory map, with `max_entries - i` rounds left.
pub entries_loop : ℕ → Memory → ℕ → ℕ → ℕ → ℕ → ℕ
entries_loop zero m tag_end entry_size mmap len = len
entries_loop (suc left) m tag_end entry_size mmap len =
    let entry_len = load64 m (mmap + 8) in
    let available = load32 m (mmap + 16) == memory_available in
    let len' = if entry_len == 0 then len else if available then u64 (len + entry_len) else len in
    let rest = entries_loop left m tag_end entry_size (mmap + entry_size) len' in
    if ltb tag_end (mmap + 24) then len else rest

-- The callback that looks for the memory map tag.
pub get_memory_tag : Memory → ℕ → Resource → Bool × Resource
get_memory_tag m tag r =
    let entry_size = load32 m (tag + 8) in
    let size = tag_size m tag in
    let r' = record r {
      type = bit_or r.type 1;
      name = some "available phy memory";
      addr = 0;
      len = 0;
    } in
    let max_entries = (size - 16) / entry_size in
    let total = entries_loop max_entries m (tag + size) entry_size (tag + 16) 0 in
    if not (tag_type m tag == tag_type_mmap)
    then (false, r)
    else if entry_size == 0 || ltb size 16
    then (false, r')
    else (true, record r' { len = total })

-- `BOOT_INFO::get_memory`
pub get_memory : ℕ → Memory → BootInfo → Option Resource
get_memory fuel m b =
    let found = multiboot2_iter m (get_memory_tag m) fuel b resource in
    if not b.inited then some resource else found
