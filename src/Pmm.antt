-- ===== src/Pmm.antt =====
-- src/libk/src/pmm.cpp with src/libk/include/pmm.h: the physical memory manager. It owns a first-fit
-- allocator for the kernel's own space and one for the rest. `none` is an access outside a bitmap, or a
-- boot information block that the search for the memory map does not get through. The messages are left
-- out; `assert(0)` only prints one and goes on.
pub mod Space
pub mod Release
pub mod History
pub mod Consistent
pub mod Moves
pub mod Reachable
pub mod Held
pub mod Refinement
pub mod Layout
pub mod Boot
pub mod Booted
pub mod Moved
pub mod Sample
mod Tests
use ckernel.Prelude.{ℕ, ◌+◌, ◌*◌, ◌/◌, ◌%◌, Bool, true, false, ◌&&◌, not, Option, none, some}
use ckernel.Prelude.{if◌then◌else◌, ltb, leb, ◌==◌, ◌>>=◌}
use ckernel.Word.{u64, sub64}
use ckernel.Common.{page_size, kernel_space_size, align}
use ckernel.Mem.{Memory, memcpy}
use ckernel.Firstfit.{Firstfit, firstfit, alloc, alloc_at, free, get_used_count, get_free_count}
use ckernel.Multiboot2.{BootInfo, Resource, init as boot_info_init, get_memory}

pub record Pmm : Type 0 where
  pub start : ℕ
  pub length : ℕ
  pub total_pages : ℕ
  pub kernel_space_start : ℕ
  pub kernel_space_length : ℕ
  pub non_kernel_space_start : ℕ
  pub non_kernel_space_length : ℕ
  pub kernel_space_allocator : Firstfit
  pub allocator : Firstfit

-- Keep the value of a call on one of the allocators, and put the allocator's new state back.
abbrev pub on_other : {A : Type 0} → Pmm → Option (A × Firstfit) → Option (A × Pmm)
on_other p r = do (x, a) ← r; some (x, record p { allocator = a })

abbrev pub on_kernel : {A : Type 0} → Pmm → Option (A × Firstfit) → Option (A × Pmm)
on_kernel p r = do (x, a) ← r; some (x, record p { kernel_space_allocator = a })

pub alloc_pages : Pmm → ℕ → Option (ℕ × Pmm)
alloc_pages p len = on_other p (alloc p.allocator len)

pub alloc_page : Pmm → Option (ℕ × Pmm)
alloc_page p = on_other p (alloc p.allocator 1)

abbrev pub alloc_pages_at : Pmm → ℕ → ℕ → Option (Bool × Pmm)
alloc_pages_at p addr len = on_other p (alloc_at p.allocator addr len)

pub alloc_pages_kernel : Pmm → ℕ → Option (ℕ × Pmm)
alloc_pages_kernel p len = on_kernel p (alloc p.kernel_space_allocator len)

pub alloc_page_kernel : Pmm → Option (ℕ × Pmm)
alloc_page_kernel p = on_kernel p (alloc p.kernel_space_allocator 1)

pub alloc_pages_kernel_at : Pmm → ℕ → ℕ → Option (Bool × Pmm)
alloc_pages_kernel_at p addr len = on_kernel p (alloc_at p.kernel_space_allocator addr len)

-- The guards of `free_page` and `free_pages`; the end of a space wraps.
abbrev pub in_kernel_space : Pmm → ℕ → Bool
in_kernel_space p addr =
    leb p.kernel_space_start addr && ltb addr (u64 (p.kernel_space_start + p.kernel_space_length))

abbrev pub in_other_space : Pmm → ℕ → Bool
in_other_space p addr =
    leb p.non_kernel_space_start addr
    && ltb addr (u64 (p.non_kernel_space_start + p.non_kernel_space_length))

pub free_pages : Pmm → ℕ → ℕ → Option Pmm
free_pages p addr len =
    if in_kernel_space p addr
    then (do
      a ← free p.kernel_space_allocator addr len
      some (record p { kernel_space_allocator = a }))
    else if in_other_space p addr
    then (do a ← free p.allocator addr len; some (record p { allocator = a }))
    else some p

pub free_page : Pmm → ℕ → Option Pmm
free_page p addr =
    if in_kernel_space p addr
    then (do
      a ← free p.kernel_space_allocator addr 1
      some (record p { kernel_space_allocator = a }))
    else if in_other_space p addr
    then (do a ← free p.allocator addr 1; some (record p { allocator = a }))
    else some p

abbrev pub get_pmm_length : Pmm → ℕ
get_pmm_length p = p.length

abbrev pub get_kernel_space_start : Pmm → ℕ
get_kernel_space_start p = p.kernel_space_start

abbrev pub get_kernel_space_length : Pmm → ℕ
get_kernel_space_length p = p.kernel_space_length

abbrev pub get_non_kernel_space_start : Pmm → ℕ
get_non_kernel_space_start p = p.non_kernel_space_start

abbrev pub get_non_kernel_space_length : Pmm → ℕ
get_non_kernel_space_length p = p.non_kernel_space_length

pub get_used_pages_count : Pmm → ℕ
get_used_pages_count p = u64 (get_used_count p.kernel_space_allocator + get_used_count p.allocator)

pub get_free_pages_count : Pmm → ℕ
get_free_pages_count p = u64 (get_free_count p.kernel_space_allocator + get_free_count p.allocator)

-- What `init` works on.
pub record Machine : Type 0 where
  pub memory : Memory
  pub boot_info : BootInfo
  pub pmm : Pmm

-- The pages that the boot information takes.
abbrev pub boot_info_pages : BootInfo → ℕ
boot_info_pages b =
    let pages = b.boot_info_size / page_size in
    if not (b.boot_info_size % page_size == 0) then u64 (pages + 1) else pages

pub move_boot_info : Machine → Option Machine
move_boot_info s = do
  let pages = boot_info_pages s.boot_info
  (new_addr, p) ← alloc_pages_kernel s.pmm pages
  let (_, m) = memcpy s.memory new_addr s.boot_info.boot_info_addr (u64 (pages * page_size))
  let (_, b) = boot_info_init m (record (s.boot_info) { boot_info_addr = new_addr })
  some (record { memory = m; boot_info = b; pmm = p })

-- `KERNEL_START_ADDR` and `KERNEL_END_ADDR` are symbols of the linker script.
module _ (kernel_start_addr kernel_end_addr : ℕ) where
  abbrev pub kernel_pages : ℕ
  kernel_pages =
      sub64 (align kernel_end_addr page_size) (align kernel_start_addr page_size) / page_size

  -- The fields and allocators that `init` sets, for a memory of the given start and length. The
  -- allocators are function statics: they are made by the first `init` that gets here.
  pub layout : ℕ → ℕ → Pmm
  layout start length =
      let other_start = u64 (kernel_start_addr + kernel_space_size) in
      let other_length = sub64 length kernel_space_size in
      record {
        start = start;
        length = length;
        total_pages = length / page_size;
        kernel_space_start = kernel_start_addr;
        kernel_space_length = kernel_space_size;
        non_kernel_space_start = other_start;
        non_kernel_space_length = other_length;
        kernel_space_allocator =
            firstfit "First Fit Allocator(kernel space)" kernel_start_addr
              (kernel_space_size / page_size);
        allocator = firstfit "First Fit Allocator" other_start (other_length / page_size);
      }

  -- The rest of `init`, after the allocators are there.
  pub reserve : Machine → Option (Bool × Machine)
  reserve s = do
    (reserved, p) ← alloc_pages_kernel_at s.pmm kernel_start_addr kernel_pages
    if reserved
        then (do s' ← move_boot_info (record s { pmm = p }); some (true, s'))
        else some (false, record s { pmm = p })

  -- `PMM::init`, its first call; `fuel` bounds the tags of the boot information.
  pub init : ℕ → Machine → Option (Bool × Machine)
  init fuel s = do
    r ← get_memory fuel s.memory s.boot_info
    if r.len == 0 then some (false, s) else reserve (record s { pmm = layout r.addr r.len })
