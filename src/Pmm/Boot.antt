-- ===== src/Pmm/Boot.antt =====
-- PMM::init: the two spaces, the kernel's own pages and the move of the boot information.
use ckernel.Prelude.{
  refl, ℕ, ◌+◌, ◌-◌, ◌*◌, ◌/◌, ◌%◌, ◌≤◌, ◌<◌, ◌^◌, ◌≡◌, sym, ◌∙◌, ap, ◌⊎◌, true, false,
}
use ckernel.Prelude.{some, arith, ltb, ◌==◌}
use ckernel.Word.{u64}
use ckernel.Common.{page_size, kernel_space_size}
use ckernel.Common.Align.{align_lem}
use ckernel.Mem.{Memory, memcpy}
use ckernel.Mem.Copy.{copied, memcpy_lem}
use ckernel.Firstfit.{Firstfit, alloc, alloc_at}
use ckernel.Firstfit.Bitmap.{used}
use ckernel.Firstfit.Fresh.{IsFilledTo, reserve_first, alloc_next}
use ckernel.Multiboot2.{BootInfo, Resource, init as boot_info_init, get_memory}
use ckernel.Multiboot2.Init.{init_addr}
use ckernel.Multiboot2.Iter.{Tags}
use ckernel.Multiboot2.MemoryMap.{NoneMmap, get_memory_missing}
use ckernel.Prelude.{List, length}
use ckernel.Pmm.{
  Pmm, Machine, boot_info_pages, alloc_pages_kernel, alloc_pages_kernel_at, move_boot_info,
  kernel_pages, layout, reserve, init,
}
use ckernel.Pmm.Space.{IsOver, IsPmm}
use ckernel.Pmm.Layout.{IsNew, layout-IsNew}

-- The pages from the one of the kernel's start up to its end.
abbrev pub image_pages : ℕ → ℕ → ℕ
image_pages kernel_start kernel_end =
    (kernel_end + (page_size - 1)) / page_size - kernel_start / page_size

kernel_pages_lem :
    (kernel_start kernel_end : ℕ)
    → kernel_start % page_size ≡ 0
    → kernel_start ≤ kernel_end
    → kernel_end + page_size < 2 ^ 64
    → kernel_pages kernel_start kernel_end ≡ image_pages kernel_start kernel_end
kernel_pages_lem s e aligned order small =
    let (start, _) = align_lem s (omega arith) in
    let (stop, _) = align_lem e small in omega (arith, start, stop)

-- The number of pages that hold `size` bytes.
abbrev pub pages_for : ℕ → ℕ
pages_for size = (size + (page_size - 1)) / page_size

boot_info_pages_lem :
    (b : BootInfo) → b.boot_info_size ≤ 65536 → boot_info_pages b ≡ pages_for b.boot_info_size
boot_info_pages_lem b small = ground arith

-- `s'` is `s` with the `k` pages of the kernel image and, behind them, `n` pages with the boot
-- information taken from the kernel's space, and no other pages.
pub record IsBooted (kernel_start k n : ℕ) (s s' : Machine) : Type 0 where
  pub valid : IsPmm s'.pmm
  pub at : s'.pmm.kernel_space_start ≡ kernel_start
  pub kernel_total : s'.pmm.kernel_space_allocator.allocator_length ≡ 2048
  pub kernel_use : (j : ℕ) → used s'.pmm.kernel_space_allocator j ≡ ltb j (k + n)
  pub other_use : (j : ℕ) → used s'.pmm.allocator j ≡ false
  pub moved : s'.boot_info.boot_info_addr ≡ kernel_start + page_size * k
  pub info :
      s'.boot_info
      ≡ (boot_info_init s'.memory
          (record (s.boot_info) { boot_info_addr = kernel_start + page_size * k })).1
  pub memory :
      s'.memory
      ≡ copied s.memory (kernel_start + page_size * k) s.boot_info.boot_info_addr (n * page_size)

-- The same, with equal numbers and another manager before.
recount :
    {kernel_start k k' n n' : ℕ} {s s' : Machine} {p : Pmm}
    → k ≡ k'
    → n ≡ n'
    → IsBooted kernel_start k n (record s { pmm = p }) s'
    → IsBooted kernel_start k' n' s s'
recount e e' b =
    rw (← e, ← e')
      record {
        valid = b.valid;
        at = b.at;
        kernel_total = b.kernel_total;
        kernel_use = b.kernel_use;
        other_use = b.other_use;
        moved = b.moved;
        info = b.info;
        memory = b.memory;
      }

-- Where the boot information goes does not start inside the old block behind its first byte.
abbrev pub NoOverlap : ℕ → ℕ → ℕ → Type 0
NoOverlap dest src len = (dest ≤ src) ⊎ (src + len ≤ dest)

move_lem :
    (kernel_start k : ℕ) (s : Machine) (a : Firstfit)
    → IsNew kernel_start s.pmm
    → IsFilledTo s.pmm.kernel_space_allocator k a
    → let n = boot_info_pages s.boot_info in
      0 < n
      → k + n ≤ 2048
      → NoOverlap (kernel_start + page_size * k) s.boot_info.boot_info_addr (n * page_size)
      → (s' : Machine) × (move_boot_info
            (record s { pmm = record (s.pmm) { kernel_space_allocator = a } })
          ≡ some s')
        × IsBooted kernel_start k n s s'
unfolding move_boot_info alloc_pages_kernel
move_lem kernel_start k s a new filled pos room apart =
    let b = s.boot_info in
    let n = boot_info_pages b in
    let dest = kernel_start + page_size * k in
    let v = new.valid in
    let total = new.kernel_total in
    let place : s.pmm.kernel_space_allocator.allocator_start_addr ≡ kernel_start =
      v.kernel.at ∙ new.at in
    let (c, ran, filled') = alloc_next s.pmm.kernel_space_allocator k n filled pos (omega arith) in
    let ran' : alloc a n ≡ some (dest, c) =
      ran ∙ ap (λ (t : ℕ). some (t + page_size * k, c)) place in
    let bytes : u64 (n * page_size) ≡ n * page_size = omega arith in
    let m = (memcpy s.memory dest b.boot_info_addr (u64 (n * page_size))).1 in
    let b' : BootInfo = record b { boot_info_addr = dest } in
    let over : IsOver s.pmm.kernel_space_start s.pmm.kernel_space_length c = record {
      valid = filled'.valid;
      at = filled'.start ∙ v.kernel.at;
      inside = omega (arith, filled'.total, v.kernel.inside);
    } in
    (
      record {
        memory = m;
        boot_info = (boot_info_init m b').1;
        pmm = record (s.pmm) { kernel_space_allocator = c };
      },
      rw ran',
      record {
        valid = record {
          kernel = over;
          other = v.other;
          not_null = v.not_null;
          apart = v.apart;
          no_wrap = v.no_wrap;
        };
        at = new.at;
        kernel_total = filled'.total ∙ total;
        kernel_use = filled'.pages;
        other_use = new.other_fresh;
        moved = init_addr m b';
        info = refl;
        memory = rw bytes (
            ap (λ (t : ℕ × Memory). t.1)
              (memcpy_lem s.memory dest b.boot_info_addr (n * page_size) apart));
      },
    )

reserve_lem :
    (kernel_start kernel_end : ℕ) (s : Machine)
    → IsNew kernel_start s.pmm
    → let k = kernel_pages kernel_start kernel_end in
      let n = boot_info_pages s.boot_info in
      0 < n
      → k + n ≤ 2048
      → NoOverlap (kernel_start + page_size * k) s.boot_info.boot_info_addr (n * page_size)
      → (s' : Machine) × (reserve kernel_start kernel_end s ≡ some (true, s'))
        × IsBooted kernel_start k n s s'
unfolding reserve alloc_pages_kernel_at
reserve_lem kernel_start kernel_end s new pos room apart =
    let k = kernel_pages kernel_start kernel_end in
    let total = new.kernel_total in
    let place : s.pmm.kernel_space_allocator.allocator_start_addr ≡ kernel_start =
      new.valid.kernel.at ∙ new.at in
    let (a, ran, filled) =
      reserve_first s.pmm.kernel_space_allocator k new.valid.kernel.valid new.kernel_fresh
        (omega arith) (omega arith) in
    let ran' : alloc_at s.pmm.kernel_space_allocator kernel_start k ≡ some (true, a) =
      ap (λ (t : ℕ). alloc_at s.pmm.kernel_space_allocator t k) (sym place) ∙ ran in
    let (s', moved, booted) = move_lem kernel_start k s a new filled pos room apart in
    (s', rw (ran', moved), booted)

-- On its first call, `init` succeeds under these conditions: the search of the boot information for
-- the memory ends and gives from 8 to 136 MiB; the kernel starts on a page boundary above 0 and ends
-- above its start, and neither its end, rounded up, nor its start plus the memory's length wraps; the
-- kernel image and the pages for the boot information, whose size is from 1 to 65536 bytes, fit in the
-- 8 MiB of the kernel's space, and the new block does not start inside the old one behind its first
-- byte. The manager is then valid; exactly the pages of the image and, behind them, the pages with a
-- copy of the boot information are in use; and the boot information is found at its new place.
pub init_lem :
    (kernel_start kernel_end fuel : ℕ) (s : Machine) (r : Resource)
    → get_memory fuel s.memory s.boot_info ≡ some r
    → kernel_space_size ≤ r.len
    → r.len ≤ kernel_space_size + 32768 * page_size
    → kernel_start + r.len < 2 ^ 64
    → 0 < kernel_start
    → kernel_start % page_size ≡ 0
    → kernel_start ≤ kernel_end
    → kernel_end + page_size < 2 ^ 64
    → 0 < s.boot_info.boot_info_size
    → s.boot_info.boot_info_size ≤ 65536
    → image_pages kernel_start kernel_end + pages_for s.boot_info.boot_info_size ≤ 2048
    → NoOverlap
        (kernel_start + page_size * image_pages kernel_start kernel_end)
        s.boot_info.boot_info_addr
        (pages_for s.boot_info.boot_info_size * page_size)
    → (s' : Machine) × (init kernel_start kernel_end fuel s ≡ some (true, s'))
      × IsBooted kernel_start
          (image_pages kernel_start kernel_end)
          (pages_for s.boot_info.boot_info_size)
          s
          s'
unfolding init
init_lem ks ke fuel s r found least most no_wrap pos aligned order end_fits some_info info_fits room
      apart =
    let s₁ : Machine = record s { pmm = layout ks ke r.addr r.len } in
    let image = kernel_pages_lem ks ke aligned order end_fits in
    let info = boot_info_pages_lem s.boot_info info_fits in
    let (s', ran, booted) =
      reserve_lem ks ke s₁ (layout-IsNew ks ke r.addr r.len pos least most no_wrap)
        (omega (arith, info)) (omega (arith, image, info)) (rw (image, info) apart) in
    let some_memory : (r.len == 0) ≡ false = ground arith in
    (s', rw (found, some_memory, ran), recount image info booted)

-- If the boot information is initialised, its tags end with an end tag, none of them is a memory map,
-- and the search has more rounds than tags, `init` answers false and changes nothing.
pub init_missing :
    (kernel_start kernel_end fuel : ℕ) (s : Machine) (tags : List ℕ)
    → s.boot_info.inited ≡ true
    → Tags s.memory (s.boot_info.boot_info_addr + 8) tags
    → length tags < fuel
    → NoneMmap s.memory tags
    → init kernel_start kernel_end fuel s ≡ some (false, s)
unfolding init
init_missing kernel_start kernel_end fuel s tags ready listed enough no_mmap =
    rw (get_memory_missing s.memory s.boot_info fuel tags listed enough no_mmap)
