-- ===== src/Pmm/Moved.antt =====
-- The boot information behind PMM::init: what `BOOT_INFO::get_memory` reads at its new place.
use ckernel.Prelude.{ℕ, ◌+◌, ◌*◌, ◌^◌, ◌<◌, ◌≡◌, sym, ◌∙◌, ap, true, arith}
use mathlib.Core.Path.{subst}
use ckernel.Common.{page_size}
use ckernel.Mem.{Memory}
use ckernel.Mem.Copy.{copied}
use ckernel.Multiboot2.{BootInfo, read_size, get_memory}
use ckernel.Multiboot2.Init.{init_kept}
use ckernel.Multiboot2.Moved.{AreSame, IsBlock, get_memory-same, read_size-same}
use ckernel.Pmm.{Machine}
use ckernel.Pmm.Boot.{IsBooted}

copied-AreSame : (m : Memory) (dest src n : ℕ) → AreSame m src (copied m dest src n) dest n
copied-AreSame m dest src n = λ i below. ground arith

-- The old block is found at the new place, and it is marked as initialised.
pub booted-AreSame :
    (kernel_start k n : ℕ) (s s' : Machine)
    → IsBooted kernel_start k n s s'
    → AreSame s.memory s.boot_info.boot_info_addr s'.memory
        (kernel_start + page_size * k)
        (n * page_size)
booted-AreSame kernel_start k n s s' booted =
    let a = s.boot_info.boot_info_addr in
    let dest = kernel_start + page_size * k in
    subst (λ m. AreSame s.memory a m dest (n * page_size)) (sym booted.memory)
      (copied-AreSame s.memory dest a (n * page_size))

pub booted_inited :
    (kernel_start k n : ℕ) (s s' : Machine)
    → IsBooted kernel_start k n s s'
    → s'.boot_info.inited ≡ true
booted_inited kernel_start k n s s' booted =
    let b : BootInfo = record (s.boot_info) { boot_info_addr = kernel_start + page_size * k } in
    ap (λ (i : BootInfo). i.inited) booted.info ∙ (init_kept s'.memory b).0

-- After a boot that left a kernel image of `k` pages and `n` pages, at least one, with the boot
-- information in use, if the old block was initialised with the size that it gives itself, its tags
-- lie in the `n` pages up to an end tag, and neither place wraps: whatever the fuel,
-- `get_memory` gives from the new place what it gave from the old one, and the size is the
-- same.
pub get_memory-IsBooted :
    (kernel_start k n : ℕ) (s s' : Machine)
    → IsBooted kernel_start k n s s'
    → s.boot_info.inited ≡ true
    → read_size s.memory s.boot_info.boot_info_addr ≡ s.boot_info.boot_info_size
    → 0 < n
    → s.boot_info.boot_info_addr + n * page_size < 2 ^ 64
    → kernel_start + page_size * k + n * page_size < 2 ^ 64
    → IsBlock s.memory s.boot_info.boot_info_addr (n * page_size) 8
    → ((fuel : ℕ) → get_memory fuel s'.memory s'.boot_info ≡ get_memory fuel s.memory s.boot_info)
      × (s'.boot_info.boot_info_size ≡ s.boot_info.boot_info_size)
get_memory-IsBooted kernel_start k n s s' booted ready sized some_page old_small new_small block =
    let b = s.boot_info in
    let len = n * page_size in
    let dest = kernel_start + page_size * k in
    let there = booted-AreSame kernel_start k n s s' booted in
    let found : AreSame s.memory b.boot_info_addr s'.memory s'.boot_info.boot_info_addr len =
      subst (λ a. AreSame s.memory b.boot_info_addr s'.memory a len) (sym booted.moved) there in
    let (marked, kept) = init_kept s'.memory (record b { boot_info_addr = dest }) in
    let same_size =
      read_size-same s.memory b.boot_info_addr s'.memory dest len there (omega arith) ∙ sized in
    (
      λ fuel.
          get_memory-same fuel s.memory s'.memory b s'.boot_info len found
            (ready ∙ sym marked ∙ sym (ap (λ i. i.inited) booted.info)) old_small
            (omega (arith, booted.moved)) block,
      ap (λ i. i.boot_info_size) booted.info ∙ kept same_size,
    )
