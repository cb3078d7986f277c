-- ===== src/Kernel/Remembered.antt =====
-- The boot information in a running kernel: `BOOT_INFO::get_memory` after src/kernel/kernel_main.cpp.
use ckernel.Prelude.{
  ℕ, ◌+◌, ◌*◌, ◌^◌, ◌≤◌, ◌<◌, ◌≡◌, sym, ◌∙◌, ap, refl, some, List, [], length, arith, ◌⊎◌, true,
}
use mathlib.Core.Path.{subst}
use ckernel.Common.{page_size}
use ckernel.Mem.{Memory, IsBytes, load32}
use ckernel.Mem.Fill.{filled}
use ckernel.Multiboot2.{BootInfo, get_memory}
use ckernel.Multiboot2.MemoryMap.{memory_of, get_memory_lem}
use ckernel.Multiboot2.Moved.{AreSame, IsBlock, get_memory-same}
use ckernel.Io.{buf_size}
use ckernel.Io.Print.{IsBounded}
use ckernel.Pmm.{Machine}
use ckernel.Pmm.Boot.{IsBooted, image_pages, pages_for}
use ckernel.Pmm.Moved.{booted-AreSame, booted_inited}
use ckernel.Vga.Format.{Piece, format, Holds, IsReady}
use ckernel.Kernel.{Kernel, Platform, Messages, halted, kernel_main}
use ckernel.Kernel.Start.{IsPaced, early_ticks}
use ckernel.Kernel.Bringup.{
  IsHandedOver, HasMap, IsLoaded, IsLinked, IsRunning, kernel_main-IsBooted,
}

-- The output buffer does not reach into the `len` bytes at `dest`.
abbrev pub IsBufferApart : ℕ → ℕ → ℕ → Type 0
IsBufferApart buf dest len = (buf + buf_size ≤ dest) ⊎ (dest + len ≤ buf)

-- The bytes that the output buffer leaves alone.
filled-AreSame :
    (m m' : Memory) (a dest len buf : ℕ)
    → IsBufferApart buf dest len
    → AreSame m a m' dest len
    → AreSame m a (filled m' buf 0 buf_size) dest len
filled-AreSame m m' a dest len buf apart same i below = ground (arith, apart, same i below)

running-get_memory :
    (p : Platform) (msg : Messages) (ticks kp n fuel : ℕ) (s m : Machine) (k : Kernel)
    → IsBooted p.kernel_start kp n s m
    → IsRunning p msg ticks m k
    → s.boot_info.inited ≡ true
    → IsBufferApart p.buf (p.kernel_start + page_size * kp) (n * page_size)
    → s.boot_info.boot_info_addr + n * page_size < 2 ^ 64
    → p.kernel_start + page_size * kp + n * page_size < 2 ^ 64
    → IsBlock s.memory s.boot_info.boot_info_addr (n * page_size) 8
    → get_memory fuel k.memory k.boot_info ≡ get_memory fuel s.memory s.boot_info
running-get_memory p msg ticks kp n fuel s m k booted running ready apart old_small new_small
      block =
    let a = s.boot_info.boot_info_addr in
    let len = n * page_size in
    let dest = p.kernel_start + page_size * kp in
    let kept =
      filled-AreSame s.memory m.memory a dest len p.buf apart
        (booted-AreSame p.kernel_start kp n s m booted) in
    let there : AreSame s.memory a k.memory dest len =
      subst (λ t. AreSame s.memory a t dest len) (sym running.memory) kept in
    let place : k.boot_info.boot_info_addr ≡ dest =
      ap (λ (b : BootInfo). b.boot_info_addr) running.boot_info ∙ booted.moved in
    get_memory-same fuel s.memory k.memory s.boot_info k.boot_info len
      (subst (λ t. AreSame s.memory a k.memory t len) (sym place) there)
      (ready
        ∙ sym (booted_inited p.kernel_start kp n s m booted)
        ∙ sym (ap (λ (b : BootInfo). b.inited) running.boot_info))
      old_small (omega (arith, place, new_small)) block

-- For a formatter that keeps to its bound, with at least as many rounds as the output buffer has bytes, on a
-- memory of bytes: from a boot information block as the boot loader hands it over, with a memory map and with tags that lie
-- in its pages, an image that fits the memory that the map gives, tables where the processor takes them, a
-- greeting that is a format without arguments and has fewer pieces than there are rounds, interrupts of the timer
-- that come anywhere from where `TIMER::init` enables them to the halt, with at least 1029 steps for each of the
-- two messages there and without a wrap of the counter, and an
-- output buffer that does not reach into the pages behind the image that the block moves to,
-- `kernel_main` comes to its own halt. The boot information is then at those pages, and
-- `get_memory` gives from there the memory of the map that the boot loader handed over.
pub kernel_main-get_memory :
    (p : Platform) (msg : Messages) (k : Kernel) (tag : ℕ) (ps : List Piece)
    → IsBounded p.vsnprintf
    → buf_size ≤ p.fuel
    → IsBytes k.memory
    → IsHandedOver k.memory k.boot_info
    → HasMap k.memory k.boot_info.boot_info_addr p.fuel tag
    → let info = load32 k.memory k.boot_info.boot_info_addr in
      let dest = p.kernel_start + page_size * image_pages p.kernel_start p.kernel_end in
      IsLoaded p.kernel_start p.kernel_end k.boot_info.boot_info_addr info
        (memory_of k.memory tag).len
      → IsLinked p
      → Holds k.memory msg.hello (format ps)
      → IsReady 0 k.memory ps []
      → length ps < p.fuel
      → IsPaced p k.g_ticks
      → IsBufferApart p.buf dest (pages_for info * page_size)
      → IsBlock k.memory k.boot_info.boot_info_addr (pages_for info * page_size) 8
      → (k' : Kernel) × (kernel_main p msg k ≡ some (halted k'))
        × (k'.boot_info.boot_info_addr ≡ dest)
        × (get_memory p.fuel k'.memory k'.boot_info ≡ some (memory_of k.memory tag))
kernel_main-get_memory p msg k tag ps bounded enough bytes block map image link holds ready short
      paced apart inside =
    let info = load32 k.memory k.boot_info.boot_info_addr in
    let b : BootInfo = record (k.boot_info) { boot_info_size = info; inited = true } in
    let s : Machine = record { memory = k.memory; boot_info = b; pmm = k.pmm } in
    let (m, k', ran, booted, running) =
      kernel_main-IsBooted p msg k tag ps bounded enough bytes block map image link holds ready
        short paced in
    let kp = image_pages p.kernel_start p.kernel_end in
    let before =
      get_memory_lem k.memory b p.fuel map.before tag map.after refl map.tags map.enough map.first
        map.is_mmap map.size map.wide in
    (
      k',
      ran,
      ap (λ (i : BootInfo). i.boot_info_addr) running.boot_info ∙ booted.moved,
      running-get_memory p msg (k.g_ticks + early_ticks p) kp (pages_for info) p.fuel s m k' booted
            running refl apart (omega (arith, block.high, block.size_fits))
            (omega (arith, image.no_wrap, image.least, image.room)) inside
          ∙ before,
    )
