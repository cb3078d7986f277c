-- ===== src/Kernel/Bringup.antt =====
-- The whole start of src/kernel/kernel_main.cpp: from what the boot loader and the linker hand over to the
-- running timer.
use ckernel.Prelude.{
  ℕ, ◌+◌, ◌*◌, ◌%◌, ◌^◌, ◌≤◌, ◌<◌, ◌≡◌, refl, ◌∙◌, ap, List, ◌∷◌, ◌++◌, length, some, true, arith,
}
use ckernel.Common.{page_size, kernel_space_size}
use ckernel.Mem.{Memory, IsBytes, load32}
use ckernel.Mem.Fill.{filled}
use ckernel.Multiboot2.{BootInfo, multiboot2_bootloader_magic, tag_type, tag_size}
use ckernel.Multiboot2.Init.{init_accepted}
use ckernel.Multiboot2.Iter.{Tags}
use ckernel.Multiboot2.MemoryMap.{NoneMmap, memory_of, get_memory_lem}
use ckernel.Pmm.{Machine}
use ckernel.Pmm.Boot.{image_pages, pages_for, NoOverlap, IsBooted, init_lem}
use ckernel.Intr.{init as intr_init}
use ckernel.Intr.Setup.{init-IsSetUp}
use ckernel.Io.{buf_size}
use ckernel.Prelude.{[]}
use ckernel.Vga.{Vga, vga_init, vga_setcolor, vga_white, print}
use ckernel.Vga.Format.{Piece, format, Holds, IsReady}
use ckernel.Vga.Printf.{vga_printf_lem}
use ckernel.Io.Print.{IsBounded}
use ckernel.Kernel.{
  default_handler, Kernel, Platform, Messages, returned, halted, test, test_vga, kernel_main,
}
use ckernel.Kernel.Start.{IsTicking, IsPaced, early_ticks, test_lem}

-- The block at `b` is a multiboot2 block that the boot loader may hand over: marked, aligned, from 1 to 16
-- MiB, and of 8 to 65536 bytes.
pub record IsHandedOver (m : Memory) (b : BootInfo) : Type 0 where
  pub magic : b.multiboot2_magic ≡ multiboot2_bootloader_magic
  pub aligned : b.boot_info_addr % 8 ≡ 0
  pub low : 0x100000 ≤ b.boot_info_addr
  pub high : b.boot_info_addr ≤ 0x1000000
  pub some_size : 8 ≤ load32 m b.boot_info_addr
  pub size_fits : load32 m b.boot_info_addr ≤ 65536

-- Its tags end with an end tag, there are fewer of them than `fuel`, and the first memory map tag is `tag`.
pub record HasMap (m : Memory) (addr fuel tag : ℕ) : Type 0 where
  pub before : List ℕ
  pub after : List ℕ
  pub tags : Tags m (addr + 8) (before ++ tag ∷ after)
  pub enough : length (before ++ tag ∷ after) < fuel
  pub first : NoneMmap m before
  pub is_mmap : tag_type m tag ≡ 6
  pub size : 16 ≤ tag_size m tag
  pub wide : 24 ≤ load32 m (tag + 8)

-- The kernel's image from `start` to `stop`, and `info` bytes of boot information at `addr`, in a memory of
-- `len` bytes.
pub record IsLoaded (start stop addr info len : ℕ) : Type 0 where
  pub least : kernel_space_size ≤ len
  pub most : len ≤ kernel_space_size + 32768 * page_size
  pub no_wrap : start + len < 2 ^ 64
  pub not_null : 0 < start
  pub aligned : start % page_size ≡ 0
  pub order : start ≤ stop
  pub end_fits : stop + page_size < 2 ^ 64
  pub room : image_pages start stop + pages_for info ≤ 2048
  pub apart :
      NoOverlap (start + page_size * image_pages start stop) addr (pages_for info * page_size)

-- The interrupt descriptor table and the entry points are where the processor takes them from.
pub record IsLinked (p : Platform) : Type 0 where
  pub aligned : p.idt_addr % 16 ≡ 0
  pub low : 0x100000 ≤ p.idt_addr
  pub high : p.idt_addr ≤ 0xFFFFFFFFFFFF
  pub stubs : (q : ℕ) → p.stub q < 2 ^ 64
  pub loaded : p.loaded ≡ true

-- The kernel runs: `ticks` ticks have been counted, the memory manager is set up as `m` is, the rest of the memory is as `m`'s but for the
-- output buffer, which is full of zeros, interrupts are enabled, and the interrupt of the timer runs its handler.
pub record IsRunning (p : Platform) (msg : Messages) (ticks : ℕ) (m : Machine) (k : Kernel)
    : Type 0 where
  pub memory : k.memory ≡ filled m.memory p.buf 0 buf_size
  pub boot_info : k.boot_info ≡ m.boot_info
  pub pmm : k.pmm ≡ m.pmm
  pub g_ticks : k.g_ticks ≡ ticks
  pub ticking : IsTicking p msg k

-- For a formatter that keeps to its bound, with at least as many rounds as the output buffer has bytes, on a
-- memory of bytes: from a boot information block as the boot loader hands it over, with a memory map, an image that
-- fits the memory that the map gives, and tables where the processor takes them, `test` returns, wherever the interrupts
-- of the timer come once they are enabled, if the two messages from there on have at least 1029 steps of
-- their own each and the counter does not wrap. The manager is booted: exactly the pages of the image and
-- of the moved boot information are in use. The memory is as the manager left it, but for the output
-- buffer; every interrupt of the timer is counted; interrupts are enabled, and the interrupt of the timer
-- runs its handler.
pub test-IsBooted :
    (p : Platform) (msg : Messages) (k : Kernel) (tag : ℕ)
    → IsBounded p.vsnprintf
    → buf_size ≤ p.fuel
    → IsBytes k.memory
    → IsHandedOver k.memory k.boot_info
    → HasMap k.memory k.boot_info.boot_info_addr p.fuel tag
    → let info = load32 k.memory k.boot_info.boot_info_addr in
      IsLoaded p.kernel_start p.kernel_end k.boot_info.boot_info_addr info
        (memory_of k.memory tag).len
      → IsLinked p
      → IsPaced p k.g_ticks
      → (m : Machine) × (k' : Kernel) × (test p msg k ≡ some (returned k'))
        × IsBooted p.kernel_start
            (image_pages p.kernel_start p.kernel_end)
            (pages_for info)
            (record {
              memory = k.memory;
              boot_info = record (k.boot_info) { boot_info_size = info; inited = true };
              pmm = k.pmm;
            })
            m
        × IsRunning p msg (k.g_ticks + early_ticks p) m k'
test-IsBooted p msg k tag bounded enough bytes block map image link paced =
    let info = load32 k.memory k.boot_info.boot_info_addr in
    let b : BootInfo = record (k.boot_info) { boot_info_size = info; inited = true } in
    let s : Machine = record { memory = k.memory; boot_info = b; pmm = k.pmm } in
    let accepted =
      init_accepted k.memory k.boot_info bytes block.magic block.aligned block.low block.high
        block.some_size block.size_fits in
    let found =
      get_memory_lem k.memory b p.fuel map.before tag map.after refl map.tags map.enough map.first
        map.is_mmap map.size map.wide in
    let (m, ran, booted) =
      init_lem p.kernel_start p.kernel_end p.fuel s (memory_of k.memory tag) found image.least
        image.most image.no_wrap image.not_null image.aligned image.order image.end_fits
        (omega (arith, block.some_size)) block.size_fits image.room image.apart in
    let (x, set_up, _) =
      init-IsSetUp p.idt_addr p.stub (default_handler p msg) k.interrupts link.aligned link.low
        link.high link.stubs in
    let linked =
      ap (λ l. intr_init p.idt_addr p.stub (default_handler p msg) l k.interrupts) link.loaded
      ∙ set_up in
    let (k', returns, said, ticking) =
      test_lem p msg bounded enough k b m x accepted ran linked paced in
    (
      m,
      k',
      returns,
      booted,
      record {
        memory = said.memory;
        boot_info = said.boot_info;
        pmm = said.pmm;
        g_ticks = said.g_ticks;
        ticking = ticking;
      },
    )

test_vga_lem :
    (p : Platform) (msg : Messages) (k : Kernel) (ps : List Piece)
    → Holds k.memory msg.hello (format ps)
    → IsReady 0 k.memory ps []
    → length ps < p.fuel
    → (v : Vga) × (test_vga p msg k ≡ some (record k { vga = v }))
unfolding test_vga
test_vga_lem p msg k ps holds ready enough =
    let v = vga_setcolor vga_white (vga_init k.vga) in
    let (text, _, ran) =
      vga_printf_lem ps 0 p.fuel k.memory msg.hello [] v holds ready (omega (arith, enough)) in
    (print text v, rw ran refl)

-- For a formatter that keeps to its bound, with at least as many rounds as the output buffer has bytes, on a
-- memory of bytes: from a boot information block as the boot loader hands it over, with a memory map, an image that
-- fits the memory that the map gives, tables where the processor takes them, and a greeting that is a format
-- without arguments and has fewer pieces than there are rounds, `kernel_main` comes to its own halt: it runs
-- into no fault. This holds wherever the interrupts of the timer come from where `TIMER::init` enables them
-- to the halt, if the two messages that are printed there have at least 1029 steps of their own each, and the
-- counter of 64 bits does not wrap. The manager is booted: exactly the pages of the image and of
-- the moved boot information are in use. The memory is as the manager left it, but for the output buffer,
-- which is full of zeros; every one of these interrupts is counted as a tick; interrupts are enabled, and the
-- interrupt of the timer runs its handler.
pub kernel_main-IsBooted :
    (p : Platform) (msg : Messages) (k : Kernel) (tag : ℕ) (ps : List Piece)
    → IsBounded p.vsnprintf
    → buf_size ≤ p.fuel
    → IsBytes k.memory
    → IsHandedOver k.memory k.boot_info
    → HasMap k.memory k.boot_info.boot_info_addr p.fuel tag
    → let info = load32 k.memory k.boot_info.boot_info_addr in
      IsLoaded p.kernel_start p.kernel_end k.boot_info.boot_info_addr info
        (memory_of k.memory tag).len
      → IsLinked p
      → Holds k.memory msg.hello (format ps)
      → IsReady 0 k.memory ps []
      → length ps < p.fuel
      → IsPaced p k.g_ticks
      → (m : Machine) × (k' : Kernel) × (kernel_main p msg k ≡ some (halted k'))
        × IsBooted p.kernel_start
            (image_pages p.kernel_start p.kernel_end)
            (pages_for info)
            (record {
              memory = k.memory;
              boot_info = record (k.boot_info) { boot_info_size = info; inited = true };
              pmm = k.pmm;
            })
            m
        × IsRunning p msg (k.g_ticks + early_ticks p) m k'
unfolding kernel_main
kernel_main-IsBooted p msg k tag ps bounded enough bytes block map image link holds ready short
      paced =
    let (v, greeted) = test_vga_lem p msg k ps holds ready short in
    let (m, k', ran, booted, running) =
      test-IsBooted p msg (record k { vga = v }) tag bounded enough bytes block map image link
        paced in
    (m, k', rw (greeted, ran) refl, booted, running)
