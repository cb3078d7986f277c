-- ===== src/Kernel/Halts.antt =====
-- Where `test` of src/kernel/kernel_main.cpp stops behind the boot information: without a memory map, and
-- without interrupts.
use ckernel.Prelude.{
  Option, ℕ, ◌+◌, ◌≤◌, ◌<◌, ◌≡◌, refl, List, [], length, some, arith, true, false,
}
use ckernel.Multiboot2.{BootInfo, init as boot_info_init}
use ckernel.Multiboot2.Iter.{Tags}
use ckernel.Multiboot2.MemoryMap.{NoneMmap}
use ckernel.Pmm.{Machine, init as pmm_init}
use ckernel.Pmm.Boot.{init_missing}
use ckernel.Vga.{vga_init, print}
use ckernel.Vga.Format.{Piece, format, Holds, IsReady, Prints}
use ckernel.Vga.Printf.{vga_printf_lem}
use ckernel.Intr.{Interrupts, init as intr_init}
use ckernel.Prelude.Int.{ℤ}
use ckernel.Io.{Io, buf_size, cyan, light_red}
use ckernel.Io.Print.{IsBounded, IsReport, info-IsReport, err-IsReport}
use ckernel.Timer.{Clock}
use ckernel.Kernel.{
  default_handler, Kernel, Platform, Messages, halted, io_of, set_io, fail, vga_fail,
  test_interrupts, test_pmm, test, say,
}

-- If the boot information is accepted, but its tags, which end with an end tag and are fewer than the
-- rounds, have no memory map, and the message is a format without arguments that has fewer pieces than there are
-- rounds, `test` prints the message and halts: memory, memory manager and interrupts are as before.
pub test_no_memory :
    (p : Platform) (msg : Messages) (k : Kernel) (b : BootInfo) (tags : List ℕ) (ps : List Piece)
    → boot_info_init k.memory k.boot_info ≡ (true, b)
    → b.inited ≡ true
    → Tags k.memory (b.boot_info_addr + 8) tags
    → length tags < p.fuel
    → NoneMmap k.memory tags
    → Holds k.memory msg.pmm_failed (format ps)
    → IsReady 0 k.memory ps []
    → length ps < p.fuel
    → (text : List ℕ) × Prints k.memory ps [] text
      × (test p msg k ≡ some (halted (record k { boot_info = b; vga = print text k.vga })))
unfolding test test_pmm vga_fail
test_no_memory p msg k b tags ps accepted ready listed few no_mmap holds prints_ready enough =
    let s : Machine = record { memory = k.memory; boot_info = b; pmm = k.pmm } in
    let missing = init_missing p.kernel_start p.kernel_end p.fuel s tags ready listed few no_mmap in
    let (text, prints, ran) =
      vga_printf_lem ps 0 p.fuel k.memory msg.pmm_failed [] k.vga holds prints_ready
        (omega (arith, enough)) in
    (text, prints, rw (accepted, missing, ran) refl)

-- What the memory manager's success leaves before it is reported.
abbrev pub managed : Machine → Kernel → Kernel
managed m k = record k {
  memory = m.memory;
  boot_info = m.boot_info;
  pmm = m.pmm;
  vga = vga_init k.vga;
}

-- For a formatter that keeps to its bound, with at least as many rounds as the output buffer has bytes: if
-- boot information and memory manager initialise but the interrupts do not, `test` reports the first in cyan
-- and then the error in light red, and halts. Each report is the text that the formatter makes of its
-- message on the screen, with the buffer full of zeros behind it. Nothing else changes but that the
-- screen is set up before the reports: memory and memory manager are as the latter's `init` left them, the
-- interrupts as theirs left them, and the timer is not started.
pub test_no_interrupts :
    (p : Platform) (msg : Messages) (k : Kernel) (b : BootInfo) (m : Machine)
    (x : Interrupts (Option Clock))
    → IsBounded p.vsnprintf
    → buf_size ≤ p.fuel
    → boot_info_init k.memory k.boot_info ≡ (true, b)
    → pmm_init p.kernel_start p.kernel_end p.fuel
        (record { memory = k.memory; boot_info = b; pmm = k.pmm })
      ≡ some (true, m)
    → intr_init p.idt_addr p.stub (default_handler p msg) p.loaded k.interrupts ≡ (false, x)
    → (ret ret' : ℤ) × (io io' : Io) × IsReport p.vsnprintf p.buf cyan msg.pmm_done []
        (io_of (managed m k))
        (some (ret, io))
      × IsReport p.vsnprintf p.buf light_red msg.interrupts_failed []
          (io_of (set_io io (managed m k)))
          (some (ret', io'))
      × (test p msg k
          ≡ some (halted (set_io io' (record (set_io io (managed m k)) { interrupts = x }))))
unfolding test test_pmm test_interrupts say fail
test_no_interrupts p msg k b m x bounded enough accepted ran refused =
    let k0 = managed m k in
    let (ret, io, ran1, said) =
      info-IsReport p.vsnprintf p.buf bounded p.fuel msg.pmm_done [] (io_of k0) enough in
    let k1 = set_io io k0 in
    let (ret', io', ran2, said') =
      err-IsReport p.vsnprintf p.buf bounded p.fuel msg.interrupts_failed [] (io_of k1) enough in
    (ret, ret', io, io', said, said', rw (accepted, ran, ran1, refused, ran2) refl)
