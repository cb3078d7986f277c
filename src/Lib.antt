-- ===== src/Lib.antt =====
-- CKernel: a small x86-64 kernel. This library models its code and proves what it does.
--
-- The parts and how they interact. The kernel boots with a block of multiboot2 information, from which
-- the physical memory manager learns how much memory there is; the manager owns two first-fit page
-- allocators over bitmaps, one for the kernel's own space and one for the rest. Text goes to the screen
-- through the text screen and the boot-time printer; both rest on the C string functions. Interrupts and
-- the timer stand on the I/O ports.
--
-- Which file models what:
--   Firstfit   src/libk/src/firstfit.cpp and allocator.cpp: the record `Firstfit` is the class FIRSTFIT
--              with its base ALLOCATOR. `set`, `clr`, `test`, `find_len`, `alloc`, `free` have the names of
--              the methods; `alloc_at` is the overload with an address. A result `none` is an access
--              outside the bitmap. Bitmap sees the map as a set of pages, Find, Range, Count, Alloc,
--              AllocAt, Free, Init and Beyond prove the methods. Ledger sets the blocks that were handed out
--              against the pages in use; Handout and Disjoint say what a new block is.
--   Pmm        src/libk/src/pmm.cpp: the record `Pmm` is the class PMM; the operations have the names of
--              the methods, `_at` marks the overloads with an address. `init` works on a `Machine`, the
--              memory with the global variables; KERNEL_START_ADDR and KERNEL_END_ADDR come from the linker
--              and are parameters. Space, Release, Layout and Boot prove the operations. History is what
--              clients do with a manager, as a step relation over its operations with the blocks that they
--              hold; Consistent is its invariant, Moves, Reachable, Held and Booted prove what follows;
--              Refinement states what the manager promises of each call, as a relation on the calls with
--              their answers and the blocks that are held. Moved is
--              about the boot information at its new place.
--   Multiboot2 src/libk/src/multiboot2.cpp, include/multiboot2.h, boot_info.h, resource.h: the header
--              checks, the iterator over tags and the search for the memory map (`get_memory_tag` is the
--              callback MULTIBOOT2::get_memory). The iterator has no bound of its own and takes fuel: more
--              than the number of tags is enough. Init, Iter, MemoryMap and Moved prove them, the last for a
--              block that is found at two addresses.
--   Tui        src/libk/src/tui.cpp, include/tui.h, color.h: the record `Tui` is the class TUI with the
--              memory of the screen, the bytes handed to the serial line and the writes to ports. Scroll,
--              Cursor, Text and Ports prove it.
--   Vga        src/libk/src/vgaprint.cpp: the record `Vga` is the screen memory, the static variables of the
--              file and the bytes written to the serial line; the functions have the names of the source.
--              Format describes the formats of vga_printf as data, Screen, Digits, Text and Printf prove the
--              functions. The loops over digits have 64 rounds, enough for every number of 64 bits; the
--              loops to a zero byte take fuel, the theorems say how much is enough.
--   Io         src/libk/src/io.cpp: the record `Io` is the memory with the one object IO; memory-mapped
--              registers, and printf, info, warn and err (`print` and `print_in` are what they share) over
--              `_vsnprintf`, a parameter. Mmio and Print prove them. Steps has the
--              points of a message between which an interrupt can come, Safe the buffer at each of them. Stream is
--              src/libcxx/src/iostream.cpp, an `out` for each operator <<. The rounds that a message needs are the
--              bytes of the buffer, 512.
--   Intr       src/platform/x86_64/src/intr.cpp and include/intr.h: the static members of INTERRUPTS, its
--              methods by their names. The entry points, `idt_load` and the handlers are parameters;
--              Default has the default handler; what its endless loop makes of a state is a parameter, in
--              the kernel `spin`, which takes any number of rounds and ends with `none`. Setup, Dispatch
--              and Default prove them.
--   Timer      src/platform/x86_64/src/timer.cpp and c_time.cpp: the timer's interrupt on a `Clock`, what it
--              changes; TIMER::init; the calibration on a `Tsc`, the static variables of c_time.cpp. The busy
--              wait takes fuel: one round more than the ticks to wait is enough. Ticks, Pit and Calibration
--              prove them. Interleave plays a message and the timer's interrupts in any order, given as a
--              list of turns: a turn of the message is one step (a byte in the loops of strlen and of
--              TUI::write, otherwise a call), one of the timer a whole interrupt. Session is about messages
--              one after the other; Shared and Lost prove what becomes of the buffer that both use.
--   Kernel     src/kernel/kernel_main.cpp: `test`, `test_vga` and `kernel_main` on the record `Kernel`, the state of
--              all the parts; what the linker, assembly code and hardware give is a `Platform`. From where
--              TIMER::init enables interrupts to the halt two messages are printed; these are played with
--              the timer's interrupts as in Interleave, at the turns that the platform gives. Start,
--              Halts and Bringup prove it, the last from what the boot loader hands over; Ticking is what
--              follows for the timer, Remembered for the boot information.
--   Selfboot   src/selfboot/mainself.c: the demonstration kernel behind the repository's own boot loader.
--   Mem, Str   src/libc/src/string/string.c: the functions over blocks and over strings. Memory is the
--              byte at each address. A loop that runs to a zero byte takes fuel, `none` is no fuel left,
--              and the theorems say how much is enough: more than the length of the string.
--   Common     src/libk/include/common.h.
--   Word       64-bit words and their bits; Prelude: shared tests, lists and integers.
--
-- Machine integers are natural numbers with the reduction to the width written out; a pointer is a
-- natural number, and a sum of a pointer and an index inside an object does not wrap.
--
-- Not modelled: assembly, linker scripts, port instructions and the C++ runtime; the messages that the
-- functions print, except those of the timer, the default handler and kernel_main; the printf library
-- in src/libc/src/stdio/vsprintf.c, cpu.h, gdt.h, dtb.h and cxxabi.cpp, which are taken over from
-- other projects (`_vsnprintf` is a parameter with the bound on its writes as a hypothesis,
-- `IsBounded`); the wait of the serial line for its transmitter; an interrupt inside a call of
-- put_char, bzero or `_vsnprintf`, which are one step each.
pub mod Prelude
pub mod Word
pub mod Common
pub mod Firstfit
pub mod Mem
pub mod Str
pub mod Multiboot2
pub mod Pmm
pub mod Tui
pub mod Vga
pub mod Io
pub mod Intr
pub mod Timer
pub mod Kernel
pub mod Selfboot
