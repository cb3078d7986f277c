-- ===== src/Kernel.antt =====
-- src/kernel/kernel_main.cpp: the start of the kernel from the boot information to the timer. The text screen
-- and the boot-time printer share one screen memory, the cells of `vga`. The texts of the messages stand at
-- addresses that are parameters, like what the linker, the assembly code and the hardware give, and the times
-- at which the interrupts of the timer come.
pub mod Start
pub mod Bringup
pub mod Halts
pub mod Ticking
pub mod Remembered
mod Tests
use ckernel.Prelude.{
  ℕ, ◌+◌, ◌*◌, ◌/◌, ◌%◌, Bool, true, false, not, List, [], Option, some, none, if◌then◌else◌, ◌>>=◌,
}
use ckernel.Prelude.Int.{ℤ}
use ckernel.Mem.{Memory}
use ckernel.Multiboot2.{BootInfo, init as boot_info_init}
use ckernel.Pmm.{Pmm, Machine, init as pmm_init}
use ckernel.Vga.{Vga, vga_init, vga_setcolor, vga_white, vga_printf}
use ckernel.Tui.{Tui, Char}
use ckernel.Intr.{Interrupts, spin, init as intr_init}
use ckernel.Intr.Default.{handler_default}
use ckernel.Io.{Io, Formatter, cyan, info, err}
use ckernel.Timer.{Clock, timer_init}
use ckernel.Timer.Interleave.{Turn, begun, play}
use ckernel.Timer.Session.{returned_with}

-- A cell of the screen memory as the text screen sees it, and back.
abbrev pub char_of : ℕ → Char
char_of cell = record {
  c = cell % 256;
  color = record { fore = cell / 256 % 16; back = cell / 4096 % 16 };
}

abbrev pub cell_of : Char → ℕ
cell_of ch = ch.c + (ch.color.fore + ch.color.back * 16) * 256

-- The memory and the objects of the parts. The cells in `screen` are those of `vga` while the text screen is
-- at work. `ports` are the writes of the timer's interrupts.
pub record Kernel : Type 0 where
  pub memory : Memory
  pub boot_info : BootInfo
  pub pmm : Pmm
  pub vga : Vga
  pub screen : Tui
  pub interrupts : Interrupts (Option Clock)
  pub g_ticks : ℕ
  pub ports : List (ℕ × ℕ)

-- What comes from outside the C++ code, and the rounds of its loops. `init_turns` and `done_turns` are the order of
-- steps and timer interrupts from where `TIMER::init` enables interrupts to the end of its message, and from
-- there to the halt.
pub record Platform : Type 0 where
  pub fuel : ℕ
  pub vsnprintf : Formatter
  pub buf : ℕ
  pub kernel_start : ℕ
  pub kernel_end : ℕ
  pub idt_addr : ℕ
  pub stub : ℕ → ℕ
  pub loaded : Bool
  pub inb : ℕ → ℕ
  pub rflags : ℕ
  pub init_turns : List Turn
  pub done_turns : List Turn

-- The addresses of the messages.
pub record Messages : Type 0 where
  pub hello : ℕ
  pub boot_failed : ℕ
  pub pmm_failed : ℕ
  pub pmm_done : ℕ
  pub interrupts_failed : ℕ
  pub interrupts_done : ℕ
  pub timer_failed : ℕ
  pub timer_done : ℕ
  pub second : ℕ
  pub eflags : ℕ
  pub unhandled : ℕ

-- `CPU::halt` does not return.
pub data Outcome : Type 0 where
  halted returned : Kernel → Outcome

abbrev pub io_of : Kernel → Io
io_of k = record {
  mem = k.memory;
  screen = record (k.screen) { buffer = λ q. char_of (k.vga.vga_mem q) };
}

abbrev pub set_io : Io → Kernel → Kernel
set_io io k = record k {
  memory = io.mem;
  screen = io.screen;
  vga = record (k.vga) { vga_mem = λ q. cell_of (io.screen.buffer q) };
}

-- What the interrupts of the timer work on, and back.
abbrev pub clock_of : Kernel → Clock
clock_of k = record { g_ticks = k.g_ticks; ports = k.ports; io = io_of k }

abbrev pub set_clock : Clock → Kernel → Kernel
set_clock c k = record (set_io c.io k) { g_ticks = c.g_ticks; ports = c.ports }

-- The handler that INTERRUPTS::init registers.
abbrev pub default_handler : Platform → Messages → ℕ → Option Clock → Option Clock
default_handler p msg =
    handler_default (spin p.fuel) (λ (c : Clock). c.io) (λ io (c : Clock). record c { io = io })
      p.vsnprintf p.buf p.fuel msg.unhandled

module _ (p : Platform) (msg : Messages) where
  abbrev pub vga_say : ℕ → Kernel → Option Kernel
  vga_say text k = do v ← vga_printf p.fuel k.memory text [] k.vga; some (record k { vga = v })

  pub say : ℕ → Kernel → Option Kernel
  say text k = do (_, io') ← info p.vsnprintf p.buf p.fuel text [] (io_of k); some (set_io io' k)

  -- An error message, then the halt.
  pub fail : ℕ → Kernel → Option Outcome
  fail text k = do
    (_, io') ← err p.vsnprintf p.buf p.fuel text [] (io_of k)
    some (halted (set_io io' k))

  pub vga_fail : ℕ → Kernel → Option Outcome
  vga_fail text k = do k' ← vga_say text k; some (halted k')

  -- `info` while the interrupts of the timer come at `turns`.
  pub info_ticking : List Turn → ℕ → List ℕ → Clock → Option Clock
  info_ticking turns text va c = do
    t ← play p.vsnprintf p.buf p.fuel msg.second cyan text va turns (begun c)
    returned_with t.point t.clock

  pub say_ticking : ℕ → Kernel → Option Kernel
  say_ticking text k = do c ← info_ticking p.done_turns text [] (clock_of k); some (set_clock c k)

  -- `TIMER::init` on the parts that it uses; the interrupts of the timer come during its message.
  pub start_timer : Kernel → Option (Bool × Kernel)
  start_timer k = do
    (ok, x, c) ←
        timer_init p.vsnprintf p.buf p.fuel msg.second (info_ticking p.init_turns msg.eflags) p.inb
          p.rflags k.interrupts (clock_of k)
    some (ok, record (set_clock c k) { interrupts = x })

  -- `test` from the timer on, from the interrupts on, from the memory manager on, and as a whole.
  pub test_timer : Kernel → Option Outcome
  test_timer k = do
    (ok, k') ← start_timer k
    if not ok
        then fail msg.timer_failed k'
        else (do k'' ← say_ticking msg.timer_done k'; some (returned k''))

  pub test_interrupts : Kernel → Option Outcome
  test_interrupts k =
      let (ok, x) = intr_init p.idt_addr p.stub (default_handler p msg) p.loaded k.interrupts in
      let k' = record k { interrupts = x } in
      if not ok
      then fail msg.interrupts_failed k'
      else (do k'' ← say msg.interrupts_done k'; test_timer k'')

  pub test_pmm : Kernel → Option Outcome
  test_pmm k = do
    (ok, m) ←
        pmm_init p.kernel_start p.kernel_end p.fuel
          (record { memory = k.memory; boot_info = k.boot_info; pmm = k.pmm })
    let k' = record k { memory = m.memory; boot_info = m.boot_info; pmm = m.pmm }
    if not ok
        then vga_fail msg.pmm_failed k'
        else (do k'' ← say msg.pmm_done (record k' { vga = vga_init k'.vga }); test_interrupts k'')

  pub test : Kernel → Option Outcome
  test k =
      let (ok, b) = boot_info_init k.memory k.boot_info in
      let k' = record k { boot_info = b } in
      if not ok then vga_fail msg.boot_failed k' else test_pmm k'

  pub test_vga : Kernel → Option Kernel
  test_vga k = vga_say msg.hello (record k { vga = vga_setcolor vga_white (vga_init k.vga) })

  -- `kernel_main`; its own halt is behind `test`.
  pub kernel_main : Kernel → Option Outcome
  kernel_main k = do
    k' ← test_vga k
    o ← test k'
    elim o [ halted k'' ↦ some (halted k'') | returned k'' ↦ some (halted k'') ]
