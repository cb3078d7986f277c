-- ===== src/Io.antt =====
-- src/libk/src/io.cpp with src/libk/include/io.h: the kernel's input and output over the text screen, the
-- accesses to memory-mapped registers and the functions that print a format. `_vsnprintf` of the printf
-- library and the address of the output buffer are parameters, like the port instructions.
pub mod Mmio
pub mod Print
pub mod Stream
pub mod Steps
pub mod Safe
pub mod Sample
mod Tests
use ckernel.Prelude.{ℕ, ◌+◌, ◌*◌, ◌/◌, ◌%◌, ◌^◌, List, Option, some, ◌>>=◌}
use ckernel.Prelude.Int.{ℤ, pos}
use ckernel.Word.{u8, u16, u32, u64, ◌>>>◌}
use ckernel.Mem.{Memory, store, bzero, load32, load64}
use ckernel.Tui.{Tui, black, set_color as tui_set_color, get_color as tui_get_color}
use ckernel.Tui.{put_char as tui_put_char, write_string as tui_write_string}

-- `COLOR::color_t`
abbrev pub cyan : ℕ
cyan = 3

abbrev pub light_red : ℕ
light_red = 12

abbrev pub yellow : ℕ
yellow = 14

abbrev pub buf_size : ℕ
buf_size = 512

-- Registers of 1, 2, 4 and 8 bytes at an address, the low byte first.
abbrev pub read8 : Memory → ℕ → ℕ
read8 m addr = m addr

abbrev pub write8 : ℕ → ℕ → Memory → Memory
write8 addr val m = store m addr (u8 val)

abbrev pub read16 : Memory → ℕ → ℕ
read16 m addr = m addr + m (addr + 1) * 0x100

pub write16 : ℕ → ℕ → Memory → Memory
write16 addr val m = store (store m addr (u8 val)) (addr + 1) (u8 (val >>> 8))

abbrev pub read32 : Memory → ℕ → ℕ
read32 m addr = load32 m addr

pub write32 : ℕ → ℕ → Memory → Memory
write32 addr val m = write16 (addr + 2) (val >>> 16) (write16 addr val m)

abbrev pub read64 : Memory → ℕ → ℕ
read64 m addr = load64 m addr

pub write64 : ℕ → ℕ → Memory → Memory
write64 addr val m = write32 (addr + 4) (val >>> 32) (write32 addr val m)

-- The port instructions of port.h, on a state `S` of the hardware.
pub record Port (S : Type 0) : Type 0 where
  pub port_inb : ℕ → S → ℕ × S
  pub port_inw : ℕ → S → ℕ × S
  pub port_ind : ℕ → S → ℕ × S
  pub port_outb : ℕ → ℕ → S → S
  pub port_outw : ℕ → ℕ → S → S
  pub port_outd : ℕ → ℕ → S → S

module _ {S : Type 0} (p : Port S) where
  abbrev pub inb : ℕ → S → ℕ × S
  inb port = p.port_inb port

  abbrev pub inw : ℕ → S → ℕ × S
  inw port = p.port_inw port

  abbrev pub ind : ℕ → S → ℕ × S
  ind port = p.port_ind port

  abbrev pub outb : ℕ → ℕ → S → S
  outb port value = p.port_outb port value

  abbrev pub outw : ℕ → ℕ → S → S
  outw port value = p.port_outw port value

  abbrev pub outd : ℕ → ℕ → S → S
  outd port value = p.port_outd port value

-- The memory and the one object IO with its text screen.
pub record Io : Type 0 where
  pub mem : Memory
  pub screen : Tui

abbrev pub get_color : Io → ℕ
get_color io = tui_get_color io.screen

abbrev pub set_color : ℕ → Io → Io
set_color color io = record io { screen = tui_set_color color black io.screen }

abbrev pub put_char : ℕ → Io → Io
put_char c io = record io { screen = tui_put_char c io.screen }

-- Always returns 0.
abbrev pub write_string : ℕ → ℕ → Io → Option (ℤ × Io)
write_string fuel s io = do
  screen' ← tui_write_string fuel io.mem s io.screen
  some (pos 0, record io { screen = screen' })

-- `_vsnprintf`: the buffer, the bound, the format, the arguments and the memory.
abbrev pub Formatter : Type 0
Formatter = ℕ → ℕ → ℕ → List ℕ → Memory → ℤ × Memory

module _ (vsnprintf : Formatter) (buf : ℕ) where
  -- What `printf` and its relatives share: format into the buffer, write it out and clear it.
  pub print : ℕ → ℕ → List ℕ → Io → Option (ℤ × Io)
  print fuel fmt va io = do
    let (ret, formatted) = vsnprintf buf buf_size fmt va io.mem
    (_, written) ← write_string fuel buf (record io { mem = formatted })
    some (ret, record written { mem = bzero written.mem buf buf_size })

  abbrev pub printf : ℕ → ℕ → List ℕ → Io → Option (ℤ × Io)
  printf fuel fmt va io = print fuel fmt va io

  -- Print in a colour, and set the one that `get_color` gave before.
  pub print_in : ℕ → ℕ → ℕ → List ℕ → Io → Option (ℤ × Io)
  print_in color fuel fmt va io = do
    let curr_color = get_color io
    (i, io') ← print fuel fmt va (set_color color io)
    some (i, set_color curr_color io')

  abbrev pub info : ℕ → ℕ → List ℕ → Io → Option (ℤ × Io)
  info fuel fmt va io = print_in cyan fuel fmt va io

  abbrev pub warn : ℕ → ℕ → List ℕ → Io → Option (ℤ × Io)
  warn fuel fmt va io = print_in yellow fuel fmt va io

  abbrev pub err : ℕ → ℕ → List ℕ → Io → Option (ℤ × Io)
  err fuel fmt va io = print_in light_red fuel fmt va io
