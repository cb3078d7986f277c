-- ===== src/Tui.antt =====
-- src/libk/src/tui.cpp with src/libk/include/tui.h and color.h: the text screen. The memory of the screen
-- is the cell at each index from 0xB8000 on; the text on the serial line and the writes to ports are
-- recorded, the last one first.
pub mod Scroll
pub mod Cursor
pub mod Text
pub mod Ports
mod Tests
use ckernel.Prelude.{
  ℕ, zero, suc, ◌+◌, ◌-◌, ◌*◌, ◌/◌, ◌%◌, bit_or, Bool, true, false, List, [], ◌∷◌,
}
use ckernel.Prelude.{Option, some, if◌then◌else◌, ltb, leb, ◌==◌, ◌>>=◌}
use ckernel.Word.{u8, u16, ◌>>>◌}
use ckernel.Mem.{Memory}
use ckernel.Str.{strlen}

-- `COLOR::color_t`
abbrev pub black : ℕ
black = 0

abbrev pub white : ℕ
white = 15

-- `pos_t`, `col_t` and `char_t`
pub record Pos : Type 0 where
  pub col : ℕ
  pub row : ℕ

pub record Col : Type 0 where
  pub fore : ℕ
  pub back : ℕ

-- A colour is a bit-field of 4 bits.
abbrev pub make_col : ℕ → ℕ → Col
make_col fore back = record { fore = fore % 16; back = back % 16 }

pub record Char : Type 0 where
  pub c : ℕ
  pub color : Col

-- `char_t()`
abbrev pub blank_char : Char
blank_char = record { c = 0; color = make_col white black }

abbrev pub width : ℕ
width = 80

abbrev pub height : ℕ
height = 25

abbrev pub tui_addr : ℕ
tui_addr = 0x3D4

abbrev pub tui_data : ℕ
tui_data = 0x3D5

abbrev pub tui_cursor_h : ℕ
tui_cursor_h = 0xE

abbrev pub tui_cursor_l : ℕ
tui_cursor_l = 0xF

pub record Tui : Type 0 where
  pub buffer : ℕ → Char
  pub pos : Pos
  pub color : Col
  pub serial : List ℕ
  pub ports : List (ℕ × ℕ)

abbrev pub serial_putc : ℕ → Tui → Tui
serial_putc c t = record t { serial = c ∷ t.serial }

abbrev pub port_outb : ℕ → ℕ → Tui → Tui
port_outb port value t = record t { ports = (port, u8 value) ∷ t.ports }

abbrev pub write : ℕ → Char → Tui → Tui
write idx data' t = record t { buffer = λ i. if i == idx then data' else t.buffer i }

abbrev pub read : ℕ → Tui → Char
read idx t = t.buffer idx

abbrev pub set_color : ℕ → ℕ → Tui → Tui
set_color fore back t = record t { color = make_col fore back }

abbrev pub get_color : Tui → ℕ
get_color t = bit_or t.color.back t.color.fore

pub set_pos : Pos → Tui → Tui
set_pos p t =
    let index = u16 (p.row * width + p.col) in
    port_outb tui_data index (
      port_outb tui_addr tui_cursor_l
        (port_outb tui_data (index >>> 8) (port_outb tui_addr tui_cursor_h (record t { pos = p }))))

abbrev pub set_pos_row : ℕ → Tui → Tui
set_pos_row row t = let p : Pos = record { col = t.pos.col; row = u8 row } in set_pos p t

abbrev pub set_pos_col : ℕ → Tui → Tui
set_pos_col col t = let p : Pos = record { col = u8 col; row = t.pos.row } in set_pos p t

-- The constructor, on the state before.
abbrev pub tui : Tui → Tui
tui t = set_pos (record { col = 0; row = 0 }) (set_color white black t)

abbrev pub put_entry_at : ℕ → Col → ℕ → ℕ → Tui → Tui
put_entry_at c color x y t = write (y * width + x) (record { c = c; color = color }) t

-- A space in the colour of the screen.
abbrev pub space : Tui → Char
space t = record { c = 32; color = t.color }

pub escapeconv : ℕ → Tui → Bool × Tui
escapeconv c t =
    let p = t.pos in
    if c == 10
    then (true, serial_putc c (record t { pos = record { col = 0; row = u8 (p.row + 1) } }))
    else if c == 9
    then (
      true,
      record t {
        pos = record p { col = u8 (p.col + (if p.col % 4 == 0 then 4 else 4 - p.col % 4)) };
      },
    )
    else if c == 8
    then (
      true,
      if ltb 0 p.col
          then write (p.row * width + (p.col - 1)) (space t)
              (record t { pos = record p { col = p.col - 1 } })
          else t,
    )
    else (false, t)

-- The loops of `scroll` at index `i`, with the rounds left.
pub scroll_copy : ℕ → ℕ → Tui → Tui
scroll_copy zero i t = t
scroll_copy (suc left) i t = scroll_copy left (i + 1) (write i (read (i + width) t) t)

pub scroll_blank : ℕ → ℕ → Tui → Tui
scroll_blank zero i t = t
scroll_blank (suc left) i t = scroll_blank left (i + 1) (write i (space t) t)

pub scroll : Tui → Tui
scroll t =
    if leb height t.pos.row
    then (let t' =
          scroll_blank width ((height - 1) * width) (scroll_copy ((height - 1) * width) 0 t) in
        record t' { pos = record (t'.pos) { row = height - 1 } })
    else t

-- `get_pos`, with what the two reads of the data port give.
abbrev pub get_pos : ℕ → ℕ → Pos
get_pos cursor_pos_h cursor_pos_l = record { col = u8 cursor_pos_l; row = u8 cursor_pos_h }

-- A character that is not an escape, at the cursor.
pub put_plain : ℕ → Tui → Tui
put_plain c t =
    let t' = serial_putc c (put_entry_at c t.color t.pos.col t.pos.row t) in
    let col = u8 (t'.pos.col + 1) in
    record t' {
      pos =
          if leb width col
          then record { col = 0; row = u8 (t'.pos.row + 1) }
          else record { col = col; row = t'.pos.row };
    }

pub put_char : ℕ → Tui → Tui
put_char c t =
    let (escaped, t') = escapeconv c t in
    let t'' = scroll (if escaped then t' else put_plain c t') in set_pos t''.pos t''

abbrev pub get_char : Tui → ℕ
get_char t = 0

-- `write(_s, _len)` at the address `s`, with `len` bytes left.
unfoldable pub write_bytes : ℕ → Memory → ℕ → Tui → Tui
write_bytes zero m s t = t
write_bytes (suc len) m s t = write_bytes len m (s + 1) (put_char (m s) t)

pub write_string : ℕ → Memory → ℕ → Tui → Option Tui
write_string fuel m s t = do n ← strlen fuel m s; some (write_bytes n m s t)

-- The two loops of `clear`: row `y` from column `x` on, and the rows from `y` on.
pub clear_row : ℕ → ℕ → ℕ → Tui → Tui
clear_row zero y x t = t
clear_row (suc left) y x t = clear_row left y (x + 1) (write (y * width + x) (space t) t)

pub clear_rows : ℕ → ℕ → Tui → Tui
clear_rows zero y t = t
clear_rows (suc left) y t = clear_rows left (y + 1) (clear_row width y 0 t)

pub clear : Tui → Tui
clear t = set_pos (record { col = 0; row = 0 }) (clear_rows height 0 t)
