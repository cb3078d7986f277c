-- ===== src/Vga.antt =====
-- src/libk/src/vgaprint.cpp with src/libk/include/vgaprint.h: the printer that the kernel uses while it
-- boots. The screen memory is the 16-bit cell at each index from 0xB8000 on; the bytes that are written to
-- the port of the serial line are recorded, the last one first. `none` is undefined behaviour, or no fuel left in a
-- loop that runs to a zero byte. `cursor_x` and `cursor_y` are never negative.
pub mod Screen
pub mod Digits
pub mod Text
pub mod Format
pub mod Printf
mod Tests
use ckernel.Prelude.{
  ℕ, zero, suc, ◌+◌, ◌-◌, ◌*◌, ◌/◌, ◌%◌, ◌^◌, bit_and, bit_or, Bool, true, false, not,
}
use ckernel.Prelude.{List, [], ◌∷◌, Option, none, some, if◌then◌else◌, ltb, leb, ◌==◌, ◌>>=◌}
use ckernel.Word.{u8, u16, u32, u64, ◌<<<◌, ◌>>>◌}
use ckernel.Mem.{Memory}

-- `enum vga_color`
abbrev pub vga_black : ℕ
vga_black = 0

abbrev pub vga_white : ℕ
vga_white = 7

abbrev pub vga_width : ℕ
vga_width = 80

abbrev pub vga_height : ℕ
vga_height = 25

-- The screen memory with the static variables of the file.
pub record Vga : Type 0 where
  pub vga_mem : ℕ → ℕ
  pub cursor_x : ℕ
  pub cursor_y : ℕ
  pub current_color : ℕ
  pub serial : List ℕ

-- `(uint16_t)c`: a `char` is signed and keeps its sign.
abbrev pub char_to_u16 : ℕ → ℕ
char_to_u16 c = if ltb c 128 then c else 0xFF00 + c

pub vga_entry : ℕ → ℕ → ℕ
vga_entry c fg =
    let color = u8 (bit_or fg (vga_black <<< 4)) in bit_or (char_to_u16 c) (u16 (color <<< 8))

abbrev pub store_cell : ℕ → ℕ → Vga → Vga
store_cell idx cell v = record v { vga_mem = λ q. if q == idx then cell else v.vga_mem q }

-- `VGA_MEM[idx] = vga_entry(' ', current_color)`
abbrev pub blank_cell : Vga → ℕ
blank_cell v = vga_entry 32 v.current_color

-- The loops of `vga_scroll`: one row from column `x` on, the rows from `y` on, and the last row.
pub copy_row : ℕ → ℕ → ℕ → Vga → Vga
copy_row zero y x v = v
copy_row (suc left) y x v =
    copy_row left y (x + 1) (store_cell (y * vga_width + x) (v.vga_mem ((y + 1) * vga_width + x)) v)

pub copy_rows : ℕ → ℕ → Vga → Vga
copy_rows zero y v = v
copy_rows (suc left) y v = copy_rows left (y + 1) (copy_row vga_width y 0 v)

pub blank_cells : ℕ → ℕ → Vga → Vga
blank_cells zero i v = v
blank_cells (suc left) i v = blank_cells left (i + 1) (store_cell i (blank_cell v) v)

pub vga_scroll : Vga → Vga
vga_scroll v =
    let copied = copy_rows (vga_height - 1) 0 v in
    let blanked = blank_cells vga_width ((vga_height - 1) * vga_width) copied in
    record blanked { cursor_y = vga_height - 1; cursor_x = 0 }

-- `vga_putchar` up to its last test.
pub put_at_cursor : ℕ → Vga → Vga
put_at_cursor c v =
    let v' = store_cell (v.cursor_y * vga_width + v.cursor_x) (vga_entry c v.current_color) v in
    if c == b'\n'
    then record v { cursor_x = 0; cursor_y = v.cursor_y + 1 }
    else if v.cursor_x + 1 == vga_width
    then record v' { cursor_x = 0; cursor_y = v.cursor_y + 1 }
    else record v' { cursor_x = v.cursor_x + 1 }

pub vga_putchar : ℕ → Vga → Vga
vga_putchar c v =
    let v' = put_at_cursor c v in if leb vga_height v'.cursor_y then vga_scroll v' else v'

-- The bytes that `serial_putc` writes to the port, after the wait for the transmitter: a carriage return
-- follows a newline.
abbrev pub on_line : ℕ → List ℕ → List ℕ
on_line c line = if c == b'\n' then b'\r' ∷ c ∷ line else c ∷ line

abbrev pub serial_putc : ℕ → Vga → Vga
serial_putc c v = record v { serial = on_line c v.serial }

pub vga_init : Vga → Vga
vga_init v = record (blank_cells (vga_width * vga_height) 0 v) { cursor_x = 0; cursor_y = 0 }

abbrev pub vga_setcolor : ℕ → Vga → Vga
vga_setcolor fg v = record v { current_color = fg }

-- `vga_puts` and the loop that repeats a string on the serial line, over a string in memory.
pub vga_puts : ℕ → Memory → ℕ → Vga → Option Vga
vga_puts zero m s v = none
vga_puts (suc fuel) m s v =
    let rest = vga_puts fuel m (s + 1) (vga_putchar (m s) v) in if m s == 0 then some v else rest

pub serial_puts : ℕ → Memory → ℕ → Vga → Option Vga
serial_puts zero m s v = none
serial_puts (suc fuel) m s v =
    let rest = serial_puts fuel m (s + 1) (serial_putc (m s) v) in if m s == 0 then some v else rest

-- The same over the text in the local buffer of `vga_printf`, the bytes from `p` to the end.
pub put_text : List ℕ → Vga → Vga
put_text [] v = v
put_text (c ∷ cs) v = put_text cs (vga_putchar c v)

pub serial_text : List ℕ → Vga → Vga
serial_text [] v = v
serial_text (c ∷ cs) v = serial_text cs (serial_putc c v)

-- `"0123456789abcdef"[d]`
abbrev pub digit : ℕ → ℕ
digit d = if ltb d 10 then b'0' + d else b'a' + (d - 10)

-- `do { *--p = digit(v % base); v /= base; } while (v)`, in front of the bytes from `p` on. The loops
-- in base 16 write `v & 0xf` and `v >>= 4`.
pub digits : ℕ → ℕ → ℕ → List ℕ → Option (List ℕ)
digits zero base v p = none
digits (suc fuel) base v p =
    let p' = digit (v % base) ∷ p in
    let rest = digits fuel base (v / base) p' in if v / base == 0 then some p' else rest

pub hex_digits : ℕ → ℕ → List ℕ → Option (List ℕ)
hex_digits zero v p = none
hex_digits (suc fuel) v p =
    let p' = digit (bit_and v 0xf) ∷ p in
    let rest = hex_digits fuel (v >>> 4) p' in if v >>> 4 == 0 then some p' else rest

-- The loop of `%p`, with the rounds left.
pub pointer_digits : ℕ → ℕ → List ℕ → List ℕ
pointer_digits zero v p = p
pointer_digits (suc left) v p = pointer_digits left (v >>> 4) (digit (bit_and v 0xf) ∷ p)

-- 64 rounds are enough for every number of 64 bits.
abbrev pub rounds : ℕ
rounds = 64

-- The text of a signed number of `w` bits; `-v` of the least one is undefined.
pub signed_text : ℕ → ℕ → Option (List ℕ)
signed_text w v =
    let magnitude = 2 ^ w - v in
    if ltb v (2 ^ (w - 1))
    then digits rounds 10 v []
    else if magnitude == v
    then none
    else (do p ← digits rounds 10 magnitude []; some (b'-' ∷ p))

-- `va_arg`; reading behind the last argument is undefined.
abbrev pub va_arg : List ℕ → Option (ℕ × List ℕ)
va_arg [] = none
va_arg (a ∷ ap) = some (a, ap)

-- `vga_puts(p)` and the loop over `serial_putc`.
abbrev pub print : List ℕ → Vga → Vga
print p v = serial_text p (put_text p v)

-- Fetch an argument, build its text and print it.
abbrev pub print_arg : List ℕ → Vga → (ℕ → Option (List ℕ)) → Option (List ℕ × Vga)
print_arg ap v text = do (a, ap') ← va_arg ap; p ← text a; some (ap', print p v)

-- The conversions, by the character after the `%`; `last` is that character.
pub directive : ℕ → Memory → ℕ → List ℕ → Vga → Option (List ℕ × Vga)
directive fuel m last ap v =
    if last == b'd'
    then print_arg ap v (λ a. signed_text 32 (u32 a))
    else if last == b'u'
    then print_arg ap v (λ a. digits rounds 10 (u32 a) [])
    else if last == b'x'
    then print_arg ap v (λ a. hex_digits rounds (u32 a) [])
    else if last == b'p'
    then print_arg ap v (λ a. some (b'0' ∷ b'x' ∷ pointer_digits 8 (u64 a) []))
    else if last == b'c'
    then print_arg ap v (λ a. some (u8 a ∷ []))
    else if last == b's'
    then (do
      (a, ap') ← va_arg ap
      v' ← vga_puts fuel m a v
      v'' ← serial_puts fuel m a v'
      some (ap', v''))
    else some (ap, print (b'%' ∷ last ∷ []) v)

-- The conversions behind `%l`; for another character nothing is printed.
pub long_directive : ℕ → List ℕ → Vga → Option (List ℕ × Vga)
long_directive last ap v =
    if last == b'd'
    then print_arg ap v (λ a. signed_text 64 (u64 a))
    else if last == b'u'
    then print_arg ap v (λ a. digits rounds 10 (u64 a) [])
    else if last == b'x'
    then print_arg ap v (λ a. hex_digits rounds (u64 a) [])
    else some (ap, v)

-- One round of the loop of `vga_printf` at `fmt`, where the byte is not zero.
pub printf_step : ℕ → Memory → ℕ → List ℕ → Vga → Option (ℕ × List ℕ × Vga)
printf_step fuel m fmt ap v =
    if not (m fmt == b'%')
    then some (fmt + 1, ap, serial_putc (m fmt) (vga_putchar (m fmt) v))
    else if m (fmt + 1) == b'l'
    then (do (ap', v') ← long_directive (m (fmt + 2)) ap v; some (fmt + 3, ap', v'))
    else (do (ap', v') ← directive fuel m (m (fmt + 1)) ap v; some (fmt + 2, ap', v'))

pub vga_printf : ℕ → Memory → ℕ → List ℕ → Vga → Option Vga
vga_printf zero m fmt ap v = none
vga_printf (suc fuel) m fmt ap v =
    let rest =
      printf_step fuel m fmt ap v >>= λ (s : ℕ × List ℕ × Vga). vga_printf fuel m s.0 s.1 s.2 in
    if m fmt == 0 then some v else rest
