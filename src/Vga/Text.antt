-- ===== src/Vga/Text.antt =====
-- Texts on the screen and on the serial line of vgaprint.cpp.
use ckernel.Prelude.{
  ℕ, zero, suc, ◌+◌, ◌*◌, ◌≤◌, ◌<◌, ◌≡◌, refl, sym, ◌≢◌, ◌∙◌, ap, ap₂, List, [], ◌∷◌, ◌++◌, some,
  arith,
}
use ckernel.Mem.{Memory}
use ckernel.Str.Length.{IsString}
use ckernel.Vga.{
  Vga, store_cell, blank_cell, copy_row, copy_rows, blank_cells, vga_scroll, put_at_cursor,
  vga_putchar, on_line, serial_putc, vga_puts, serial_puts, put_text, serial_text, print,
}
use ckernel.Vga.Screen.{IsOnScreen, vga_putchar-IsPut}

-- `text` on the serial line, the last byte first, with a carriage return behind each newline.
pub sent : List ℕ → List ℕ → List ℕ
sent [] line = line
sent (c ∷ cs) line = sent cs (on_line c line)

-- The `n` bytes at `s`.
pub bytes_at : Memory → ℕ → ℕ → List ℕ
bytes_at m s zero = []
bytes_at m s (suc n) = m s ∷ bytes_at m (s + 1) n

abbrev with_serial : List ℕ → Vga → Vga
with_serial line v = record v { serial = line }

-- What is on the screen does not depend on the serial line.
copy_row-serial :
    (n y x : ℕ) (line : List ℕ) (v : Vga)
    → copy_row n y x (with_serial line v) ≡ with_serial line (copy_row n y x v)
unfolding copy_row
copy_row-serial zero y x line v = refl
copy_row-serial (suc n) y x line v =
    copy_row-serial n y (x + 1) line (store_cell (y * 80 + x) (v.vga_mem ((y + 1) * 80 + x)) v)

copy_rows-serial :
    (n y : ℕ) (line : List ℕ) (v : Vga)
    → copy_rows n y (with_serial line v) ≡ with_serial line (copy_rows n y v)
unfolding copy_rows
copy_rows-serial zero y line v = refl
copy_rows-serial (suc n) y line v =
    ap (copy_rows n (y + 1)) (copy_row-serial 80 y 0 line v)
    ∙ copy_rows-serial n (y + 1) line (copy_row 80 y 0 v)

blank_cells-serial :
    (n i : ℕ) (line : List ℕ) (v : Vga)
    → blank_cells n i (with_serial line v) ≡ with_serial line (blank_cells n i v)
unfolding blank_cells
blank_cells-serial zero i line v = refl
blank_cells-serial (suc n) i line v =
    blank_cells-serial n (i + 1) line (store_cell i (blank_cell v) v)

vga_scroll-serial :
    (line : List ℕ) (v : Vga) → vga_scroll (with_serial line v) ≡ with_serial line (vga_scroll v)
unfolding vga_scroll
vga_scroll-serial line v =
    rw (copy_rows-serial 24 0 line v, blank_cells-serial 80 1920 line (copy_rows 24 0 v))

put_at_cursor-serial :
    (c : ℕ) (line : List ℕ) (v : Vga)
    → put_at_cursor c (with_serial line v) ≡ with_serial line (put_at_cursor c v)
unfolding put_at_cursor
put_at_cursor-serial c line v = ground arith

vga_putchar-serial :
    (c : ℕ) (line : List ℕ) (v : Vga)
    → vga_putchar c (with_serial line v) ≡ with_serial line (vga_putchar c v)
unfolding vga_putchar
vga_putchar-serial c line v =
    ground (arith, put_at_cursor-serial c line v, vga_scroll-serial line (put_at_cursor c v))

put_text-serial :
    (text line : List ℕ) (v : Vga)
    → put_text text (with_serial line v) ≡ with_serial line (put_text text v)
unfolding put_text
put_text-serial [] line v = refl
put_text-serial (c ∷ cs) line v =
    ap (put_text cs) (vga_putchar-serial c line v) ∙ put_text-serial cs line (vga_putchar c v)

serial_text_lem :
    (text : List ℕ) (v : Vga) → serial_text text v ≡ with_serial (sent text v.serial) v
unfolding serial_text sent
serial_text_lem [] v = refl
serial_text_lem (c ∷ cs) v = serial_text_lem cs (serial_putc c v)

put_text-keeps_serial : (text : List ℕ) (v : Vga) → (put_text text v).serial ≡ v.serial
put_text-keeps_serial text v = ap (λ (w : Vga). w.serial) (put_text-serial text v.serial v)

pub print_lem :
    (text : List ℕ) (v : Vga) → print text v ≡ with_serial (sent text v.serial) (put_text text v)
print_lem text v =
    serial_text_lem text (put_text text v)
    ∙ ap (λ line. with_serial (sent text line) (put_text text v)) (put_text-keeps_serial text v)

put_text-append : (a b : List ℕ) (v : Vga) → put_text (a ++ b) v ≡ put_text b (put_text a v)
unfolding put_text
put_text-append [] b v = refl
put_text-append (c ∷ a) b v = put_text-append a b (vga_putchar c v)

sent-append : (a b line : List ℕ) → sent (a ++ b) line ≡ sent b (sent a line)
unfolding sent
sent-append [] b line = refl
sent-append (c ∷ a) b line = sent-append a b (on_line c line)

-- Printing two texts one after the other prints the joined text.
pub print-append : (a b : List ℕ) (v : Vga) → print (a ++ b) v ≡ print b (print a v)
print-append a b v =
    let first = print_lem a v in
    let line = sent a v.serial in
    print_lem (a ++ b) v
    ∙ ap₂ with_serial (sent-append a b v.serial) (put_text-append a b v)
    ∙ sym (ap (with_serial (sent b line)) (put_text-serial b line (put_text a v)))
    ∙ sym (print_lem b (with_serial line (put_text a v)))
    ∙ sym (ap (print b) first)

IsString-next : {m : Memory} {s n : ℕ} → IsString m s (suc n) → IsString m (s + 1) n
IsString-next {m} {s} {n} h = record {
  nonzero = λ i below e.
      (let at : s + suc i ≡ s + 1 + i = omega arith in
        h.nonzero (suc i) (omega arith) (ap m at ∙ e));
  terminated = (let at : s + 1 + n ≡ s + suc n = omega arith in ap m at ∙ h.terminated);
}

first_nonzero : {m : Memory} {s n : ℕ} → IsString m s (suc n) → m s ≢ 0
first_nonzero {m} {s} h e =
    let at : s + 0 ≡ s = omega arith in h.nonzero 0 (omega arith) (ap m at ∙ e)

empty_end : {m : Memory} {s : ℕ} → IsString m s 0 → m s ≡ 0
empty_end {m} {s} h = let at : s ≡ s + 0 = omega arith in ap m at ∙ h.terminated

pub vga_puts_lem :
    (n fuel : ℕ) (m : Memory) (s : ℕ) (v : Vga)
    → IsString m s n
    → n < fuel
    → vga_puts fuel m s v ≡ some (put_text (bytes_at m s n) v)
unfolding vga_puts put_text bytes_at
vga_puts_lem n zero m s v string enough = absurd (omega arith)
vga_puts_lem zero (suc fuel) m s v string enough = ground (arith, empty_end string)
vga_puts_lem (suc n) (suc fuel) m s v string enough = ground (
  arith,
  first_nonzero string,
  vga_puts_lem n fuel m (s + 1) (vga_putchar (m s) v) (IsString-next string) (omega arith),
)

pub serial_puts_lem :
    (n fuel : ℕ) (m : Memory) (s : ℕ) (v : Vga)
    → IsString m s n
    → n < fuel
    → serial_puts fuel m s v ≡ some (serial_text (bytes_at m s n) v)
unfolding serial_puts serial_text bytes_at
serial_puts_lem n zero m s v string enough = absurd (omega arith)
serial_puts_lem zero (suc fuel) m s v string enough = ground (arith, empty_end string)
serial_puts_lem (suc n) (suc fuel) m s v string enough = ground (
  arith,
  first_nonzero string,
  serial_puts_lem n fuel m (s + 1) (serial_putc (m s) v) (IsString-next string) (omega arith),
)

-- The screen after a text.
pub record IsPrinted (text : List ℕ) (v v' : Vga) : Type 0 where
  pub on_screen : IsOnScreen v'
  pub beyond : (q : ℕ) → 2000 ≤ q → v'.vga_mem q ≡ v.vga_mem q
  pub color : v'.current_color ≡ v.current_color
  pub serial : v'.serial ≡ sent text v.serial

put_text_lem :
    (text : List ℕ) (v : Vga)
    → IsOnScreen v
    → IsOnScreen (put_text text v)
      × ((q : ℕ) → 2000 ≤ q → (put_text text v).vga_mem q ≡ v.vga_mem q)
      × ((put_text text v).current_color ≡ v.current_color)
unfolding put_text
put_text_lem [] v on = (on, λ q h. refl, refl)
put_text_lem (c ∷ cs) v on =
    let p = vga_putchar-IsPut c v on in
    let (on', beyond, color) = put_text_lem cs (vga_putchar c v) p.on_screen in
    (on', λ q h. beyond q h ∙ p.beyond q h, color ∙ p.color)

-- A text printed from a cursor on the screen keeps it there, changes neither the colour nor a cell
-- beyond the screen, and goes out on the serial line in order, with a carriage return behind each newline.
pub print-IsPrinted : (text : List ℕ) (v : Vga) → IsOnScreen v → IsPrinted text v (print text v)
print-IsPrinted text v on =
    let (on', beyond, color) = put_text_lem text v on in
    rw (print_lem text v) record {
      on_screen = record { x = on'.x; y = on'.y };
      beyond = beyond;
      color = color;
      serial = refl;
    }
