-- ===== src/Vga/Screen.antt =====
-- The cells and the cursor of vgaprint.cpp.
use ckernel.Prelude.{ℕ, zero, suc, ◌+◌, ◌*◌, ◌/◌, ◌^◌, ◌≤◌, ◌<◌, ◌≡◌, refl, ◌∙◌, ap}
use ckernel.Prelude.{Bool, true, false, arith, ltb, leb, ◌&&◌, ◌==◌, if◌then◌else◌, bit_or, not}
use ckernel.Word.{u8, u16}
use ckernel.Word.Step.{bit_or_step}
use ckernel.Word.Shift.{bit_or-high, bit_or-shifted}
use ckernel.Vga.{
  Vga, vga_entry, store_cell, blank_cell, copy_row, copy_rows, blank_cells, vga_scroll,
  put_at_cursor, vga_putchar, vga_init,
}
use native.Mathlib.Decide.{dec_lt}

-- `i ≤ q < i + n`
abbrev between : ℕ → ℕ → ℕ → Bool
between i n q = leb i q && ltb q (i + n)

-- `v'` is `v` with the cells that `f` gives.
record IsPainted (f : ℕ → ℕ) (v v' : Vga) : Type 0 where
  cells : (q : ℕ) → v'.vga_mem q ≡ f q
  color : v'.current_color ≡ v.current_color
  serial : v'.serial ≡ v.serial

copy_row_lem :
    (n y x : ℕ) (v : Vga)
    → IsPainted
        (λ q. if between (y * 80 + x) n q then v.vga_mem (q + 80) else v.vga_mem q)
        v
        (copy_row n y x v)
unfolding copy_row
copy_row_lem zero y x v = record { cells = λ q. ground arith; color = refl; serial = refl }
copy_row_lem (suc n) y x v =
    let rest =
      copy_row_lem n y (x + 1) (store_cell (y * 80 + x) (v.vga_mem ((y + 1) * 80 + x)) v) in
    let next : (y + 1) * 80 + x ≡ y * 80 + x + 80 = omega arith in
    record {
      cells = λ q. ground (arith, rest.cells q, next);
      color = rest.color;
      serial = rest.serial;
    }

copy_rows_lem :
    (n y : ℕ) (v : Vga)
    → IsPainted
        (λ q. if between (y * 80) (n * 80) q then v.vga_mem (q + 80) else v.vga_mem q)
        v
        (copy_rows n y v)
unfolding copy_rows
copy_rows_lem zero y v = record { cells = λ q. ground arith; color = refl; serial = refl }
copy_rows_lem (suc n) y v =
    let row = copy_row_lem 80 y 0 v in
    let rest = copy_rows_lem n (y + 1) (copy_row 80 y 0 v) in
    record {
      cells = λ q. ground (arith, rest.cells q, row.cells q, row.cells (q + 80));
      color = rest.color ∙ row.color;
      serial = rest.serial ∙ row.serial;
    }

blank_cells_lem :
    (n i : ℕ) (v : Vga)
    → IsPainted (λ q. if between i n q then blank_cell v else v.vga_mem q) v (blank_cells n i v)
unfolding blank_cells
blank_cells_lem zero i v = record { cells = λ q. ground arith; color = refl; serial = refl }
blank_cells_lem (suc n) i v =
    let rest = blank_cells_lem n (i + 1) (store_cell i (blank_cell v) v) in
    record { cells = λ q. ground (arith, rest.cells q); color = rest.color; serial = rest.serial }

bit_or_ones : (f : ℕ) → f < 16 → bit_or 255 f ≡ 255
bit_or_ones f small =
    let none : f / 2 / 2 / 2 / 2 ≡ 0 = omega arith in
    let last : bit_or 15 (f / 2 / 2 / 2 / 2) ≡ 15 =
      ap (λ (t : ℕ). bit_or 15 t) none ∙ bit_or-shifted 4 15 0 (omega arith) in
    omega (
      arith,
      bit_or_step 255 f,
      bit_or_step 127 (f / 2),
      bit_or_step 63 (f / 2 / 2),
      bit_or_step 31 (f / 2 / 2 / 2),
      last,
    )

-- The low byte of a cell is the character, the high byte the colour; a character above 127 keeps its
-- sign, and sets all bits of the colour.
pub vga_entry_lem :
    (c fg : ℕ) → c < 256 → fg < 16 → vga_entry c fg ≡ c + (if ltb c 128 then fg else 255) * 256
unfolding vga_entry
vga_entry_lem c fg char color =
    let black : bit_or fg (0 * 2 ^ 4) ≡ fg = bit_or-shifted 4 fg 0 color ∙ omega arith in
    let wide : u16 (u8 (bit_or fg (0 * 2 ^ 4)) * 2 ^ 8) ≡ fg * 2 ^ 8 = omega (arith, black) in
    elim (dec_lt c 128) [
      | yes plain ↦ ground (arith, wide, bit_or-shifted 8 c fg char)
      | no high ↦
          let split : 0xFF00 + c ≡ c + 255 * 2 ^ 8 = omega arith in
          ground (arith, wide, split, bit_or-high 8 c 255 fg char, bit_or_ones fg color)
    ]

-- `v'` is `v` with the screen moved up one row, a blank last row, and the cursor at its start.
record IsScrolled (v v' : Vga) : Type 0 where
  moved : (q : ℕ) → q < 1920 → v'.vga_mem q ≡ v.vga_mem (q + 80)
  blank : (q : ℕ) → 1920 ≤ q → q < 2000 → v'.vga_mem q ≡ blank_cell v
  beyond : (q : ℕ) → 2000 ≤ q → v'.vga_mem q ≡ v.vga_mem q
  x : v'.cursor_x ≡ 0
  y : v'.cursor_y ≡ 24
  color : v'.current_color ≡ v.current_color
  serial : v'.serial ≡ v.serial

vga_scroll_lem : (v : Vga) → IsScrolled v (vga_scroll v)
unfolding vga_scroll
vga_scroll_lem v =
    let copied = copy_rows_lem 24 0 v in
    let blanked = blank_cells_lem 80 1920 (copy_rows 24 0 v) in
    record {
      moved = λ q h. ground (arith, blanked.cells q, copied.cells q);
      blank = λ q h k. blanked.cells q ∙ ground (arith, copied.color);
      beyond = λ q h. ground (arith, blanked.cells q, copied.cells q);
      x = refl;
      y = refl;
      color = blanked.color ∙ copied.color;
      serial = blanked.serial ∙ copied.serial;
    }

-- The cursor is on the screen.
pub record IsOnScreen (v : Vga) : Type 0 where
  pub x : v.cursor_x < 80
  pub y : v.cursor_y < 25

-- The cell of the cursor, and where the cursor goes for `c` if the screen does not move.
abbrev pub cell_of : Vga → ℕ
cell_of v = v.cursor_y * 80 + v.cursor_x

abbrev pub next_cell : ℕ → Vga → ℕ
next_cell c v = if c == 10 then (v.cursor_y + 1) * 80 else cell_of v + 1

abbrev pub scroll_by : ℕ → Vga → ℕ
scroll_by c v = if next_cell c v == 2000 then 80 else 0

-- `v'` is `v` after `c`: the character is in the cursor's cell unless it is a newline, and the screen has
-- moved up one row if the cursor would have left it.
pub record IsPut (c : ℕ) (v v' : Vga) : Type 0 where
  pub on_screen : IsOnScreen v'
  pub place : cell_of v' + scroll_by c v ≡ next_cell c v
  pub cells :
      (q : ℕ)
      → q + scroll_by c v < 2000
      → v'.vga_mem q ≡ (
          if not (c == 10) && q + scroll_by c v == cell_of v
          then vga_entry c v.current_color
          else v.vga_mem (q + scroll_by c v))
  pub blank : (q : ℕ) → 2000 ≤ q + scroll_by c v → q < 2000 → v'.vga_mem q ≡ blank_cell v
  pub beyond : (q : ℕ) → 2000 ≤ q → v'.vga_mem q ≡ v.vga_mem q
  pub color : v'.current_color ≡ v.current_color
  pub serial : v'.serial ≡ v.serial

record IsPlaced (c : ℕ) (v v' : Vga) : Type 0 where
  place : cell_of v' ≡ next_cell c v
  narrow : v'.cursor_x < 80
  low : v'.cursor_y ≤ 25
  start : v'.cursor_y ≡ 25 → v'.cursor_x ≡ 0
  cells :
      (q : ℕ)
      → v'.vga_mem q
        ≡ (if not (c == 10) && q == cell_of v then vga_entry c v.current_color else v.vga_mem q)
  color : v'.current_color ≡ v.current_color
  serial : v'.serial ≡ v.serial

put_at_cursor_lem : (c : ℕ) (v : Vga) → IsOnScreen v → IsPlaced c v (put_at_cursor c v)
unfolding put_at_cursor
put_at_cursor_lem c v on = record {
  place = ground (arith, on.x, on.y);
  narrow = ground (arith, on.x);
  low = ground (arith, on.y);
  start = ground (arith, on.y);
  cells = λ q. ground arith;
  color = ground arith;
  serial = ground arith;
}

pub vga_putchar-IsPut : (c : ℕ) (v : Vga) → IsOnScreen v → IsPut c v (vga_putchar c v)
unfolding vga_putchar
vga_putchar-IsPut c v on =
    let p = put_at_cursor_lem c v on in
    let s = vga_scroll_lem (put_at_cursor c v) in
    elim (dec_lt (put_at_cursor c v).cursor_y 25) [
      | yes above ↦
          let stays : scroll_by c v ≡ 0 = ground (arith, p.place, p.narrow) in
          let test : leb 25 (put_at_cursor c v).cursor_y ≡ false = ground arith in
          rw test record {
            on_screen = record { x = p.narrow; y = above };
            place = omega (arith, p.place, stays);
            cells = λ q h. rw stays (ground (arith, p.cells q));
            blank = λ q h k. absurd (omega (arith, stays));
            beyond = λ q h. ground (arith, p.cells q, on.x, on.y);
            color = p.color;
            serial = p.serial;
          }
      | no below ↦
          let last : (put_at_cursor c v).cursor_y ≡ 25 = omega (arith, p.low) in
          let start = p.start last in
          let moves : scroll_by c v ≡ 80 = ground (arith, p.place, last, start) in
          let test : leb 25 (put_at_cursor c v).cursor_y ≡ true = ground arith in
          rw test record {
            on_screen = record { x = omega (arith, s.x); y = omega (arith, s.y) };
            place = omega (arith, s.x, s.y, p.place, last, start, moves);
            cells = λ q h. rw moves (s.moved q (omega (arith, moves)) ∙ p.cells (q + 80));
            blank = λ q h k. s.blank q (omega (arith, moves)) k ∙ ap (vga_entry 32) p.color;
            beyond = λ q h. ground (arith, s.beyond q h, p.cells q, on.x, on.y);
            color = s.color ∙ p.color;
            serial = s.serial ∙ p.serial;
          }
    ]

-- The 16 bits of a cell: the character in the low byte, and in the high one the colour, or all ones for a
-- character above 127.
abbrev pub shown : ℕ → ℕ → ℕ
shown c color = c + (if ltb c 128 then color else 255) * 256

-- The same as `IsPut`, with the bits of the cells.
pub record IsShown (c : ℕ) (v v' : Vga) : Type 0 where
  pub on_screen : IsOnScreen v'
  pub place : cell_of v' + scroll_by c v ≡ next_cell c v
  pub cells :
      (q : ℕ)
      → q + scroll_by c v < 2000
      → v'.vga_mem q ≡ (
          if not (c == 10) && q + scroll_by c v == cell_of v
          then shown c v.current_color
          else v.vga_mem (q + scroll_by c v))
  pub blank :
      (q : ℕ) → 2000 ≤ q + scroll_by c v → q < 2000 → v'.vga_mem q ≡ 32 + v.current_color * 256
  pub beyond : (q : ℕ) → 2000 ≤ q → v'.vga_mem q ≡ v.vga_mem q
  pub color : v'.current_color ≡ v.current_color
  pub serial : v'.serial ≡ v.serial

-- From a cursor on the screen, for a byte and a colour of 4 bits, `vga_putchar` writes a cell with the byte in
-- its low half and in its high half the current colour, or all ones if the byte is above 127; for a
-- newline it writes nothing and only moves the cursor to the next row. Otherwise the cursor goes to the
-- next cell. When it would leave the screen, the screen moves up by one row, the last row
-- becomes spaces in the current colour and the cursor goes to its start. No cell beyond the screen changes.
pub vga_putchar_lem :
    (c : ℕ) (v : Vga)
    → IsOnScreen v
    → c < 256
    → v.current_color < 16
    → IsShown c v (vga_putchar c v)
vga_putchar_lem c v on byte small =
    let p = vga_putchar-IsPut c v on in
    let entry = vga_entry_lem c v.current_color byte small in
    record {
      on_screen = p.on_screen;
      place = p.place;
      cells = λ q h.
          p.cells q h
          ∙ ap
              (λ e.
                if not (c == 10) && q + scroll_by c v == cell_of v
                then e
                else v.vga_mem (q + scroll_by c v))
              entry;
      blank = λ q h k. p.blank q h k ∙ vga_entry_lem 32 v.current_color (omega arith) small;
      beyond = p.beyond;
      color = p.color;
      serial = p.serial;
    }

-- `vga_init` makes the screen blank in the current colour, changes no cell beyond it and puts the cursor
-- at the top left.
pub vga_init_lem :
    (v : Vga)
    → ((q : ℕ) → q < 2000 → (vga_init v).vga_mem q ≡ blank_cell v)
      × ((q : ℕ) → 2000 ≤ q → (vga_init v).vga_mem q ≡ v.vga_mem q)
      × IsOnScreen (vga_init v)
      × (cell_of (vga_init v) ≡ 0)
unfolding vga_init
vga_init_lem v =
    let blanked = blank_cells_lem 2000 0 v in
    (
      λ q h. ground (arith, blanked.cells q),
      λ q h. ground (arith, blanked.cells q),
      record { x = omega arith; y = omega arith },
      refl,
    )
