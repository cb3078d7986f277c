-- ===== src/Tui/Scroll.antt =====
-- The loops of tui.cpp over the cells: scrolling and clearing.
use ckernel.Prelude.{ℕ, zero, suc, ◌+◌, ◌*◌, ◌≤◌, ◌<◌, ◌≡◌, refl, ◌∙◌, Bool, arith}
use ckernel.Prelude.{◌⊎◌, inl, inr, ap, Bool-cases}
use ckernel.Prelude.{if◌then◌else◌, ltb, leb, ◌&&◌}
use ckernel.Tui.{
  Tui, Pos, Char, space, write, read, scroll_copy, scroll_blank, scroll, clear_row, clear_rows,
  clear, set_pos,
}

-- `t'` is `t` with the cells that `f` gives.
pub record IsPainted (f : ℕ → Char) (t t' : Tui) : Type 0 where
  pub cells : (q : ℕ) → t'.buffer q ≡ f q
  pub pos : t'.pos ≡ t.pos
  pub color : t'.color ≡ t.color
  pub serial : t'.serial ≡ t.serial
  pub ports : t'.ports ≡ t.ports

-- `i ≤ q < i + n`
abbrev pub between : ℕ → ℕ → ℕ → Bool
between i n q = leb i q && ltb q (i + n)

pub scroll_copy_lem :
    (n i : ℕ) (t : Tui)
    → IsPainted (λ q. if between i n q then t.buffer (q + 80) else t.buffer q) t (scroll_copy n i t)
unfolding scroll_copy
scroll_copy_lem zero i t = record {
  cells = λ q. ground arith;
  pos = refl;
  color = refl;
  serial = refl;
  ports = refl;
}
scroll_copy_lem (suc n) i t =
    let rest = scroll_copy_lem n (i + 1) (write i (read (i + 80) t) t) in
    record {
      cells = λ q. ground (arith, rest.cells q);
      pos = rest.pos;
      color = rest.color;
      serial = rest.serial;
      ports = rest.ports;
    }

pub scroll_blank_lem :
    (n i : ℕ) (t : Tui)
    → IsPainted (λ q. if between i n q then space t else t.buffer q) t (scroll_blank n i t)
unfolding scroll_blank
scroll_blank_lem zero i t = record {
  cells = λ q. ground arith;
  pos = refl;
  color = refl;
  serial = refl;
  ports = refl;
}
scroll_blank_lem (suc n) i t =
    let rest = scroll_blank_lem n (i + 1) (write i (space t) t) in
    record {
      cells = λ q. ground (arith, rest.cells q);
      pos = rest.pos;
      color = rest.color;
      serial = rest.serial;
      ports = rest.ports;
    }

clear_row_lem :
    (n y x : ℕ) (t : Tui)
    → IsPainted
        (λ q. if between (y * 80 + x) n q then space t else t.buffer q)
        t
        (clear_row n y x t)
unfolding clear_row
clear_row_lem zero y x t = record {
  cells = λ q. ground arith;
  pos = refl;
  color = refl;
  serial = refl;
  ports = refl;
}
clear_row_lem (suc n) y x t =
    let rest = clear_row_lem n y (x + 1) (write (y * 80 + x) (space t) t) in
    record {
      cells = λ q. ground (arith, rest.cells q);
      pos = rest.pos;
      color = rest.color;
      serial = rest.serial;
      ports = rest.ports;
    }

clear_rows_lem :
    (n y : ℕ) (t : Tui)
    → IsPainted
        (λ q. if between (y * 80) (n * 80) q then space t else t.buffer q)
        t
        (clear_rows n y t)
unfolding clear_rows
clear_rows_lem zero y t = record {
  cells = λ q. ground arith;
  pos = refl;
  color = refl;
  serial = refl;
  ports = refl;
}
clear_rows_lem (suc n) y t =
    let row = clear_row_lem 80 y 0 t in
    let rest = clear_rows_lem n (y + 1) (clear_row 80 y 0 t) in
    record {
      cells = λ q. ground (arith, rest.cells q, row.cells q, row.color);
      pos = rest.pos ∙ row.pos;
      color = rest.color ∙ row.color;
      serial = rest.serial ∙ row.serial;
      ports = rest.ports ∙ row.ports;
    }

-- The screen has moved up one row: its last row is blank, and the cursor is in that row.
pub record IsScrolled (t t' : Tui) : Type 0 where
  pub moved : (q : ℕ) → q < 1920 → t'.buffer q ≡ t.buffer (q + 80)
  pub blank : (q : ℕ) → 1920 ≤ q → q < 2000 → t'.buffer q ≡ space t
  pub beyond : (q : ℕ) → 2000 ≤ q → t'.buffer q ≡ t.buffer q
  pub col : t'.pos.col ≡ t.pos.col
  pub row : t'.pos.row ≡ 24
  pub color : t'.color ≡ t.color
  pub serial : t'.serial ≡ t.serial
  pub ports : t'.ports ≡ t.ports

-- `scroll` moves the screen up by one row if the cursor is below the last one, and otherwise changes
-- nothing. It leaves the cells beyond the screen alone.
pub scroll_lem :
    (t : Tui) → ((25 ≤ t.pos.row) × IsScrolled t (scroll t)) ⊎ ((t.pos.row < 25) × (scroll t ≡ t))
unfolding scroll
scroll_lem t = elim (Bool-cases (leb 25 t.pos.row)) [
  | inl below ↦
      let copied = scroll_copy_lem 1920 0 t in
      let blanked = scroll_blank_lem 80 1920 (scroll_copy 1920 0 t) in
      rw below (
        inl (
          ground (arith, below),
          record {
            moved = λ q h. ground (arith, blanked.cells q, copied.cells q);
            blank = λ q h k. ground (arith, blanked.cells q, copied.color);
            beyond = λ q h. ground (arith, blanked.cells q, copied.cells q);
            col = ap (λ (p : Pos). p.col) (blanked.pos ∙ copied.pos);
            row = refl;
            color = blanked.color ∙ copied.color;
            serial = blanked.serial ∙ copied.serial;
            ports = blanked.ports ∙ copied.ports;
          },
        ))
  | inr above ↦ rw above (inr (ground (arith, above), refl))
]

-- `clear` fills the screen with spaces in the current colour, leaves the cells beyond it alone and puts
-- the cursor at the top left; nothing goes out on the serial line.
pub clear_lem :
    (t : Tui)
    → ((q : ℕ) → q < 2000 → (clear t).buffer q ≡ space t)
      × ((q : ℕ) → 2000 ≤ q → (clear t).buffer q ≡ t.buffer q)
      × ((clear t).pos.col ≡ 0)
      × ((clear t).pos.row ≡ 0)
      × ((clear t).color ≡ t.color)
      × ((clear t).serial ≡ t.serial)
unfolding clear set_pos
clear_lem t =
    let rows = clear_rows_lem 25 0 t in
    (
      λ q h. ground (arith, rows.cells q),
      λ q h. ground (arith, rows.cells q),
      refl,
      refl,
      rows.color,
      rows.serial,
    )
