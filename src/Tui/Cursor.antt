-- ===== src/Tui/Cursor.antt =====
-- TUI::put_char of tui.cpp: the cell it writes and the cursor after it.
use ckernel.Prelude.{ℕ, ◌+◌, ◌*◌, ◌≤◌, ◌<◌, ◌≡◌, refl, ◌≢◌, ◌⊎◌, inl, inr, false, arith, ◌∙◌, ◌∷◌}
use ckernel.Prelude.{if◌then◌else◌, ltb, ◌==◌}
use ckernel.Tui.{Tui, Char, space, escapeconv, put_plain, scroll, set_pos, put_char}
use ckernel.Tui.Scroll.{scroll_lem}
use native.Mathlib.Decide.{ℕ_discrete, dec_lt}

-- The cursor is on the screen.
pub record IsOnScreen (t : Tui) : Type 0 where
  pub row : t.pos.row < 25
  pub col : t.pos.col < 80

-- By how much the cells move when the cursor goes to this row.
abbrev pub shift_of : ℕ → ℕ
shift_of row = if ltb row 25 then 0 else 80

-- `t'` is `t`, scrolled if the cursor is below the screen.
record IsFinished (t t' : Tui) : Type 0 where
  row : t'.pos.row < 25
  same_place : t'.pos.row * 80 + shift_of t.pos.row ≡ t.pos.row * 80
  col : t'.pos.col ≡ t.pos.col
  moved : (q : ℕ) → q + shift_of t.pos.row < 2000 → t'.buffer q ≡ t.buffer (q + shift_of t.pos.row)
  blank : (q : ℕ) → 2000 ≤ q + shift_of t.pos.row → q < 2000 → t'.buffer q ≡ space t
  beyond : (q : ℕ) → 2000 ≤ q → t'.buffer q ≡ t.buffer q
  color : t'.color ≡ t.color
  serial : t'.serial ≡ t.serial

finish_lem : (t : Tui) → t.pos.row ≤ 25 → IsFinished t (set_pos (scroll t).pos (scroll t))
unfolding set_pos
finish_lem t low = elim (scroll_lem t) [
  | inl (below, s) ↦ record {
    row = omega (arith, s.row);
    same_place = ground (arith, s.row);
    col = s.col;
    moved = λ q h. ground (arith, s.moved q);
    blank = λ q h k. ground (arith, s.blank q);
    beyond = s.beyond;
    color = s.color;
    serial = s.serial;
  }
  | inr (above, e) ↦ rw e record {
    row = above;
    same_place = ground arith;
    col = refl;
    moved = λ q h. ground arith;
    blank = λ q h k. ground arith;
    beyond = λ q h. refl;
    color = refl;
    serial = refl;
  }
]

-- `put_char` up to the call of `scroll`.
abbrev typed : ℕ → Tui → Tui
typed c t = let (escaped, t') = escapeconv c t in if escaped then t' else put_plain c t'

abbrev cursor : Tui → ℕ
cursor t = t.pos.row * 80 + t.pos.col

-- What `put_char` writes at the cursor.
abbrev pub written : ℕ → Tui → Char
written c t = record { c = c; color = t.color }

record IsTyped (c : ℕ) (t t' : Tui) : Type 0 where
  place : t'.pos.row * 80 + t'.pos.col ≡ t.pos.row * 80 + t.pos.col + 1
  low : t'.pos.row ≤ 25
  narrow : t'.pos.col < 80
  cells :
      (q : ℕ) → t'.buffer q ≡ (if q == t.pos.row * 80 + t.pos.col then written c t else t.buffer q)
  color : t'.color ≡ t.color
  serial : t'.serial ≡ c ∷ t.serial

put_plain_lem : (c : ℕ) (t : Tui) → IsOnScreen t → IsTyped c t (put_plain c t)
unfolding put_plain
put_plain_lem c t on = record {
  place = ground arith;
  low = ground arith;
  narrow = ground arith;
  cells = λ q. ground arith;
  color = refl;
  serial = refl;
}

escapeconv_plain : (c : ℕ) (t : Tui) → c ≢ 10 → c ≢ 9 → c ≢ 8 → escapeconv c t ≡ (false, t)
unfolding escapeconv
escapeconv_plain c t newline tab backspace = ground (arith, newline, tab, backspace)

-- By how much the cells move when a character is put in cell `k`.
abbrev pub scroll_by : ℕ → ℕ
scroll_by k = if k == 1999 then 80 else 0

-- `t'` is `t` after the character `c` was put in cell `k`, scrolled if that was the last cell.
pub record IsPut (c k : ℕ) (t t' : Tui) : Type 0 where
  pub on_screen : IsOnScreen t'
  pub place : t'.pos.row * 80 + t'.pos.col + scroll_by k ≡ k + 1
  pub cells :
      (q : ℕ)
      → q + scroll_by k < 2000
      → t'.buffer q ≡ (if q + scroll_by k == k then written c t else t.buffer (q + scroll_by k))
  pub blank : (q : ℕ) → 2000 ≤ q + scroll_by k → q < 2000 → t'.buffer q ≡ space t
  pub beyond : (q : ℕ) → 2000 ≤ q → t'.buffer q ≡ t.buffer q
  pub color : t'.color ≡ t.color
  pub serial : t'.serial ≡ c ∷ t.serial

-- For a character other than newline, tab and backspace and a cursor on the screen, `put_char` writes
-- the character at the cursor in the current colour and moves the cursor to the next cell, at the end
-- of a row to the start of the next. After the last cell of the screen, the cells move up one row,
-- the last row becomes blank and the cursor goes to its start. Nothing beyond the screen changes, and the
-- character goes out on the serial line.
pub put_char_plain :
    (c : ℕ) (t : Tui)
    → c ≢ 10
    → c ≢ 9
    → c ≢ 8
    → IsOnScreen t
    → IsPut c (t.pos.row * 80 + t.pos.col) t (put_char c t)
unfolding put_char
put_char_plain c t newline tab backspace on =
    let p = put_plain_lem c t on in
    let f = finish_lem (put_plain c t) p.low in
    let shift : shift_of (put_plain c t).pos.row ≡ scroll_by (t.pos.row * 80 + t.pos.col) =
      ground (arith, p.place, p.narrow, on.col, on.row) in
    rw (escapeconv_plain c t newline tab backspace) record {
      on_screen = record { row = f.row; col = omega (arith, f.col, p.narrow) };
      place = omega (arith, f.same_place, f.col, p.place, shift);
      cells = λ q h. rw (← shift) (f.moved q (omega (arith, shift)) ∙ p.cells _);
      blank = λ q h k. ground (arith, f.blank q (omega (arith, shift)) k, p.color);
      beyond = λ q h. ground (arith, f.beyond q h, p.cells q, on.row, on.col);
      color = f.color ∙ p.color;
      serial = f.serial ∙ p.serial;
    }

-- Where the cursor is after `c` was put at column `col`: a tab in one of the last four columns goes to column
-- 80, and everything else to a column of the screen.
abbrev pub InColumn : ℕ → ℕ → ℕ → Type 0
InColumn c col col' = ((c ≡ 9) × (76 ≤ col) × (col' ≡ 80)) ⊎ (((c ≢ 9) ⊎ (col < 76)) × (col' < 80))

record IsEscaped (c : ℕ) (t t' : Tui) : Type 0 where
  low : t'.pos.row ≤ 25
  column : InColumn c t.pos.col t'.pos.col
  beyond : (q : ℕ) → 2000 ≤ q → t'.buffer q ≡ t.buffer q
  color : t'.color ≡ t.color

column_lem : (c : ℕ) (t : Tui) → IsOnScreen t → InColumn c t.pos.col (typed c t).pos.col
unfolding escapeconv put_plain
column_lem c t on = elim (ℕ_discrete c 9) [
  | no other ↦ inr (inl other, ground (arith, on.col, other))
  | yes tab ↦ elim (dec_lt t.pos.col 76) [
    | yes before ↦ inr (inr before, ground (arith, tab, before))
    | no late ↦ inl (tab, omega arith, ground (arith, tab, on.col))
  ]
]

typed_lem : (c : ℕ) (t : Tui) → IsOnScreen t → IsEscaped c t (typed c t)
unfolding escapeconv put_plain
typed_lem c t on = record {
  low = ground (arith, on.row);
  column = column_lem c t on;
  beyond = λ q h. ground (arith, on.row, on.col);
  color = ground arith;
}

-- For any character and a cursor on the screen, `put_char` changes no cell beyond the screen and leaves
-- the cursor in a row of the screen, in a column of the screen, except that a tab in one of the last four columns
-- always leaves it in column 80.
pub put_char_lem :
    (c : ℕ) (t : Tui)
    → IsOnScreen t
    → ((put_char c t).pos.row < 25)
      × InColumn c t.pos.col (put_char c t).pos.col
      × ((q : ℕ) → 2000 ≤ q → (put_char c t).buffer q ≡ t.buffer q)
      × ((put_char c t).color ≡ t.color)
unfolding put_char
put_char_lem c t on =
    let e = typed_lem c t on in
    let f = finish_lem (typed c t) e.low in
    (f.row, rw f.col e.column, λ q h. f.beyond q h ∙ e.beyond q h, f.color ∙ e.color)
