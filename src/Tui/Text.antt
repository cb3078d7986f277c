-- ===== src/Tui/Text.antt =====
-- write and write_string of tui.cpp: text on the screen and on the serial line.
use ckernel.Prelude.{ℕ, zero, suc, ◌+◌, ◌≤◌, ◌<◌, ◌≡◌, refl, ap, ◌≢◌, ◌∙◌, some, arith}
use ckernel.Mem.{Memory}
use ckernel.Str.Length.{IsString, strlen_iff}
use ckernel.Tui.{Tui, put_char, write_bytes, write_string}
use ckernel.Tui.Cursor.{IsOnScreen, put_char_lem}

-- The `n` bytes at `s` contain no tab.
abbrev pub NoTab : Memory → ℕ → ℕ → Type 0
NoTab m s n = (i : ℕ) → i < n → m (s + i) ≢ 9

-- The cursor is on the screen, and the cells beyond it and the colour are as before.
pub record IsConfined (t t' : Tui) : Type 0 where
  pub on_screen : IsOnScreen t'
  pub beyond : (q : ℕ) → 2000 ≤ q → t'.buffer q ≡ t.buffer q
  pub color : t'.color ≡ t.color

put_char-IsConfined : (c : ℕ) (t : Tui) → c ≢ 9 → IsOnScreen t → IsConfined t (put_char c t)
put_char-IsConfined c t other on =
    let (row, column, beyond, color) = put_char_lem c t on in
    record {
      on_screen = record { row = row; col = ground (arith, other, column) };
      beyond = beyond;
      color = color;
    }

write_bytes_lem :
    (n : ℕ) (m : Memory) (s : ℕ) (t : Tui)
    → NoTab m s n
    → IsOnScreen t
    → IsConfined t (write_bytes n m s t)
unfolding write_bytes
write_bytes_lem zero m s t no_tab on = record { on_screen = on; beyond = λ q h. refl; color = refl }
write_bytes_lem (suc n) m s t no_tab on =
    let one = put_char-IsConfined (m s) t (first no_tab) on in
    let rest = write_bytes_lem n m (s + 1) (put_char (m s) t) (later no_tab) one.on_screen in
    record {
      on_screen = rest.on_screen;
      beyond = λ q h. rest.beyond q h ∙ one.beyond q h;
      color = rest.color ∙ one.color;
    }
  where
    first : NoTab m s (suc n) → m s ≢ 9
    first h e = let at : s + 0 ≡ s = omega arith in h zero (omega arith) (ap m at ∙ e)

    later : NoTab m s (suc n) → NoTab m (s + 1) n
    later h = λ i below e.
        (let at : s + suc i ≡ s + 1 + i = omega arith in h (suc i) (omega arith) (ap m at ∙ e))

-- `write_string` writes the bytes before the terminator.
pub write_string-write_bytes :
    (fuel : ℕ) (m : Memory) (s n : ℕ) (t : Tui)
    → IsString m s n
    → n < fuel
    → write_string fuel m s t ≡ some (write_bytes n m s t)
unfolding write_string
write_string-write_bytes fuel m s n t string enough =
    rw ((strlen_iff fuel m s n).1 (string, enough))

-- A string without tabs, written with more rounds than bytes from a cursor on the screen, is written
-- completely, leaves the cursor on the screen and changes neither the colour nor a cell beyond the
-- screen.
pub write_string_lem :
    (fuel : ℕ) (m : Memory) (s n : ℕ) (t : Tui)
    → IsString m s n
    → n < fuel
    → NoTab m s n
    → IsOnScreen t
    → (t' : Tui) × (write_string fuel m s t ≡ some t') × IsConfined t t'
write_string_lem fuel m s n t string enough no_tab on = (
  write_bytes n m s t,
  write_string-write_bytes fuel m s n t string enough,
  write_bytes_lem n m s t no_tab on,
)
