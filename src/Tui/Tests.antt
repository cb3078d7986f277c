-- ===== src/Tui/Tests.antt =====
-- Runs of the text screen: an empty screen, with the cursor at the top left or at the bottom right.
use ckernel.Prelude.{ℕ, zero, suc, ◌+◌, ◌<◌, ◌≤◌, ◌≡◌, refl, ◌≢◌, [], ◌∷◌, arith, get_or}
use ckernel.Mem.{Memory}
use ckernel.Tui.{
  Tui, Pos, blank_char, make_col, white, black, put_char, escapeconv, scroll, set_pos,
}
use ckernel.Tui.Cursor.{IsPut, InColumn, put_char_plain, put_char_lem}

abbrev screen : ℕ → ℕ → Tui
screen col row = record {
  buffer = λ q. blank_char;
  pos = record { col = col; row = row };
  color = make_col white black;
  serial = [];
  ports = [];
}

-- A tab near the end of a row leaves the cursor behind the row.
tab_runs : (put_char 9 (screen 77 3)).pos.col ≡ 80
unfolding put_char escapeconv scroll set_pos
tab_runs = refl

put_char_plain_example : IsPut 65 1999 (screen 79 24) (put_char 65 (screen 79 24))
put_char_plain_example =
    put_char_plain 65 (screen 79 24) (omega arith) (omega arith) (omega arith)
      (record { row = omega arith; col = omega arith })

put_char_lem_example :
    ((put_char 9 (screen 77 3)).pos.row < 25)
    × InColumn 9 77 (put_char 9 (screen 77 3)).pos.col
    × ((q : ℕ) → 2000 ≤ q → (put_char 9 (screen 77 3)).buffer q ≡ (screen 77 3).buffer q)
    × ((put_char 9 (screen 77 3)).color ≡ (screen 77 3).color)
put_char_lem_example =
    put_char_lem 9 (screen 77 3) (record { row = omega arith; col = omega arith })

abbrev place : Pos
place = record { col = 5; row = 7 }

-- "Hi\n" at address 10.
abbrev text : Memory
text a = get_or (0 ∷ 0 ∷ 0 ∷ 0 ∷ 0 ∷ 0 ∷ 0 ∷ 0 ∷ 0 ∷ 0 ∷ 72 ∷ 105 ∷ 10 ∷ []) a 0

text_bytes : (i : ℕ) → i < 3 → (text (10 + i) ≢ 0) × (text (10 + i) ≢ 9)
text_bytes zero h = (omega arith, omega arith)
text_bytes (suc zero) h = (omega arith, omega arith)
text_bytes (suc (suc zero)) h = (omega arith, omega arith)
text_bytes (suc (suc (suc i))) h = absurd (omega arith)
