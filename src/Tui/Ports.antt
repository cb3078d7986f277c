-- ===== src/Tui/Ports.antt =====
-- The hardware cursor of tui.cpp: what set_pos sends to the ports, and get_pos.
use ckernel.Prelude.{ℕ, ◌+◌, ◌*◌, ◌/◌, ◌%◌, ◌<◌, ◌≡◌, refl, ◌↔◌, ap, ap₂, ◌∷◌, arith}
use ckernel.Word.{u8, u16}
use ckernel.Tui.{Tui, Pos, set_pos, get_pos, tui_addr, tui_data, tui_cursor_h, tui_cursor_l}

pos_ext : (p : Pos) {col row : ℕ} → col ≡ p.col → row ≡ p.row → record { col = col; row = row } ≡ p
pos_ext p e e' = rw (e, e') refl

-- For a position on the screen, `set_pos` sends the index of its cell as two bytes, the high one first.
-- When `get_pos` reads these bytes back, it gives the position only if that is in row 0.
pub get_pos-set_pos :
    (p : Pos) (t : Tui)
    → p.row < 25
    → p.col < 80
    → let index = p.row * 80 + p.col in
      let h = index / 256 in
      let l = index % 256 in
      ((set_pos p t).ports
        ≡ (tui_data, l)
          ∷ (tui_addr, tui_cursor_l)
          ∷ (tui_data, h)
          ∷ (tui_addr, tui_cursor_h)
          ∷ t.ports)
      × ((get_pos h l ≡ p) ↔ (p.row ≡ 0))
unfolding set_pos
get_pos-set_pos p t row col =
    let index = p.row * 80 + p.col in
    let low : u8 (u16 index) ≡ index % 256 = omega arith in
    let high : u8 (u16 index / 256) ≡ index / 256 = omega arith in
    (
      ap₂
          (λ (l h : ℕ).
            (tui_data, l)
            ∷ (tui_addr, tui_cursor_l)
            ∷ (tui_data, h)
            ∷ (tui_addr, tui_cursor_h)
            ∷ t.ports)
          low high,
      (
        λ e. first_row (ap (λ (q : Pos). q.row) e) (ap (λ (q : Pos). q.col) e),
        λ top. pos_ext p (omega arith) (omega arith),
      ),
    )
  where
    first_row :
        u8 ((p.row * 80 + p.col) / 256) ≡ p.row
        → u8 ((p.row * 80 + p.col) % 256) ≡ p.col
        → p.row ≡ 0
    first_row e e' = omega arith
