-- ===== src/Selfboot.antt =====
-- src/selfboot/mainself.c: the demonstration kernel of the repository's own boot loader. The screen memory is the
-- 16-bit cell at each index from 0xB8000 on.
mod Tests
use ckernel.Prelude.{ℕ, bit_or, if◌then◌else◌, ◌==◌}
use ckernel.Word.{u16, ◌<<<◌}
use ckernel.Vga.{char_to_u16}

abbrev pub vga_entry : ℕ → ℕ → ℕ
vga_entry c color = bit_or (char_to_u16 c) (u16 (color <<< 8))

-- `VGA[i] = cell`
abbrev set_cell : ℕ → ℕ → (ℕ → ℕ) → ℕ → ℕ
set_cell i cell vga q = if q == i then cell else vga q

-- The screen with which the endless loop over `hlt` begins; the loop changes nothing.
pub kernel_main : (ℕ → ℕ) → ℕ → ℕ
kernel_main vga = set_cell 4 (vga_entry b'O' 0x0F) (
    set_cell 3 (vga_entry b'L' 0x0F) (
      set_cell 2 (vga_entry b'L' 0x0F)
        (set_cell 1 (vga_entry b'E' 0x0F) (set_cell 0 (vga_entry b'H' 0x0F) vga))))
