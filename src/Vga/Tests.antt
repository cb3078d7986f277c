-- ===== src/Vga/Tests.antt =====
-- Runs of the boot-time printer, and the theorems on it at concrete inputs.
use ckernel.Prelude.{ℕ, ◌-◌, ◌≤◌, ◌≡◌, refl, List, [], ◌∷◌, some, arith, get_or, length}
use ckernel.Mem.{Memory}
use ckernel.Vga.{Vga, vga_putchar, print, vga_printf, digits, hex_digits, signed_text, rounds}
use ckernel.Vga.Screen.{IsShown, vga_putchar_lem}
use ckernel.Vga.Digits.{IsNumeral, numeral_lem, value}
use ckernel.Vga.Format.{Piece, plain, conv, signed, long_hex, Prints}
use ckernel.Vga.Printf.{vga_printf_lem}
use Prim.{tt}

abbrev screen : ℕ → ℕ → Vga
screen x y = record { vga_mem = λ q. 0; cursor_x = x; cursor_y = y; current_color = 7; serial = [] }

minus_runs : signed_text 32 0xFFFF_FFD6 ≡ some (b'-' ∷ b'4' ∷ b'2' ∷ [])
unfolding signed_text digits
minus_runs = refl

-- "n=%d%lx" at address 100
abbrev text : Memory
text a = get_or (b'n' ∷ b'=' ∷ b'%' ∷ b'd' ∷ b'%' ∷ b'l' ∷ b'x' ∷ []) (a - 100) 0

abbrev pieces : List Piece
pieces = plain b'n' ∷ plain b'=' ∷ conv signed ∷ conv long_hex ∷ []

vga_printf_lem_example :
    (out : List ℕ) × Prints text pieces (0xFFFF_FFD6 ∷ 255 ∷ []) out
    × (vga_printf 6 text 100 (0xFFFF_FFD6 ∷ 255 ∷ []) (screen 78 24)
        ≡ some (print out (screen 78 24)))
vga_printf_lem_example =
    vga_printf_lem pieces 0 6 text 100 (0xFFFF_FFD6 ∷ 255 ∷ []) (screen 78 24)
      (refl, (refl, (refl, (refl, (refl, (refl, (refl, (refl, tt))))))))
      (omega arith, omega arith, (omega arith, omega arith, (omega arith, (tt, tt)))) (omega arith)

vga_putchar_lem_example : IsShown 65 (screen 79 24) (vga_putchar 65 (screen 79 24))
vga_putchar_lem_example =
    vga_putchar_lem 65 (screen 79 24) (record { x = omega arith; y = omega arith }) (omega arith)
      (omega arith)

-- "%" at the end, at address 100
abbrev cut : Memory
cut a = get_or (b'%' ∷ 0 ∷ b'!' ∷ []) (a - 100) 0

numeral_lem_example :
    ((ds : List ℕ) × (digits rounds 10 1024 [] ≡ some ds)
      × IsNumeral 10 1024 ds
      × (value 10 0 ds ≡ 1024)
      × (length ds ≤ 20))
    × ((ds : List ℕ) × (hex_digits rounds 1024 [] ≡ some ds)
        × IsNumeral 16 1024 ds
        × (value 16 0 ds ≡ 1024)
        × (length ds ≤ 16))
numeral_lem_example = numeral_lem 1024 (omega arith)
