-- ===== src/Selfboot/Tests.antt =====
-- What the demonstration kernel leaves on the screen.
use ckernel.Prelude.{ℕ, ◌≤◌, ◌≡◌, refl, arith}
use ckernel.Selfboot.{kernel_main}

-- HELLO in white on black, and the other cells as before.
hello :
    (vga : ℕ → ℕ)
    → (kernel_main vga 0 ≡ 0xF48)
      × (kernel_main vga 1 ≡ 0xF45)
      × (kernel_main vga 2 ≡ 0xF4C)
      × (kernel_main vga 3 ≡ 0xF4C)
      × (kernel_main vga 4 ≡ 0xF4F)
      × ((i : ℕ) → 5 ≤ i → kernel_main vga i ≡ vga i)
unfolding kernel_main
hello vga = (refl, refl, refl, refl, refl, λ i beyond. ground arith)
