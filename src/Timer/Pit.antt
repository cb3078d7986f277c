-- ===== src/Timer/Pit.antt =====
-- The programming of the interval timer, and the timer behind it.
use ckernel.Prelude.{ℕ, ◌+◌, ◌*◌, ◌/◌, ◌%◌, ◌^◌, ◌≤◌, ◌<◌, ◌≡◌, refl, ◌∷◌, arith, bit_and}
use ckernel.Word.{u8, u32, ◌>>>◌}
use ckernel.Word.Bits.{bit_and_mask}
use ckernel.Intr.{Interrupts}
use ckernel.Timer.{init_pit}
use native.Mathlib.Nat.{mul-le-mul_left, div-mul-le_self, lt-mul-div-succ, mul_comm}
use native.Mathlib.Decide.{ℕ_discrete}

-- The bytes of a quotient of 16 bits.
quotient_lem :
    (d hz : ℕ)
    → 18 < hz
    → d * hz ≤ 1193180
    → 1193180 < hz * (d + 1)
    → hz ≤ 1193180
    → (0 < d) × (d < 2 ^ 16)
quotient_lem d hz fast le gt slow =
    let least = mul-le-mul_left d fast in
    (
      elim (ℕ_discrete d 0) [
        | yes z ↦ (let gt' : 1193180 < hz * (0 + 1) = rw z at gt in absurd (omega arith))
        | no nz ↦ omega arith
      ],
      omega arith,
    )

-- From 19 Hz up to the frequency of the timer, `init_pit` writes the command for channel 0 and then the two
-- bytes of a divisor, not 0, that `hz` is the quotient by: the timer fires at least `hz` times a second,
-- and with one more in the divisor less often.
pub init_pit_lem :
    {S : Type 0} (hz : ℕ) (x : Interrupts S)
    → 18 < hz
    → hz ≤ 1193180
    → (lo hi : ℕ) × ((init_pit hz x).ports ≡ (0x40, hi) ∷ (0x40, lo) ∷ (0x43, 0x36) ∷ x.ports)
      × (0 < lo + hi * 256)
      × ((lo + hi * 256) * hz ≤ 1193180)
      × (1193180 < (lo + hi * 256 + 1) * hz)
unfolding init_pit
init_pit_lem hz x fast slow =
    let d = 1193180 / hz in
    let le = div-mul-le_self 1193180 hz in
    let gt = lt-mul-div-succ 1193180 {b = hz} (omega arith) in
    let (positive, small) = quotient_lem d hz fast le gt slow in
    let low : u8 (bit_and (u32 d) 0xFF) ≡ d % 256 = omega (arith, bit_and_mask 8 (u32 d)) in
    let high : u8 (bit_and (u32 d >>> 8) 0xFF) ≡ d / 256 =
      omega (arith, bit_and_mask 8 (u32 d >>> 8)) in
    let whole : d % 256 + d / 256 * 256 ≡ d = omega arith in
    let above : 1193180 < (d + 1) * hz = rw (mul_comm (d + 1) hz) gt in
    (d % 256, d / 256, rw (low, high) refl, rw whole positive, rw whole le, rw whole above)
