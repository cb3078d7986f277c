-- ===== src/Intr/Dispatch.antt =====
-- Handlers, masks and the end of an interrupt in intr.cpp.
use ckernel.Prelude.{ℕ, ◌+◌, ◌-◌, ◌%◌, ◌^◌, ◌≤◌, ◌<◌, ◌≡◌, refl, true, false, not, arith}
use ckernel.Prelude.{if◌then◌else◌, ltb, leb, ◌&&◌, bit_and, ◌==◌, ◌∷◌, none}
use ckernel.Prelude.Int.{pos, negsuc}
use ckernel.Word.{u8, lnot64, ◌<<<◌}
use native.Mathlib.Decide.{dec_lt}
use native.Mathlib.Nat.{pow-le-pow_right}
use ckernel.Word.Bits.{bit, bit-and, bit-pow, bit-complement, bit-zero, bit_and_mask}
use ckernel.Intr.{
  Interrupts, register_intr_handler, call_isr, call_irq, enable_irq, enable, pic1_data, pic2_data,
}
use ckernel.Intr.Setup.{IsSetUp}

-- For vectors below 256: after a handler is registered for a vector, a call for that vector runs it
-- and answers 0, and a call for any other vector does what it did before, for `call_isr` and for
-- `call_irq`.
pub call-register :
    {S : Type 0} (x : Interrupts S) (vec other : ℕ) (handler : ℕ → S → S) (s : S)
    → vec < 256
    → other < 256
    → let x' = register_intr_handler vec handler x in
      (call_isr x' other s
        ≡ (if vec == other then (pos 0, handler other s) else call_isr x other s))
      × (call_irq x' other s
          ≡ (if vec == other then (pos 0, handler other s) else call_irq x other s))
unfolding call_isr call_irq
call-register x vec other handler s small small' =
    let narrow : u8 vec ≡ vec = omega arith in (ground (arith, narrow), ground (arith, narrow))

-- After a complete `init` of a table without handlers, `call_irq` for a vector below 32 runs the
-- default handler and answers 0; for another vector below 256 it answers -1 and does nothing.
pub call_irq-init :
    {S : Type 0} (idt_addr : ℕ) (stub : ℕ → ℕ) (handler : ℕ → S → S) (x x' : Interrupts S) (vec : ℕ)
    (s : S)
    → IsSetUp idt_addr stub handler x x'
    → ((q : ℕ) → x.interrupt_handlers q ≡ none)
    → vec < 256
    → call_irq x' vec s ≡ (if ltb vec 32 then (pos 0, handler vec s) else (negsuc 0, s))
unfolding call_irq
call_irq-init idt_addr stub handler x x' vec s set_up fresh small = elim (dec_lt vec 32) [
  | yes low ↦ ground (arith, set_up.defaults vec low)
  | no high ↦ ground (arith, set_up.rest vec (omega arith), fresh vec)
]

bit-u8 : (x k : ℕ) → k < 8 → bit (u8 x) k ≡ bit x k
bit-u8 x k small =
    rw (← bit_and_mask 8 x, bit-and x 255 k, bit-complement 8 0 k (omega arith) small, bit-zero k)
      (ground arith)

-- The byte `mask` with the bit of `line` cleared.
mask_lem :
    (mask line k : ℕ)
    → line < 8
    → k < 8
    → bit (u8 (bit_and mask (lnot64 (2 ^ line)))) k ≡ (bit mask k && not (line == k))
mask_lem mask line k small small' =
    let fits : 2 ^ line < 2 ^ 64 =
      omega (arith, pow-le-pow_right {n = 2} (omega arith) {i = line} {j = 8} (omega arith)) in
    rw (
      bit-u8 (bit_and mask (lnot64 (2 ^ line))) k small',
      bit-and mask (lnot64 (2 ^ line)) k,
      bit-complement 64 (2 ^ line) k fits (omega arith),
      bit-pow line k,
    )

-- For the vector of a hardware interrupt, `enable_irq` writes once, to the data port of the controller
-- that has the line: the mask that was read from there, with the line's bit cleared and the others kept.
pub enable_irq_lem :
    {S : Type 0} (inb : ℕ → ℕ) (vec : ℕ) (x : Interrupts S)
    → 32 ≤ vec
    → vec < 48
    → let port = if ltb vec 40 then pic1_data else pic2_data in
      (mask : ℕ) × ((enable_irq inb vec x).ports ≡ (port, mask) ∷ x.ports)
      × ((k : ℕ) → k < 8 → bit mask k ≡ (bit (u8 (inb port)) k && not (vec % 8 == k)))
unfolding enable_irq
enable_irq_lem inb vec x low high = elim (dec_lt vec 40) [
  | yes first ↦
      let irq : u8 (vec + 256 - 32) ≡ vec % 8 = omega arith in
      let line : (1 <<< (vec % 8)) ≡ 2 ^ (vec % 8) = omega arith in
      let below : leb 8 (vec % 8) ≡ false = ground arith in
      let chosen : ltb vec 40 ≡ true = ground arith in
      rw (irq, below, chosen, line)
        (_, refl, λ k small. mask_lem (u8 (inb pic1_data)) (vec % 8) k (omega arith) small)
  | no second ↦
      let irq : u8 (vec + 256 - 32) ≡ vec % 8 + 8 = omega arith in
      let back : vec % 8 + 8 - 8 ≡ vec % 8 = omega arith in
      let line : (1 <<< (vec % 8)) ≡ 2 ^ (vec % 8) = omega arith in
      let above : leb 8 (vec % 8 + 8) ≡ true = ground arith in
      let chosen : ltb vec 40 ≡ false = ground arith in
      rw (irq, above, chosen, back, line)
        (_, refl, λ k small. mask_lem (u8 (inb pic2_data)) (vec % 8) k (omega arith) small)
]

-- The mask of an interrupt has no part in a call.
pub call_irq-enable_irq :
    {S : Type 0} (inb : ℕ → ℕ) (irq_num vec : ℕ) (x : Interrupts S) (s : S)
    → call_irq (enable_irq inb irq_num x) vec s ≡ call_irq x vec s
unfolding call_irq enable_irq
call_irq-enable_irq inb irq_num vec x s = refl

-- Nor has the flag of the processor.
pub call_irq-enable :
    {S : Type 0} (x : Interrupts S) (vec : ℕ) (s : S) → call_irq (enable x) vec s ≡ call_irq x vec s
unfolding call_irq
call_irq-enable x vec s = refl
