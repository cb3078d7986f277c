-- ===== src/Intr.antt =====
-- src/platform/x86_64/src/intr.cpp with src/platform/x86_64/include/intr.h: the interrupt descriptor table,
-- the table of handlers and the interrupt controllers. A handler is a function on a state `S` of the
-- kernel that is not looked into. The writes to ports are recorded, the last one first.
pub mod Setup
pub mod Dispatch
pub mod Default
mod Tests
use ckernel.Prelude.{
  ℕ, zero, suc, ◌+◌, ◌-◌, ◌*◌, ◌/◌, ◌%◌, bit_and, Bool, true, false, not, ◌||◌, List, ◌∷◌,
}
use ckernel.Prelude.{Option, none, some, if◌then◌else◌, ltb, leb, ◌==◌}
use ckernel.Prelude.Int.{ℤ, pos, negsuc}
use ckernel.Word.{u8, u16, u32, lnot64, ◌<<<◌, ◌>>>◌}

-- `idt_entry_t`; the fields that are always 0 are kept.
pub record IdtEntry : Type 0 where
  pub offset_low : ℕ
  pub selector : ℕ
  pub ist : ℕ
  pub zero0 : ℕ
  pub type : ℕ
  pub zero1 : ℕ
  pub dpl : ℕ
  pub p : ℕ
  pub offset_mid : ℕ
  pub offset_high : ℕ
  pub reserved : ℕ

-- `{}`
abbrev pub empty_entry : IdtEntry
empty_entry = record {
  offset_low = 0;
  selector = 0;
  ist = 0;
  zero0 = 0;
  type = 0;
  zero1 = 0;
  dpl = 0;
  p = 0;
  offset_mid = 0;
  offset_high = 0;
  reserved = 0;
}

abbrev pub pic1_command : ℕ
pic1_command = 0x20

abbrev pub pic1_data : ℕ
pic1_data = 0x21

abbrev pub pic2_command : ℕ
pic2_command = 0xA0

abbrev pub pic2_data : ℕ
pic2_data = 0xA1

abbrev pub pic_eoi : ℕ
pic_eoi = 0x20

abbrev pub interrupt_max : ℕ
interrupt_max = 32

abbrev pub excp_max : ℕ
excp_max = 256

-- The static members of INTERRUPTS; `none` is a null handler. `interrupt_flag` is the flag of the processor
-- that `enable` (the instruction sti) and `disable` (cli) set and clear.
pub record Interrupts (S : Type 0) : Type 0 where
  pub idt : ℕ → IdtEntry
  pub idtr_limit : ℕ
  pub idtr_base : ℕ
  pub interrupt_handlers : ℕ → Option (ℕ → S → S)
  pub ports : List (ℕ × ℕ)
  pub interrupt_flag : Bool

-- The entry that `make_idt_entry` builds.
abbrev pub gate : ℕ → ℕ → ℕ → ℕ → IdtEntry
gate addr type dpl p = record {
  offset_low = bit_and addr 0xFFFF;
  selector = 0x08;
  ist = 0;
  zero0 = 0;
  type = type % 16;
  zero1 = 0;
  dpl = dpl % 4;
  p = p % 2;
  offset_mid = bit_and (addr >>> 16) 0xFFFF;
  offset_high = bit_and (addr >>> 32) 0xFFFFFFFF;
  reserved = 0;
}

-- The writes of `send_eoi`, in front of those before.
abbrev pub eoi_ports : ℕ → List (ℕ × ℕ) → List (ℕ × ℕ)
eoi_ports irq_num ports =
    (pic1_command, u8 pic_eoi)
    ∷ (if leb 8 irq_num then (pic2_command, u8 pic_eoi) ∷ ports else ports)

module _ {S : Type 0} where
  abbrev pub outb : ℕ → ℕ → Interrupts S → Interrupts S
  outb port value x = record x { ports = (port, u8 value) ∷ x.ports }

  abbrev pub make_idt_entry : ℕ → ℕ → ℕ → ℕ → ℕ → Interrupts S → Interrupts S
  make_idt_entry vec handler type dpl p x = record x {
    idt = λ q. if q == vec then gate handler type dpl p else x.idt q;
  }

  abbrev pub register_intr_handler : ℕ → (ℕ → S → S) → Interrupts S → Interrupts S
  register_intr_handler intr_num handler x = record x {
    interrupt_handlers = λ q. if q == u8 intr_num then some handler else x.interrupt_handlers q;
  }

  pub pic_init : Interrupts S → Interrupts S
  pic_init x = outb pic2_data 0xFF (
      outb pic1_data 0xFF (
        outb pic2_data 0x01 (
          outb pic1_data 0x01 (
            outb pic2_data 0x02 (
              outb pic1_data 0x04 (
                outb pic2_data 0x28
                  (outb pic1_data 0x20 (outb pic2_command 0x11 (outb pic1_command 0x11 x)))))))))

  -- SET_EXCP and SET_IRQ for a row of `n` vectors from `vec` on; `stub` gives the address of the entry
  -- point of each vector. Type 0xE is an interrupt gate, for privilege level 0, present.
  pub set_gates : (stub : ℕ → ℕ) → ℕ → ℕ → Interrupts S → Interrupts S
  set_gates stub zero vec x = x
  set_gates stub (suc n) vec x =
      set_gates stub n (vec + 1) (make_idt_entry vec (stub vec) 0xE 0 1 x)

  -- The loop that registers the default handler, with the rounds left.
  pub set_default : (ℕ → S → S) → ℕ → ℕ → Interrupts S → Interrupts S
  set_default handler zero i x = x
  set_default handler (suc left) i x =
      set_default handler left (i + 1) (register_intr_handler i handler x)

  -- The tables as `init` sets them, up to the call of `idt_load`.
  pub tables : ℕ → (ℕ → ℕ) → (ℕ → S → S) → Interrupts S → Interrupts S
  tables idt_addr stub handler_default x =
      let cleared = record x { idt = λ q. empty_entry } in
      let built = set_gates stub 16 32 (set_gates stub 21 0 cleared) in
      let handled = set_default handler_default interrupt_max 0 built in
      record handled { idtr_base = u32 idt_addr; idtr_limit = 16 * excp_max - 1 }

  -- `init`, for the address of the table, the entry points of the vectors, the default handler and the
  -- answer of `idt_load`, which are assembly code or the linker's.
  pub init : ℕ → (ℕ → ℕ) → (ℕ → S → S) → Bool → Interrupts S → Bool × Interrupts S
  init idt_addr stub handler_default loaded x =
      let x' = tables idt_addr stub handler_default x in
      if not (bit_and idt_addr 0xF == 0)
      then (false, x)
      else if ltb idt_addr 0x100000 || ltb 0xFFFFFFFFFFFF idt_addr
      then (false, x)
      else if not loaded
      then (false, x')
      else (true, pic_init x')

  -- The call of a handler, with the result of `call_isr`.
  abbrev pub run : Option (ℕ → S → S) → ℕ → S → ℤ × S
  run none vec s = (negsuc 0, s)
  run (some handler) vec s = (pos 0, handler vec s)

  pub call_isr : Interrupts S → ℕ → S → ℤ × S
  call_isr x vec s =
      if ltb vec excp_max then run (x.interrupt_handlers vec) vec s else (negsuc 0, s)

  pub call_irq : Interrupts S → ℕ → S → ℤ × S
  call_irq x vec s =
      if ltb vec excp_max then run (x.interrupt_handlers vec) vec s else (negsuc 0, s)

  -- `enable_irq`, where `inb` is what a read of each port gives. The complement is of an `int`; its upper
  -- bits are dropped by the `&` with a byte.
  pub enable_irq : (inb : ℕ → ℕ) → ℕ → Interrupts S → Interrupts S
  enable_irq inb irq_num x =
      let irq = u8 (irq_num + 256 - 32) in
      let port = if leb 8 irq then pic2_data else pic1_data in
      let line = if leb 8 irq then irq - 8 else irq in
      outb port (bit_and (u8 (inb port)) (lnot64 (1 <<< line))) x

  abbrev pub enable : Interrupts S → Interrupts S
  enable x = record x { interrupt_flag = true }

  abbrev pub disable : Interrupts S → Interrupts S
  disable x = record x { interrupt_flag = false }

  -- What the assembly code calls for an exception and for a hardware interrupt. The error code is not used.
  abbrev pub isr_handler : Interrupts S → ℕ → ℕ → S → S
  isr_handler x irq_num err_code s = (call_isr x irq_num s).1

  abbrev pub irq_handler : Interrupts S → ℕ → S → S
  irq_handler x irq_num s = (call_irq x irq_num s).1

  -- `while (1)`: no number of rounds is enough.
  pub spin : ℕ → S → Option S
  spin zero s = none
  spin (suc n) s = spin n s

  abbrev pub isr_default_handler : ℕ → S → Option S
  isr_default_handler fuel s = spin fuel s

  abbrev pub send_eoi : ℕ → Interrupts S → Interrupts S
  send_eoi irq_num x = record x { ports = eoi_ports irq_num x.ports }
