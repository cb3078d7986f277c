-- ===== src/Intr/Tests.antt =====
-- The theorems on interrupts at concrete inputs: handlers that count, and an empty table at 2 MiB.
use ckernel.Prelude.{false, ℕ, ◌+◌, ◌%◌, ◌≡◌, refl, true, arith, none, []}
use ckernel.Intr.{Interrupts, empty_entry, init}
use ckernel.Intr.Setup.{IsSetUp, init-IsSetUp}
use ckernel.Prelude.{◌∷◌, Option, some}
use ckernel.Prelude.Int.{ℤ}
use ckernel.Io.{Io, cyan}
use ckernel.Io.Print.{IsReport}
use ckernel.Io.Sample.{one_a, one_a-IsBounded, io}
use ckernel.Intr.{spin, isr_handler}
use ckernel.Intr.Default.{handler_default, isr_handler-IsSetUp}

abbrev interrupts : Interrupts ℕ
interrupts = record {
  idt = λ q. empty_entry;
  idtr_limit = 0;
  idtr_base = 0;
  interrupt_handlers = λ q. none;
  ports = [];
  interrupt_flag = false;
}

abbrev count : ℕ → ℕ → ℕ
count vec s = s + 1

abbrev stub : ℕ → ℕ
stub q = 0xFFFF_8000_0010_0000 + q % 256

init-IsSetUp_example :
    (x' : Interrupts ℕ) × (init 0x200000 stub count true interrupts ≡ (true, x'))
    × IsSetUp 0x200000 stub count interrupts x'
init-IsSetUp_example =
    init-IsSetUp 0x200000 stub count interrupts refl (omega arith) (omega arith) (λ q. omega arith)

ready :
    (x' : Interrupts ℕ) × (init 0x200000 stub count true interrupts ≡ (true, x'))
    × IsSetUp 0x200000 stub count interrupts x'
ready =
    init-IsSetUp 0x200000 stub count interrupts refl (omega arith) (omega arith) (λ q. omega arith)

-- A loop that shows the state that it begins with.
abbrev showing : ℕ → Option Io → Option Io
showing = handler_default (λ t. some t) (λ s. s) (λ s t. s) one_a 4096 512 100

abbrev silent : Interrupts (Option Io)
silent = record {
  idt = λ q. empty_entry;
  idtr_limit = 0;
  idtr_base = 0;
  interrupt_handlers = λ q. none;
  ports = [];
  interrupt_flag = false;
}

armed :
    (x' : Interrupts (Option Io)) × (init 0x200000 stub showing true silent ≡ (true, x'))
    × IsSetUp 0x200000 stub showing silent x'
armed =
    init-IsSetUp 0x200000 stub showing silent refl (omega arith) (omega arith) (λ q. omega arith)

isr_handler-IsSetUp_example :
    (ret : ℤ) × (io' : Io) × IsReport one_a 4096 cyan 100 (14 ∷ []) io (some (ret, io'))
    × (isr_handler armed.0 14 2 (some io) ≡ some io')
    × ((n : ℕ) → spin n io' ≡ none)
isr_handler-IsSetUp_example =
    isr_handler-IsSetUp (λ t. some t) (λ s. s) (λ s t. s) one_a 4096 512 100 0x200000 stub silent
      armed.0 14 2 io one_a-IsBounded (omega arith) armed.2 (omega arith)
