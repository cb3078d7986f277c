-- ===== src/Timer.antt =====
-- src/platform/x86_64/src/timer.cpp and c_time.cpp: the timer interrupt, the interval timer and the
-- calibration of the processor's counter. The texts of the messages stand at addresses that are parameters,
-- like `_vsnprintf` and the output buffer; what the hardware gives (port reads, flags, counters) is an
-- argument.
pub mod Ticks
pub mod Pit
pub mod Calibration
pub mod Interleave
pub mod Shared
pub mod Lost
pub mod Session
mod Tests
use ckernel.Prelude.{ℕ, zero, suc, ◌+◌, ◌-◌, ◌*◌, ◌/◌, ◌%◌, bit_and, Bool, true, List, [], ◌∷◌}
use ckernel.Prelude.{Option, none, some, if◌then◌else◌, ltb, ◌==◌, ◌>>=◌}
use ckernel.Prelude.Int.{ℤ, pos, negsuc}
use ckernel.Word.{u8, u32, u64, sub64, ◌<<<◌, ◌>>>◌}
use ckernel.Intr.{Interrupts, outb, register_intr_handler, enable_irq, enable, eoi_ports}
use ckernel.Io.{Io, Formatter, info}

abbrev pub irq0 : ℕ
irq0 = 32

-- What the timer interrupt changes: the counter, the port writes of `send_eoi` and the text output.
pub record Clock : Type 0 where
  pub g_ticks : ℕ
  pub ports : List (ℕ × ℕ)
  pub io : Io

-- The divisor of the interval timer, to its channel 0, the low byte first.
pub init_pit : {S : Type 0} → ℕ → Interrupts S → Interrupts S
init_pit hz x =
    let div = u32 (1193180 / hz) in
    outb 0x40 (bit_and (div >>> 8) 0xFF) (outb 0x40 (bit_and div 0xFF) (outb 0x43 0x36 x))

-- `fuel` is for the output of a message, `second` the address of its format.
module _ (vsnprintf : Formatter) (buf fuel second : ℕ) where
  pub timer_intr : Clock → Option Clock
  timer_intr c =
      let ticks = u64 (c.g_ticks + 1) in
      let c' : Clock = record c { g_ticks = ticks; ports = eoi_ports irq0 c.ports } in
      if ticks % 1000 == 0
      then (do (_, io') ← info vsnprintf buf fuel second [] c'.io; some (record c' { io = io' }))
      else some c'

  -- As an entry of the table of handlers; the arguments of the interrupt are not used.
  abbrev pub timer_handler : ℕ → Option Clock → Option Clock
  timer_handler vec c = c >>= timer_intr

  -- `TIMER::init`, where `report` is the `info` of its message with the arguments `va`, for the reads of ports and the flags register.
  pub timer_init :
      (report : List ℕ → Clock → Option Clock)
      → (inb : ℕ → ℕ) → ℕ
      → Interrupts (Option Clock)
      → Clock
      → Option (Bool × Interrupts (Option Clock) × Clock)
  timer_init report inb rflags x c = do
    let x' =
        enable (enable_irq inb irq0 (register_intr_handler irq0 timer_handler (init_pit 1000 x)))
    let flag = if bit_and rflags (1 <<< 9) == 0 then 0 else 1
    c' ← report (rflags ∷ flag ∷ []) c
    some (true, x', c')

-- The static variables of c_time.cpp.
pub record Tsc : Type 0 where
  pub tsc_freq : ℕ
  pub tsc_ok : ℕ

-- The busy wait: `counter i` is what the `i`-th read of HPET_MAIN_CNT gives.
pub wait : ℕ → (counter : ℕ → ℕ) → ℕ → ℕ → ℕ → Option ℕ
wait zero counter i start ticks = none
wait (suc fuel) counter i start ticks =
    let rest = wait fuel counter (i + 1) start ticks in
    if ltb (sub64 (counter i) start) ticks then rest else some i

-- `d` is what cpuid gives, `tsc0` and `tsc1` what the two calls of rdtsc give, `cap` is at HPET_GEN_CAP. A
-- period of 0 is a division by zero.
pub plat_time_init : ℕ → ℕ → ℕ → ℕ → ℕ → (counter : ℕ → ℕ) → Tsc → Option (ℤ × Tsc)
plat_time_init fuel d tsc0 tsc1 cap counter t =
    let period_fs = u32 (cap >>> 32) in
    let hpet_freq = 1000000000000000 / period_fs in
    let ticks = u64 (hpet_freq * 10) / 1000 in
    let freq = u64 (sub64 tsc1 tsc0 * 1000) / 10 in
    if bit_and d (1 <<< 8) == 0 then some (negsuc 21, t) else if period_fs == 0 then none else (do
      _ ← wait fuel counter 1 (counter 0) ticks
      some (pos 0, record { tsc_freq = freq; tsc_ok = 0 }))

-- `rdtsc` is what the one call of rdtsc gives.
abbrev pub plat_get_time_ns : ℕ → Tsc → ℕ
plat_get_time_ns rdtsc t = if t.tsc_ok == 0 then rdtsc else u64 (rdtsc * 1000000000) / t.tsc_freq
