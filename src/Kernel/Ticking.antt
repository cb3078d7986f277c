-- ===== src/Kernel/Ticking.antt =====
-- The kernel after src/kernel/kernel_main.cpp has halted: the timer goes on.
use ckernel.Prelude.{arith, ℕ, ◌+◌, ◌<◌, ◌^◌, ◌≤◌, ◌≡◌, some}
use ckernel.Io.{buf_size}
use ckernel.Io.Print.{IsBounded}
use ckernel.Pmm.{Machine}
use ckernel.Timer.{Clock}
use ckernel.Timer.Ticks.{fire, fire_lem, Ticked}
use ckernel.Kernel.{Kernel, Platform, Messages, clock_of}
use ckernel.Kernel.Bringup.{IsRunning}

-- In a running kernel, for a formatter that keeps to its bound and with at least as many rounds as the output
-- buffer has bytes, `n` interrupts of the timer, as long as the counter of 64 bits does not wrap, run into no
-- fault, count `n` ticks, send `n` ends of interrupt and print one message for each multiple of 1000 that
-- the counter passes.
pub fire-IsRunning :
    (p : Platform) (msg : Messages) (ticks : ℕ) (m : Machine) (k : Kernel) (n : ℕ)
    → (bounded : IsBounded p.vsnprintf) → (enough : buf_size ≤ p.fuel) → IsRunning p msg ticks m k
    → ticks + n < 2 ^ 64
    → (c : Clock) × (fire n k.interrupts (some (clock_of k)) ≡ some c)
      × (c.g_ticks ≡ ticks + n)
      × Ticked p.vsnprintf p.buf p.fuel msg.second bounded enough n (clock_of k) c
fire-IsRunning p msg ticks m k n bounded enough running small =
    let (c, ran, ticked) =
      fire_lem p.vsnprintf p.buf p.fuel msg.second bounded enough n k.interrupts (clock_of k)
        running.ticking.1 (omega (arith, running.g_ticks)) in
    (c, ran, omega (arith, ticked.0, running.g_ticks), ticked)
