-- ===== src/Timer/Shared.antt =====
-- Any order of the steps of a message and the timer interrupts: the buffer that info, warn and err of
-- src/libk/src/io.cpp share with `timer_intr` of src/platform/x86_64/src/timer.cpp.
use ckernel.Prelude.{
  ℕ, ◌+◌, ◌-◌, ◌*◌, ◌^◌, ◌≤◌, ◌<◌, ◌≡◌, refl, sym, ◌∙◌, ap, ◌⊎◌, inl, inr, List, [], ◌∷◌,
}
use ckernel.Prelude.{some, ◌>>=◌, arith}
use ckernel.Prelude.Int.{ℤ}
use ckernel.Mem.{Memory}
use ckernel.Mem.Fill.{filled}
use ckernel.Io.{Io, Formatter, buf_size}
use ckernel.Io.Print.{IsBounded}
use ckernel.Io.Steps.{Point, returned}
use ckernel.Timer.{Clock}
use ckernel.Timer.Ticks.{eois, messages, message-mem, timer_intr_lem}
use ckernel.Timer.Interleave.{Task, Turn, own, tick, owns, ticks, advance, play, begun}
use ckernel.Io.Safe.{IsSafe, filled-IsSafe, step-IsSafe, ended, begun-IsSafe, rank}
use mathlib.Core.Path.{subst}

module _ (vsnprintf : Formatter) (buf fuel second : ℕ) where
  module _ (bounded : IsBounded vsnprintf) (enough : buf_size ≤ fuel) where
    -- The timer comes between at any point.
    tick-IsSafe :
        (m0 : Memory) (p : Point) (io io' : Io) {P Q : Type 0}
        → (P × (messages vsnprintf buf fuel second 1 io ≡ some io')) ⊎ (Q × (io' ≡ io))
        → IsSafe buf m0 io.mem p
        → IsSafe buf m0 io'.mem p
    tick-IsSafe m0 p io io' (inl (due, said)) h =
        subst (λ m. IsSafe buf m0 m p)
          (sym (message-mem vsnprintf buf fuel second bounded enough io io' said))
          (filled-IsSafe buf m0 io.mem p h)
    tick-IsSafe m0 p io io' (inr (_, same)) h = subst (λ j. IsSafe buf m0 j.mem p) (sym same) h

    module _ (color fmt : ℕ) (va : List ℕ) where
      play-IsSafe :
          (m0 : Memory) (turns : List Turn) (t : Task)
          → t.clock.g_ticks + ticks turns < 2 ^ 64
          → IsSafe buf m0 t.clock.io.mem t.point
          → (t' : Task) × (play vsnprintf buf fuel second color fmt va turns t ≡ some t')
            × IsSafe buf m0 t'.clock.io.mem t'.point
            × (rank t'.point ≤ rank t.point - owns turns)
            × (t'.clock.g_ticks ≡ t.clock.g_ticks + ticks turns)
            × (t'.clock.ports ≡ eois (ticks turns) t.clock.ports)
      unfolding play owns ticks eois
      play-IsSafe m0 [] t small h = (t, refl, h, omega arith, omega arith, refl)
      play-IsSafe m0 (own ∷ turns) t small h =
          let (kept, nearer) =
            step-IsSafe buf vsnprintf color fmt va bounded m0 t.point t.clock.io h in
          let (t', ran, safe, left, counted, ports) =
            play-IsSafe m0 turns (advance vsnprintf buf fuel second color fmt va t) small kept in
          (t', ran, safe, omega (arith, nearer, left), counted, ports)
      play-IsSafe m0 (tick ∷ turns) t small h =
          let (c, ran, one, eoi, said) =
            timer_intr_lem vsnprintf buf fuel second bounded enough t.clock (omega arith) in
          let kept = tick-IsSafe m0 t.point t.clock.io c.io said h in
          let (t', played, safe, left, counted, ports) =
            play-IsSafe m0 turns (record t { clock = c }) (omega arith) kept in
          (
            t',
            ap
                  (λ o. o >>= (λ c'.
                    play vsnprintf buf fuel second color fmt va turns (record t { clock = c' })))
                  ran
                ∙ played,
            safe,
            left,
            omega arith,
            ports ∙ ap (eois (ticks turns)) eoi,
          )

      -- For a formatter that keeps to its bound, with at least as many rounds for the output as the buffer
      -- has bytes, and as long as the counter of 64 bits does not wrap: in whatever order the steps of a
      -- message and the interrupts of the timer come, nothing gets stuck, every interrupt is counted and
      -- ended, the message reads only bytes of the buffer, and no byte outside the buffer changes. After
      -- at most 1029 steps of its own the message has returned, and the buffer is full of zeros.
      pub play_lem :
          (turns : List Turn) (c : Clock)
          → c.g_ticks + ticks turns < 2 ^ 64
          → (t : Task) × (play vsnprintf buf fuel second color fmt va turns (begun c) ≡ some t)
            × IsSafe buf c.io.mem t.clock.io.mem t.point
            × (t.clock.g_ticks ≡ c.g_ticks + ticks turns)
            × (t.clock.ports ≡ eois (ticks turns) c.ports)
            × (2 * buf_size + 5 ≤ owns turns
                → (i : ℤ) × (t.point ≡ returned i)
                  × (t.clock.io.mem ≡ filled c.io.mem buf 0 buf_size))
      unfolding rank
      play_lem turns c small =
          let (t, ran, safe, left, counted, ports) =
            play-IsSafe c.io.mem turns (begun c) small (begun-IsSafe buf c.io.mem) in
          (
            t,
            ran,
            safe,
            counted,
            ports,
            λ all. ended buf c.io.mem t.clock.io.mem t.point safe (omega arith),
          )
