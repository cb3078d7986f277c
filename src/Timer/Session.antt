-- ===== src/Timer/Session.antt =====
-- A sequence of messages of src/libk/src/io.cpp, each with the interrupts of src/platform/x86_64/src/timer.cpp that
-- come before its end, as behind `TIMER::init`.
use ckernel.Prelude.{
  ℕ, zero, suc, ◌+◌, ◌*◌, ◌/◌, ◌^◌, ◌≤◌, ◌<◌, ◌≡◌, refl, sym, ◌∙◌, ap, List, [], ◌∷◌, All,
}
use ckernel.Prelude.{Option, some, none, ◌>>=◌, arith}
use ckernel.Io.{Io, Formatter, buf_size, print_in}
use ckernel.Io.Print.{IsBounded}
use ckernel.Io.Steps.{Point, returned}
use ckernel.Intr.{eoi_ports}
use ckernel.Timer.{Clock, irq0}
use ckernel.Timer.Ticks.{eois}
use ckernel.Timer.Interleave.{Turn, owns, ticks, begun, play, play-print_in}

-- A message, and the turns until the next one begins.
pub record Message : Type 0 where
  pub color : ℕ
  pub fmt : ℕ
  pub va : List ℕ
  pub turns : List Turn

-- The state with which a message has returned.
abbrev pub returned_with : Point → Clock → Option Clock
returned_with (returned i) c = some c
returned_with p c = none

unfoldable pub total : List Message → ℕ
total [] = 0
total (m ∷ ms) = ticks m.turns + total ms

pub eois-add : (n k : ℕ) (ports : List (ℕ × ℕ)) → eois (n + k) ports ≡ eois k (eois n ports)
unfolding eois
eois-add zero k ports = let same : 0 + k ≡ k = omega arith in ap (λ j. eois j ports) same
eois-add (suc n) k ports =
    let swap : suc n + k ≡ suc (n + k) = omega arith in
    ap (λ j. eois j ports) swap ∙ eois-add n k (eoi_ports irq0 ports)

module _ (vsnprintf : Formatter) (buf fuel second : ℕ) where
  -- The messages with the interrupts, and without.
  pub session : List Message → Clock → Option Clock
  session [] c = some c
  session (m ∷ ms) c = do
    t ← play vsnprintf buf fuel second m.color m.fmt m.va m.turns (begun c)
    c' ← returned_with t.point t.clock
    session ms c'

  pub reports : List Message → Io → Option Io
  reports [] io = some io
  reports (m ∷ ms) io = do
    (_, io') ← print_in vsnprintf buf m.color fuel m.fmt m.va io
    reports ms io'

  -- All steps of the message are among its turns.
  abbrev pub IsWhole : Message → Type 0
  IsWhole m = 2 * buf_size + 5 ≤ owns m.turns

  module _ (bounded : IsBounded vsnprintf) (enough : buf_size ≤ fuel) where
    -- For a formatter that keeps to its bound, and with at least as many rounds for the output as the
    -- buffer has bytes: when each of a sequence of messages has at least 1029 steps, and the
    -- interrupts of the timer come anywhere between the steps, if the counter does not wrap
    -- and passes no multiple of 1000, every message returns, the memory and the screen are those of
    -- the same messages without interrupts, and every interrupt is counted and ended.
    pub session-reports :
        (ms : List Message) (c : Clock)
        → All IsWhole ms
        → c.g_ticks + total ms < 2 ^ 64
        → (c.g_ticks + total ms) / 1000 ≡ c.g_ticks / 1000
        → (io' : Io) × (reports ms c.io ≡ some io')
          × (session ms c
              ≡ some record {
                g_ticks = c.g_ticks + total ms;
                ports = eois (total ms) c.ports;
                io = io';
              })
    unfolding session reports total eois
    session-reports [] c whole small quiet =
        let same : c.g_ticks ≡ c.g_ticks + 0 = omega arith in
        (c.io, refl, ap (λ g. some (record c { g_ticks = g })) same)
    session-reports (m ∷ ms) c whole small quiet =
        let n = ticks m.turns in
        let (i, io1, printed, played) =
          play-print_in vsnprintf buf fuel second m.color m.fmt m.va bounded enough m.turns c
            whole.0 (omega arith) (omega arith) in
        let c1 : Clock = record { g_ticks = c.g_ticks + n; ports = eois n c.ports; io = io1 } in
        let (io2, reported, ran) = session-reports ms c1 whole.1 (omega arith) (omega arith) in
        let count : c.g_ticks + n + total ms ≡ c.g_ticks + (n + total ms) = omega arith in
        (
          io2,
          rw printed reported,
          rw played (
              ran
              ∙ ap
                  (λ g.
                    some
                      (record { g_ticks = g; ports = eois (total ms) (eois n c.ports); io = io2 }))
                  count
              ∙ ap
                  (λ p. some (record { g_ticks = c.g_ticks + (n + total ms); ports = p; io = io2 }))
                  (sym (eois-add n (total ms) c.ports))),
        )
