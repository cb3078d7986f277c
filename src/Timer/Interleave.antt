-- ===== src/Timer/Interleave.antt =====
-- A message of src/libk/src/io.cpp that the timer interrupt of src/platform/x86_64/src/timer.cpp comes between:
-- `TIMER::init` enables interrupts before its own message, and every later message runs with them enabled.
use ckernel.Prelude.{ℕ, suc, ◌+◌, ◌*◌, ◌/◌, ◌^◌, ◌≤◌, ◌<◌, ◌≡◌, ◌∙◌, ap, inl, inr, List, [], ◌∷◌}
use ckernel.Prelude.{Option, some, ◌>>=◌, arith}
use ckernel.Prelude.Int.{ℤ}
use ckernel.Intr.{eoi_ports}
use ckernel.Io.{Io, Formatter, buf_size, print_in}
use ckernel.Io.Print.{IsBounded}
use ckernel.Io.Steps.{Point, start, returned, step, steps, steps-more, steps-print_in}
use ckernel.Timer.{Clock, irq0, timer_intr}
use ckernel.Timer.Ticks.{eois, timer_intr_lem}

-- A message with the state that it shares with the interrupts.
pub record Task : Type 0 where
  pub point : Point
  pub clock : Clock

-- Who goes on: the message with its next step, or the timer with a whole interrupt.
pub data Turn : Type 0 where
  own : Turn
  tick : Turn

-- How often either has its turn.
unfoldable pub owns : List Turn → ℕ
owns [] = 0
owns (own ∷ turns) = suc (owns turns)
owns (tick ∷ turns) = owns turns

unfoldable pub ticks : List Turn → ℕ
ticks [] = 0
ticks (own ∷ turns) = ticks turns
ticks (tick ∷ turns) = suc (ticks turns)

-- A message begins on the state `c`.
abbrev pub begun : Clock → Task
begun c = record { point = start; clock = c }

module _ (vsnprintf : Formatter) (buf fuel second color fmt : ℕ) (va : List ℕ) where
  abbrev pub advance : Task → Task
  advance t =
      let (p, io) = step vsnprintf buf color fmt va t.point t.clock.io in
      record { point = p; clock = record (t.clock) { io = io } }

  unfoldable pub play : List Turn → Task → Option Task
  play [] t = some t
  play (own ∷ turns) t = play turns (advance t)
  play (tick ∷ turns) t = do
    c ← timer_intr vsnprintf buf fuel second t.clock
    play turns (record t { clock = c })

  -- The state behind `k` steps of the message and `n` interrupts that print nothing.
  abbrev pub undisturbed : ℕ → ℕ → Task → Task
  undisturbed k n t =
      let (p, io) = steps vsnprintf buf color fmt va k t.point t.clock.io in
      record {
        point = p;
        clock = record { g_ticks = t.clock.g_ticks + n; ports = eois n t.clock.ports; io = io };
      }

  -- The same, with the parts of the state one by one.
  abbrev settled : ℕ → ℕ → Point → ℕ → List (ℕ × ℕ) → Io → Task
  settled k n p g ports io =
      undisturbed k n (record { point = p; clock = record { g_ticks = g; ports = ports; io = io } })

  module _ (bounded : IsBounded vsnprintf) (enough : buf_size ≤ fuel) where
    pub play-undisturbed :
        (turns : List Turn) (t : Task)
        → t.clock.g_ticks + ticks turns < 2 ^ 64
        → (t.clock.g_ticks + ticks turns) / 1000 ≡ t.clock.g_ticks / 1000
        → play turns t ≡ some (undisturbed (owns turns) (ticks turns) t)
    unfolding play owns ticks steps eois
    play-undisturbed [] t small quiet =
        let same : t.clock.g_ticks ≡ t.clock.g_ticks + 0 = omega arith in
        ap (λ g. some (record { point = t.point; clock = record (t.clock) { g_ticks = g } })) same
    play-undisturbed (own ∷ turns) t small quiet = play-undisturbed turns (advance t) small quiet
    play-undisturbed (tick ∷ turns) t small quiet =
        let (c, ran, one, eoi, said) =
          timer_intr_lem vsnprintf buf fuel second bounded enough t.clock (omega arith) in
        elim said [
          | inl (due, _) ↦ absurd (omega arith)
          | inr (_, same) ↦
              let rest =
                play-undisturbed turns (record t { clock = c }) (omega arith) (omega arith) in
              (let k = owns turns in
                let n = ticks turns in
                let count : c.g_ticks + n ≡ t.clock.g_ticks + suc n = omega arith in
                ap (λ o. o >>= (λ c'. play turns (record t { clock = c' }))) ran
                ∙ rest
                ∙ ap (λ p. some (settled k n t.point c.g_ticks p c.io)) eoi
                ∙ ap (λ io. some (settled k n t.point c.g_ticks (eoi_ports irq0 t.clock.ports) io))
                    same
                ∙ ap
                    (λ g. some record {
                      point = (undisturbed k (suc n) t).point;
                      clock = record ((undisturbed k (suc n) t).clock) { g_ticks = g };
                    })
                    count)
        ]

    -- A message that no interrupt with a message of its own comes between gives what `print_in` gives.
    pub play-print_in :
        (turns : List Turn) (c : Clock)
        → 2 * buf_size + 5 ≤ owns turns
        → c.g_ticks + ticks turns < 2 ^ 64
        → (c.g_ticks + ticks turns) / 1000 ≡ c.g_ticks / 1000
        → (i : ℤ) × (io' : Io) × (print_in vsnprintf buf color fuel fmt va c.io ≡ some (i, io'))
          × (play turns (begun c)
              ≡ some record {
                point = returned i;
                clock = record {
                  g_ticks = c.g_ticks + ticks turns;
                  ports = eois (ticks turns) c.ports;
                  io = io';
                };
              })
    play-print_in turns c all small quiet =
        let (k, i, io', short, ran, printed) =
          steps-print_in vsnprintf buf color fmt va fuel c.io bounded enough in
        let ends =
          steps-more vsnprintf buf color fmt va k (owns turns) start i c.io io' ran
            (omega (arith, short)) in
        (
          i,
          io',
          printed,
          play-undisturbed turns (begun c) small quiet
              ∙ ap
                  (λ r. some (record {
                    point = r.0;
                    clock = record {
                      g_ticks = c.g_ticks + ticks turns;
                      ports = eois (ticks turns) c.ports;
                      io = r.1;
                    };
                  }))
                  ends,
        )
