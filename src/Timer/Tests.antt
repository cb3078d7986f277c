-- ===== src/Timer/Tests.antt =====
-- Runs of the timer and of the calibration.
use ckernel.Prelude.{ℕ, ◌+◌, ◌*◌, ◌≡◌, [], some, arith, bit_and}
use ckernel.Prelude.Int.{pos, negsuc}
use ckernel.Io.Sample.{one_a, one_a-IsBounded, io}
use ckernel.Timer.{Clock, Tsc, plat_time_init}
use ckernel.Prelude.{zero, suc, ◌≤◌, List, ◌∷◌}
use ckernel.Prelude.Int.{ℤ}
use ckernel.Mem.{store}
use ckernel.Mem.Fill.{filled}
use ckernel.Intr.{eoi_ports}
use ckernel.Io.{Io, buf_size, set_color}
use ckernel.Io.Sample.{empty}
use ckernel.Io.Steps.{counting, returned}
use ckernel.Timer.{irq0}
use ckernel.Timer.Ticks.{eois, messages}
use ckernel.Timer.Interleave.{Task, Turn, own, tick, owns, ticks, play, begun}
use ckernel.Io.Safe.{IsSafe}
use Prim.{tt}
use ckernel.Timer.Session.{Message, total, session, reports, session-reports}
use ckernel.Timer.Shared.{play_lem}
use ckernel.Timer.Lost.{nuls, is_counting, lost_lem}
use ckernel.Prelude.{◌≢◌, ◌⊎◌}
use ckernel.Timer.Calibration.{IsCalibrated, plat_time_init_lem}

abbrev clock : Clock
clock = record { g_ticks = 998; ports = []; io = io }

-- `n` steps of the message, and then the turns.
abbrev first : ℕ → List Turn → List Turn
first zero turns = turns
first (suc n) turns = own ∷ first n turns

-- The message of `TIMER::init` and the next one, with two interrupts in the first and one between the two.
abbrev two_messages : List Message
two_messages =
    record {
      color = 3;
      fmt = 100;
      va = 0x202 ∷ 1 ∷ [];
      turns = own ∷ own ∷ tick ∷ own ∷ own ∷ tick ∷ first 1026 [];
    }
    ∷ record { color = 3; fmt = 104; va = []; turns = tick ∷ first 1029 [] }
    ∷ []

session-reports_example :
    (io' : Io) × (reports one_a 4096 512 200 two_messages io ≡ some io')
    × (session one_a 4096 512 200 two_messages (record { g_ticks = 0; ports = []; io = io })
        ≡ some (record { g_ticks = 3; ports = eois 3 []; io = io' }))
unfolding owns ticks total
session-reports_example =
    session-reports one_a 4096 512 200 one_a-IsBounded (omega arith) two_messages
      (record { g_ticks = 0; ports = []; io = io }) (omega arith, (omega arith, tt)) (omega arith)
      (omega arith)

play_lem_example :
    (t : Task) × (play one_a 4096 512 200 3 100 []
        (own ∷ own ∷ tick ∷ own ∷ tick ∷ first 1026 [])
        (begun clock)
      ≡ some t)
    × IsSafe 4096 empty t.clock.io.mem t.point
    × (t.clock.g_ticks ≡ 1000)
    × (t.clock.ports ≡ eois 2 [])
    × (2 * buf_size + 5 ≤ 1029
        → (i : ℤ) × (t.point ≡ returned i) × (t.clock.io.mem ≡ filled empty 4096 0 buf_size))
unfolding owns ticks
play_lem_example =
    play_lem one_a 4096 512 200 one_a-IsBounded (omega arith) 3 100 []
      (own ∷ own ∷ tick ∷ own ∷ tick ∷ first 1026 []) clock (omega arith)

-- The message has counted its one byte, and the next tick is the 1000th.
abbrev counted : Task
counted = record {
  point = counting 15 (pos 1) 1;
  clock = record { g_ticks = 999; ports = []; io = record io { mem = store empty 4096 65 } };
}

lost_lem_example :
    (io1 : Io) × (messages one_a 4096 512 200 1 counted.clock.io ≡ some io1)
    × (play one_a 4096 512 200 3 100 [] (tick ∷ own ∷ own ∷ tick ∷ own ∷ own ∷ own ∷ []) counted
        ≡ some record {
          point = returned (pos 1);
          clock = record {
            g_ticks = 1001;
            ports = eois 1 (eoi_ports irq0 []);
            io = set_color 15 (record io1 { screen = nuls 1 io1.screen });
          };
        })
unfolding owns ticks
lost_lem_example =
    lost_lem one_a 4096 512 200 3 100 [] one_a-IsBounded (omega arith)
      (own ∷ own ∷ tick ∷ own ∷ own ∷ own ∷ []) counted 15 (pos 1) 1 (is_counting (omega arith))
      (omega arith) (omega arith) (omega arith) (omega arith)

-- A period of 100 ns, and a counter that is read once in each.
abbrev cap : ℕ
cap = 0x5F5_E100_0000_0000

plat_time_init_lem_example :
    ((bit_and 256 256 ≡ 0)
      × (plat_time_init 100_001 256 5 30_000_005 cap (λ i. i) (record { tsc_freq = 0; tsc_ok = 0 })
          ≡ some (negsuc 21, record { tsc_freq = 0; tsc_ok = 0 })))
    ⊎ ((bit_and 256 256 ≢ 0)
        × (t' : Tsc) × (plat_time_init 100_001 256 5 30_000_005 cap
              (λ i. i)
              (record { tsc_freq = 0; tsc_ok = 0 })
            ≡ some (pos 0, t'))
        × IsCalibrated 100_001 5 30_000_005 cap (λ i. i) t')
plat_time_init_lem_example =
    plat_time_init_lem 100_001 256 5 30_000_005 cap (λ i. i) (record { tsc_freq = 0; tsc_ok = 0 })
      (λ invariant. record {
        period = omega arith;
        running = record { rising = λ i below. omega arith; bounded = omega arith };
        enough = omega arith;
      })
