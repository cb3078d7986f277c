-- ===== src/Timer/Lost.antt =====
-- A timer interrupt of src/platform/x86_64/src/timer.cpp that prints between the formatting and the output of a
-- message of src/libk/src/io.cpp.
use ckernel.Prelude.{
  ℕ, zero, suc, ◌+◌, ◌-◌, ◌/◌, ◌%◌, ◌^◌, ◌≤◌, ◌<◌, ◌≡◌, refl, sym, ◌∙◌, ap, ap₂, inl, inr, List,
  ◌∷◌,
}
use ckernel.Prelude.{some, ◌>>=◌, arith, fun_ext, ◌==◌, ==_iff, true}
use ckernel.Prelude.Int.{ℤ}
use ckernel.Mem.{Memory, bzero}
use ckernel.Mem.Fill.{filled, memset_lem}
use ckernel.Intr.{eoi_ports}
use ckernel.Tui.{Tui, put_char, write_bytes}
use ckernel.Io.{Io, Formatter, buf_size, set_color}
use ckernel.Io.Print.{IsBounded}
use ckernel.Io.Steps.{
  Point, counting, writing, returned, step, steps, steps-add, steps-writing, steps-more,
}
use ckernel.Timer.{irq0}
use ckernel.Timer.Ticks.{eois, messages, message-mem, timer_intr_lem}
use ckernel.Timer.Interleave.{Task, Turn, tick, owns, ticks, play, play-undisturbed}

-- The text is in the buffer and not yet written out completely; `left` bytes are to come, as far as it is
-- known.
pub data IsPending (buf : ℕ) : Point → ℕ → ℤ → ℕ → Type 0 where
  is_counting :
      {curr : ℕ} {i : ℤ} {len : ℕ} → len < buf_size → IsPending buf (counting curr i len) curr i len
  is_writing :
      {curr : ℕ} {i : ℤ} {left s : ℕ}
      → buf ≤ s
      → s + left ≤ buf + buf_size
      → IsPending buf (writing curr i left s) curr i left

-- `n` times the character 0.
pub nuls : ℕ → Tui → Tui
nuls zero t = t
nuls (suc n) t = nuls n (put_char 0 t)

write_bytes-nuls :
    (n : ℕ) (m : Memory) (s : ℕ) (t : Tui)
    → ((q : ℕ) → s ≤ q → q < s + n → m q ≡ 0)
    → write_bytes n m s t ≡ nuls n t
unfolding nuls write_bytes
write_bytes-nuls zero m s t z = refl
write_bytes-nuls (suc n) m s t z =
    let here : m s ≡ 0 = z s (omega arith) (omega arith) in
    write_bytes-nuls n m (s + 1) (put_char (m s) t) (λ q a b. z q (omega arith) (omega arith))
    ∙ ap (λ c. nuls n (put_char c t)) here

-- A buffer that was filled is full of zeros.
filled-again :
    (buf : ℕ) (m m' : Memory) → m' ≡ filled m buf 0 buf_size → m' ≡ filled m' buf 0 buf_size
filled-again buf m m' e =
    let twice : filled m buf 0 buf_size ≡ filled (filled m buf 0 buf_size) buf 0 buf_size =
      fun_ext (λ q. ground arith) in
    e ∙ twice ∙ ap (λ n. filled n buf 0 buf_size) (sym e)

module _ (vsnprintf : Formatter) (buf color fmt : ℕ) (va : List ℕ) where
  -- What is left of a message when the buffer is full of zeros.
  finish :
      (left curr : ℕ) (i : ℤ) (s : ℕ) (io : Io)
      → io.mem ≡ filled io.mem buf 0 buf_size
      → buf ≤ s
      → s + left ≤ buf + buf_size
      → steps vsnprintf buf color fmt va (suc left + 2) (writing curr i left s) io
        ≡ (returned i, set_color curr (record io { screen = nuls left io.screen }))
  unfolding steps step
  finish left curr i s io clear low high =
      let zeros =
        write_bytes-nuls left io.mem s io.screen (λ q a b. ap (λ m. m q) clear ∙ ground arith) in
      let same : bzero io.mem buf buf_size ≡ io.mem =
        (memset_lem io.mem buf 0 buf_size).1 ∙ sym clear in
      steps-add vsnprintf buf color fmt va (suc left) 2 (writing curr i left s) io
      ∙ ap (λ r. steps vsnprintf buf color fmt va 2 r.0 r.1)
          (steps-writing vsnprintf buf color fmt va left curr i s io)
      ∙ ap₂ (λ m t. (returned i, set_color curr (record { mem = m; screen = t }))) same zeros

  pending-finish :
      (p : Point) (curr : ℕ) (i : ℤ) (left k : ℕ) (io : Io)
      → IsPending buf p curr i left
      → io.mem ≡ filled io.mem buf 0 buf_size
      → left + 4 ≤ k
      → steps vsnprintf buf color fmt va k p io
        ≡ (returned i, set_color curr (record io { screen = nuls left io.screen }))
  unfolding steps step
  pending-finish p curr i left k io (is_writing {s} low high) clear enough =
      steps-more vsnprintf buf color fmt va (suc left + 2) k p i io
        (set_color curr (record io { screen = nuls left io.screen }))
        (finish left curr i s io clear low high) (omega arith)
  pending-finish p curr i left k io (is_counting short) clear enough =
      let again : k ≡ suc (k - 1) = omega arith in
      let stop : io.mem (buf + left) ≡ 0 = ap (λ m. m (buf + left)) clear ∙ ground arith in
      let test : (io.mem (buf + left) == 0) ≡ true = (==_iff _ 0).1 stop in
      let one : step vsnprintf buf color fmt va (counting curr i left) io
          ≡ (writing curr i left buf, io) =
        (rw test refl) in
      ap (λ j. steps vsnprintf buf color fmt va j (counting curr i left) io) again
      ∙ ap (λ r. steps vsnprintf buf color fmt va (k - 1) r.0 r.1) one
      ∙ steps-more vsnprintf buf color fmt va (suc left + 2) (k - 1) (writing curr i left buf) i io
          (set_color curr (record io { screen = nuls left io.screen }))
          (finish left curr i buf io clear (omega arith) (omega arith)) (omega arith)

-- A point with the whole state, and the one that the rest of a message leads to.
abbrev stopped : ℕ → List (ℕ × ℕ) → Point × Io → Task
stopped g ports r = record { point = r.0; clock = record { g_ticks = g; ports = ports; io = r.1 } }

abbrev final : ℕ → ℤ → ℕ → Io → Point × Io
final curr i left io = (returned i, set_color curr (record io { screen = nuls left io.screen }))

module _ (vsnprintf : Formatter) (buf fuel second color fmt : ℕ) (va : List ℕ) where
  module _ (bounded : IsBounded vsnprintf) (enough : buf_size ≤ fuel) where
    -- For a formatter that keeps to its bound, and with at least as many rounds for the output as the
    -- buffer has bytes: when a message is formatted and has `left` bytes counted or to write, and an
    -- interrupt of the timer comes at a multiple of 1000 ticks, the interrupt prints its own
    -- message; of the other one `left` characters 0 are written in place of its text, and it
    -- returns what `_vsnprintf` returned. Later interrupts are not at a multiple of 1000, the counter
    -- does not wrap, and the message has at least `left + 4` steps.
    pub lost_lem :
        (turns : List Turn) (t : Task) (curr : ℕ) (i : ℤ) (left : ℕ)
        → IsPending buf t.point curr i left
        → (t.clock.g_ticks + 1) % 1000 ≡ 0
        → t.clock.g_ticks + 1 + ticks turns < 2 ^ 64
        → (t.clock.g_ticks + 1 + ticks turns) / 1000 ≡ (t.clock.g_ticks + 1) / 1000
        → left + 4 ≤ owns turns
        → (io1 : Io) × (messages vsnprintf buf fuel second 1 t.clock.io ≡ some io1)
          × (play vsnprintf buf fuel second color fmt va (tick ∷ turns) t
              ≡ some record {
                point = returned i;
                clock = record {
                  g_ticks = t.clock.g_ticks + 1 + ticks turns;
                  ports = eois (ticks turns) (eoi_ports irq0 t.clock.ports);
                  io = set_color curr (record io1 { screen = nuls left io1.screen });
                };
              })
    unfolding play
    lost_lem turns t curr i left pending due small quiet all =
        let (c, ran, one, eoi, said) =
          timer_intr_lem vsnprintf buf fuel second bounded enough t.clock (omega arith) in
        elim said [
          | inr (nz, _) ↦ absurd (nz due)
          | inl (_, printed) ↦
              (let n = ticks turns in
                let k = owns turns in
                let clear =
                  filled-again buf t.clock.io.mem c.io.mem (
                    message-mem vsnprintf buf fuel second bounded enough t.clock.io c.io printed) in
                let after : Task = record t { clock = c } in
                let played =
                  play-undisturbed vsnprintf buf fuel second color fmt va bounded enough turns after
                    (omega (arith, one)) (omega (arith, one, quiet)) in
                let done =
                  pending-finish vsnprintf buf color fmt va t.point curr i left k c.io pending clear
                    all in
                (
                  c.io,
                  printed,
                  ap
                        (λ o. o >>= (λ c'.
                          play vsnprintf buf fuel second color fmt va turns
                            (record t { clock = c' })))
                        ran
                      ∙ played
                      ∙ ap (λ r. some (stopped (c.g_ticks + n) (eois n c.ports) r)) done
                      ∙ ap (λ g. some (stopped (g + n) (eois n c.ports) (final curr i left c.io)))
                          one
                      ∙ ap
                          (λ q.
                            some (
                              stopped (t.clock.g_ticks + 1 + n) (eois n q)
                                (final curr i left c.io)))
                          eoi,
                ))
        ]
