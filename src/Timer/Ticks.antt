-- ===== src/Timer/Ticks.antt =====
-- The timer interrupt, from `TIMER::init` on.
use ckernel.Prelude.{
  ℕ, zero, suc, ◌+◌, ◌-◌, ◌/◌, ◌%◌, ◌^◌, ◌≤◌, ◌<◌, ◌≡◌, ◌≢◌, refl, ◌⊎◌, inl, inr, sym, ◌∙◌, ap, ap₂,
  bit_and, List, ◌∷◌, arith,
}
use ckernel.Prelude.{Option, some, if◌then◌else◌, ◌==◌, true, false, ◌>>=◌, []}
use ckernel.Word.{u64, ◌<<<◌}
use ckernel.Intr.{Interrupts, call_irq, eoi_ports, enable_irq, enable, register_intr_handler}
use ckernel.Mem.Fill.{filled}
use ckernel.Intr.Dispatch.{call-register, call_irq-enable_irq, call_irq-enable}
use ckernel.Io.{Io, Formatter, buf_size, info}
use ckernel.Io.Print.{IsBounded, info_ends}
use ckernel.Timer.{Clock, irq0, init_pit, timer_intr, timer_handler, timer_init}
use native.Mathlib.Decide.{ℕ_discrete}

-- The port writes of `n` ends of an interrupt.
unfoldable pub eois : ℕ → List (ℕ × ℕ) → List (ℕ × ℕ)
eois zero ports = ports
eois (suc n) ports = eois n (eoi_ports irq0 ports)

-- `n` interrupts on the line of the timer.
pub fire : ℕ → Interrupts (Option Clock) → Option Clock → Option Clock
fire zero x s = s
fire (suc n) x s = fire n x (call_irq x irq0 s).1

-- A handler that is registered for the timer, also behind the change of the mask, is what a call runs.
handled :
    {S : Type 0} (inb : ℕ → ℕ) (x : Interrupts S) (handler : ℕ → S → S) (s : S)
    → (call_irq (enable (enable_irq inb irq0 (register_intr_handler irq0 handler x))) irq0 s).1
      ≡ handler irq0 s
handled inb x handler s =
    ap (λ r. r.1)
      (call_irq-enable (enable_irq inb irq0 (register_intr_handler irq0 handler x)) irq0 s
        ∙ call_irq-enable_irq inb irq0 irq0 (register_intr_handler irq0 handler x) s
        ∙ (call-register x irq0 irq0 handler s (omega arith) (omega arith)).1)

module _ (vsnprintf : Formatter) (buf fuel second : ℕ) where
  -- `n` messages of the timer.
  pub messages : ℕ → Io → Option Io
  messages zero io = some io
  messages (suc n) io = do (_, io') ← info vsnprintf buf fuel second [] io; messages n io'

  module _ (bounded : IsBounded vsnprintf) (enough : buf_size ≤ fuel) where
    pub timer_intr_lem :
        (c : Clock)
        → c.g_ticks + 1 < 2 ^ 64
        → (c' : Clock) × (timer_intr vsnprintf buf fuel second c ≡ some c')
          × (c'.g_ticks ≡ c.g_ticks + 1)
          × (c'.ports ≡ eoi_ports irq0 c.ports)
          × ((((c.g_ticks + 1) % 1000 ≡ 0) × (messages 1 c.io ≡ some c'.io))
              ⊎ (((c.g_ticks + 1) % 1000 ≢ 0) × (c'.io ≡ c.io)))
    unfolding timer_intr messages
    timer_intr_lem c small =
        let next : u64 (c.g_ticks + 1) ≡ c.g_ticks + 1 = omega arith in
        let (ret, io', ran, mem) = info_ends vsnprintf buf bounded fuel second [] c.io enough in
        elim (ℕ_discrete ((c.g_ticks + 1) % 1000) 0) [
          | yes z ↦
              (let test : ((c.g_ticks + 1) % 1000 == 0) ≡ true = ground (arith, z) in
                (
                  record { g_ticks = c.g_ticks + 1; ports = eoi_ports irq0 c.ports; io = io' },
                  rw (next, test, ran) refl,
                  refl,
                  refl,
                  inl (z, rw ran refl),
                ))
          | no nz ↦
              (let test : ((c.g_ticks + 1) % 1000 == 0) ≡ false = ground (arith, nz) in
                (
                  record { g_ticks = c.g_ticks + 1; ports = eoi_ports irq0 c.ports; io = c.io },
                  rw (next, test) refl,
                  refl,
                  refl,
                  inr (nz, refl),
                ))
        ]

    -- A message of the timer clears the buffer.
    pub message-mem :
        (io io' : Io) → messages 1 io ≡ some io' → io'.mem ≡ filled io.mem buf 0 buf_size
    unfolding messages
    message-mem io io' e =
        let (ret, io'', ran, mem) = info_ends vsnprintf buf bounded fuel second [] io enough in
        let said : messages 1 io ≡ some io'' = rw ran refl in
        let same : io'' ≡ io' = cc (e, said) in ap (λ j. j.mem) (sym same) ∙ mem

    messages-next :
        (n : ℕ) (io io' : Io) → messages 1 io ≡ some io' → messages (suc n) io ≡ messages n io'
    unfolding messages
    messages-next n io io' e =
        let (ret, io'', ran, mem) = info_ends vsnprintf buf bounded fuel second [] io enough in
        ground (arith, ran, e)

    -- What `n` interrupts make of a state.
    abbrev pub Ticked : ℕ → Clock → Clock → Type 0
    Ticked n c c' =
        (c'.g_ticks ≡ c.g_ticks + n)
        × (c'.ports ≡ eois n c.ports)
        × (messages ((c.g_ticks + n) / 1000 - c.g_ticks / 1000) c.io ≡ some c'.io)

    -- The messages of one interrupt and of the `n` behind it.
    messages-due :
        (n : ℕ) (c c1 : Clock) (io' : Io)
        → c1.g_ticks ≡ c.g_ticks + 1
        → (((c.g_ticks + 1) % 1000 ≡ 0) × (messages 1 c.io ≡ some c1.io))
          ⊎ (((c.g_ticks + 1) % 1000 ≢ 0) × (c1.io ≡ c.io))
        → messages ((c1.g_ticks + n) / 1000 - c1.g_ticks / 1000) c1.io ≡ some io'
        → messages ((c.g_ticks + suc n) / 1000 - c.g_ticks / 1000) c.io ≡ some io'
    messages-due n c c1 io' tick (inl (z, one)) rest =
        let left = (c1.g_ticks + n) / 1000 - c1.g_ticks / 1000 in
        let count : (c.g_ticks + suc n) / 1000 - c.g_ticks / 1000 ≡ suc left =
          omega (arith, tick) in
        ap (λ k. messages k c.io) count ∙ messages-next left c.io c1.io one ∙ rest
    messages-due n c c1 io' tick (inr (nz, same)) rest =
        let count : (c.g_ticks + suc n) / 1000 - c.g_ticks / 1000
            ≡ (c1.g_ticks + n) / 1000 - c1.g_ticks / 1000 =
          (omega (arith, tick, nz)) in
        ap₂ messages count (sym same) ∙ rest

    pub fire_lem :
        (n : ℕ) (x : Interrupts (Option Clock)) (c : Clock)
        → ((s : Option Clock)
            → (call_irq x irq0 s).1 ≡ timer_handler vsnprintf buf fuel second irq0 s)
        → c.g_ticks + n < 2 ^ 64
        → (c' : Clock) × (fire n x (some c) ≡ some c') × Ticked n c c'
    unfolding fire messages eois
    fire_lem zero x c handled small =
        let none_due : (c.g_ticks + 0) / 1000 - c.g_ticks / 1000 ≡ 0 = omega arith in
        (c, refl, (omega arith, refl, rw none_due refl))
    fire_lem (suc n) x c handled small =
        let (c1, ran, tick, eoi, said) = timer_intr_lem c (omega arith) in
        let (c', rest, (ticks, ports, msgs)) = fire_lem n x c1 handled (omega arith) in
        (
          c',
          ap (fire n x) (handled (some c) ∙ ran) ∙ rest,
          (omega arith, ports ∙ ap (eois n) eoi, messages-due n c c1 c'.io tick said msgs),
        )

    -- The state behind `TIMER::init`.
    -- Whatever its message does, `TIMER::init` enables interrupts and registers its handler.
    pub timer_init_lem :
        (report : List ℕ → Clock → Option Clock) (inb : ℕ → ℕ) (rflags : ℕ)
        (x : Interrupts (Option Clock)) (c : Clock)
        → (va : List ℕ) × (x' : Interrupts (Option Clock)) × ((c' : Clock)
            → report va c ≡ some c'
            → timer_init vsnprintf buf fuel second report inb rflags x c ≡ some (true, x', c'))
          × ((s : Option Clock)
              → (call_irq x' irq0 s).1 ≡ timer_handler vsnprintf buf fuel second irq0 s)
          × (x'.interrupt_flag ≡ true)
    unfolding timer_init
    timer_init_lem report inb rflags x c =
        let flag = if bit_and rflags (1 <<< 9) == 0 then 0 else 1 in
        let handler = timer_handler vsnprintf buf fuel second in
        let y = init_pit 1000 x in
        (
          rflags ∷ flag ∷ [],
          enable (enable_irq inb irq0 (register_intr_handler irq0 handler y)),
          λ c' ran. rw ran refl,
          λ s. handled inb y handler s,
          refl,
        )
