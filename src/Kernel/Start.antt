-- ===== src/Kernel/Start.antt =====
-- The start of the kernel: what each stage leaves behind, and where it stops.
use ckernel.Prelude.{
  ℕ, ◌≤◌, ◌<◌, ◌≡◌, refl, ◌∙◌, ap, fun_ext, List, [], length, Option, some, arith, true, false, sym,
  ◌+◌, ◌*◌, ◌^◌,
}
use ckernel.Mem.{Memory}
use ckernel.Mem.Fill.{filled}
use ckernel.Multiboot2.{BootInfo, init as boot_info_init}
use ckernel.Pmm.{Machine, init as pmm_init}
use ckernel.Vga.{vga_init, print}
use ckernel.Vga.Format.{Piece, format, Holds, IsReady, Prints}
use ckernel.Vga.Printf.{vga_printf_lem}
use ckernel.Intr.{Interrupts, init as intr_init, call_irq}
use mathlib.Core.Path.{subst}
use ckernel.Io.{buf_size, cyan}
use ckernel.Io.Print.{IsBounded, info_ends}
use ckernel.Timer.{Clock, timer_handler, irq0}
use ckernel.Timer.Ticks.{eois, timer_init_lem}
use ckernel.Timer.Interleave.{Turn, owns, ticks}
use ckernel.Timer.Session.{returned_with, eois-add}
use ckernel.Timer.Shared.{play_lem}
use ckernel.Kernel.{
  default_handler, Kernel, Platform, Messages, Outcome, halted, returned, io_of, set_io, say,
  clock_of, set_clock, info_ticking, say_ticking, vga_fail, start_timer, test_timer,
  test_interrupts, test_pmm, test,
}

-- The output buffer of the text output is full of zeros, the other memory and the parts are as before.
record IsSaid (buf : ℕ) (k k' : Kernel) : Type 0 where
  pub memory : k'.memory ≡ filled k.memory buf 0 buf_size
  pub boot_info : k'.boot_info ≡ k.boot_info
  pub pmm : k'.pmm ≡ k.pmm
  pub g_ticks : k'.g_ticks ≡ k.g_ticks
  pub ports : k'.ports ≡ k.ports

filled-twice : (m : Memory) (buf n : ℕ) → filled (filled m buf 0 n) buf 0 n ≡ filled m buf 0 n
filled-twice m buf n = fun_ext (λ q. ground arith)

-- The same but for `n` interrupts of the timer, which are counted and ended.
pub record IsCounted (buf n : ℕ) (k k' : Kernel) : Type 0 where
  pub memory : k'.memory ≡ filled k.memory buf 0 buf_size
  pub boot_info : k'.boot_info ≡ k.boot_info
  pub pmm : k'.pmm ≡ k.pmm
  pub g_ticks : k'.g_ticks ≡ k.g_ticks + n
  pub ports : k'.ports ≡ eois n k.ports

IsSaid-IsCounted :
    {buf n : ℕ} {a b c : Kernel} → IsSaid buf a b → IsCounted buf n b c → IsCounted buf n a c
IsSaid-IsCounted {buf} {n} {a} first then' = record {
  memory =
      then'.memory
      ∙ ap (λ m. filled m buf 0 buf_size) first.memory
      ∙ filled-twice a.memory buf buf_size;
  boot_info = then'.boot_info ∙ first.boot_info;
  pmm = then'.pmm ∙ first.pmm;
  g_ticks = then'.g_ticks ∙ ap (λ t. t + n) first.g_ticks;
  ports = then'.ports ∙ ap (eois n) first.ports;
}

IsCounted-trans :
    {buf n n' : ℕ} {a b c : Kernel}
    → IsCounted buf n a b
    → IsCounted buf n' b c
    → IsCounted buf (n + n') a c
IsCounted-trans {buf} {n} {n'} {a} {b} {c} first then' = record {
  memory =
      then'.memory
      ∙ ap (λ m. filled m buf 0 buf_size) first.memory
      ∙ filled-twice a.memory buf buf_size;
  boot_info = then'.boot_info ∙ first.boot_info;
  pmm = then'.pmm ∙ first.pmm;
  g_ticks = omega (arith, first.g_ticks, then'.g_ticks);
  ports = then'.ports ∙ ap (eois n') first.ports ∙ sym (eois-add n n' a.ports);
}

-- The interrupts of the timer up to the halt.
abbrev pub early_ticks : Platform → ℕ
early_ticks p = ticks p.init_turns + ticks p.done_turns

-- All steps of the two messages that run with interrupts enabled are among their turns, and the counter of 64 bits,
-- which is at `g`, does not wrap.
pub record IsPaced (p : Platform) (g : ℕ) : Type 0 where
  pub init_whole : 2 * buf_size + 5 ≤ owns p.init_turns
  pub done_whole : 2 * buf_size + 5 ≤ owns p.done_turns
  pub small : g + early_ticks p < 2 ^ 64

-- Interrupts are enabled, and the timer's handler is run for its interrupt.
abbrev pub IsTicking : Platform → Messages → Kernel → Type 0
IsTicking p msg k =
    (k.interrupts.interrupt_flag ≡ true)
    × ((s : Option Clock)
        → (call_irq k.interrupts irq0 s).1
          ≡ timer_handler p.vsnprintf p.buf p.fuel msg.second irq0 s)

module _ (p : Platform) (msg : Messages) (bounded : IsBounded p.vsnprintf)
    (enough : buf_size ≤ p.fuel) where
  say_lem :
      (text : ℕ) (k : Kernel)
      → (k' : Kernel) × (say p msg text k ≡ some k')
        × IsSaid p.buf k k'
        × (k'.interrupts ≡ k.interrupts)
  unfolding say
  say_lem text k =
      let (ret, io', ran, mem) =
        info_ends p.vsnprintf p.buf bounded p.fuel text [] (io_of k) enough in
      (
        set_io io' k,
        rw ran refl,
        record { memory = mem; boot_info = refl; pmm = refl; g_ticks = refl; ports = refl },
        refl,
      )

  info_ticking_lem :
      (turns : List Turn) (text : ℕ) (va : List ℕ) (c : Clock)
      → 2 * buf_size + 5 ≤ owns turns
      → c.g_ticks + ticks turns < 2 ^ 64
      → (c' : Clock) × (info_ticking p msg turns text va c ≡ some c')
        × (c'.io.mem ≡ filled c.io.mem p.buf 0 buf_size)
        × (c'.g_ticks ≡ c.g_ticks + ticks turns)
        × (c'.ports ≡ eois (ticks turns) c.ports)
  unfolding info_ticking
  info_ticking_lem turns text va c whole small =
      let (t, ran, _, counted, ports, over) =
        play_lem p.vsnprintf p.buf p.fuel msg.second bounded enough cyan text va turns c small in
      let (i, at, mem) = over whole in
      (t.clock, rw ran (ap (λ q. returned_with q t.clock) at), mem, counted, ports)

  start_timer_lem :
      (k : Kernel)
      → IsPaced p k.g_ticks
      → (k' : Kernel) × (start_timer p msg k ≡ some (true, k'))
        × IsCounted p.buf (ticks p.init_turns) k k'
        × IsTicking p msg k'
  unfolding start_timer
  start_timer_lem k paced =
      let (va, x, ends, handled, on) =
        timer_init_lem p.vsnprintf p.buf p.fuel msg.second bounded enough
          (info_ticking p msg p.init_turns msg.eflags) p.inb p.rflags k.interrupts (clock_of k) in
      let (c, ran, mem, counted, ports) =
        info_ticking_lem p.init_turns msg.eflags va (clock_of k) paced.init_whole
          (omega (arith, paced.small)) in
      (
        record (set_clock c k) { interrupts = x },
        rw (ends c ran) refl,
        record { memory = mem; boot_info = refl; pmm = refl; g_ticks = counted; ports = ports },
        (on, handled),
      )

  say_ticking_lem :
      (text : ℕ) (k : Kernel)
      → 2 * buf_size + 5 ≤ owns p.done_turns
      → k.g_ticks + ticks p.done_turns < 2 ^ 64
      → (k' : Kernel) × (say_ticking p msg text k ≡ some k')
        × IsCounted p.buf (ticks p.done_turns) k k'
        × (k'.interrupts ≡ k.interrupts)
  unfolding say_ticking
  say_ticking_lem text k whole small =
      let (c, ran, mem, counted, ports) =
        info_ticking_lem p.done_turns text [] (clock_of k) whole small in
      (
        set_clock c k,
        rw ran refl,
        record { memory = mem; boot_info = refl; pmm = refl; g_ticks = counted; ports = ports },
        refl,
      )

  -- What a part of `test` makes of a state, when nothing fails.
  abbrev Ends : Option Outcome → Kernel → Type 0
  Ends o k =
      (k' : Kernel) × (o ≡ some (returned k'))
      × IsCounted p.buf (early_ticks p) k k'
      × IsTicking p msg k'

  test_timer_lem : (k : Kernel) → IsPaced p k.g_ticks → Ends (test_timer p msg k) k
  unfolding test_timer
  test_timer_lem k paced =
      let (k1, ran, said, ticking) = start_timer_lem k paced in
      let (k2, ran', said', same) =
        say_ticking_lem msg.timer_done k1 paced.done_whole
          (omega (arith, paced.small, said.g_ticks)) in
      (
        k2,
        rw (ran, ran') refl,
        IsCounted-trans said said',
        (
          ap (λ (x : Interrupts (Option Clock)). x.interrupt_flag) same ∙ ticking.0,
          λ s. ap (λ x. (call_irq x irq0 s).1) same ∙ ticking.1 s,
        ),
      )

  test_interrupts_lem :
      (k : Kernel) (x : Interrupts (Option Clock))
      → intr_init p.idt_addr p.stub (default_handler p msg) p.loaded k.interrupts ≡ (true, x)
      → IsPaced p k.g_ticks
      → Ends (test_interrupts p msg k) k
  unfolding test_interrupts
  test_interrupts_lem k x e paced =
      let (k1, ran, said, same) = say_lem msg.interrupts_done (record k { interrupts = x }) in
      let (k2, ran', said', ticking) =
        test_timer_lem k1 (subst (IsPaced p) (sym said.g_ticks) paced) in
      (
        k2,
        rw (e, ran) ran',
        IsSaid-IsCounted {b = k1}
            (record {
              memory = said.memory;
              boot_info = said.boot_info;
              pmm = said.pmm;
              g_ticks = said.g_ticks;
              ports = said.ports;
            })
            said',
        ticking,
      )

  test_pmm_lem :
      (k : Kernel) (m : Machine) (x : Interrupts (Option Clock))
      → pmm_init p.kernel_start p.kernel_end p.fuel
          (record { memory = k.memory; boot_info = k.boot_info; pmm = k.pmm })
        ≡ some (true, m)
      → intr_init p.idt_addr p.stub (default_handler p msg) p.loaded k.interrupts ≡ (true, x)
      → IsPaced p k.g_ticks
      → Ends
          (test_pmm p msg k)
          (record k { memory = m.memory; boot_info = m.boot_info; pmm = m.pmm })
  unfolding test_pmm
  test_pmm_lem k m x e e' paced =
      let k0 : Kernel = record k {
        memory = m.memory;
        boot_info = m.boot_info;
        pmm = m.pmm;
        vga = vga_init k.vga;
      } in
      let (k1, ran, said, same) = say_lem msg.pmm_done k0 in
      let ready : intr_init p.idt_addr p.stub (default_handler p msg) p.loaded k1.interrupts
          ≡ (true, x) =
        (ap (λ y. intr_init p.idt_addr p.stub (default_handler p msg) p.loaded y) same ∙ e') in
      let (k2, ran', said', ticking) =
        test_interrupts_lem k1 x ready (subst (IsPaced p) (sym said.g_ticks) paced) in
      (
        k2,
        rw (e, ran) ran',
        IsSaid-IsCounted {b = k1}
            (record {
              memory = said.memory;
              boot_info = said.boot_info;
              pmm = said.pmm;
              g_ticks = said.g_ticks;
              ports = said.ports;
            })
            said',
        ticking,
      )

  -- For a formatter that keeps to its bound, with at least as many rounds as the output buffer has bytes, and
  -- where the boot information, the memory manager and the interrupts initialise, `test` returns. The
  -- memory is as the memory manager left it but for the output buffer, which is full of zeros; boot
  -- information and memory manager stay as they are; every interrupt of the timer is counted, wherever it comes once they are enabled;
  -- interrupts are enabled, and the interrupt of the timer runs its handler.
  pub test_lem :
      (k : Kernel) (b : BootInfo) (m : Machine) (x : Interrupts (Option Clock))
      → boot_info_init k.memory k.boot_info ≡ (true, b)
      → pmm_init p.kernel_start p.kernel_end p.fuel
          (record { memory = k.memory; boot_info = b; pmm = k.pmm })
        ≡ some (true, m)
      → intr_init p.idt_addr p.stub (default_handler p msg) p.loaded k.interrupts ≡ (true, x)
      → IsPaced p k.g_ticks
      → (k' : Kernel) × (test p msg k ≡ some (returned k'))
        × IsCounted p.buf
            (early_ticks p)
            (record k { memory = m.memory; boot_info = m.boot_info; pmm = m.pmm })
            k'
        × IsTicking p msg k'
  unfolding test
  test_lem k b m x booted e e' paced =
      let (k', ran, said, ticking) = test_pmm_lem (record k { boot_info = b }) m x e e' paced in
      (
        k',
        rw booted ran,
        record {
          memory = said.memory;
          boot_info = said.boot_info;
          pmm = said.pmm;
          g_ticks = said.g_ticks;
          ports = said.ports;
        },
        ticking,
      )

-- Where the boot information does not initialise, and the message is a format without arguments that has fewer
-- pieces than there are rounds, `test` prints the message and halts: the memory, the memory manager and
-- the interrupts are as before.
pub test_refused :
    (p : Platform) (msg : Messages) (k : Kernel) (b : BootInfo) (ps : List Piece)
    → boot_info_init k.memory k.boot_info ≡ (false, b)
    → Holds k.memory msg.boot_failed (format ps)
    → IsReady 0 k.memory ps []
    → length ps < p.fuel
    → (text : List ℕ) × Prints k.memory ps [] text
      × (test p msg k ≡ some (halted (record k { boot_info = b; vga = print text k.vga })))
unfolding test vga_fail
test_refused p msg k b ps refused holds ready enough =
    let (text, prints, ran) =
      vga_printf_lem ps 0 p.fuel k.memory msg.boot_failed [] k.vga holds ready
        (omega (arith, enough)) in
    (text, prints, rw (refused, ran) refl)
