-- ===== src/Kernel/Tests.antt =====
-- The start of a kernel at 1 MiB with 16 MiB of memory, and one without boot information.
use ckernel.Prelude.{
  ℕ, ◌+◌, ◌*◌, ◌%◌, ◌≡◌, refl, true, some, none, arith, List, [], ◌∷◌, Option, get_or, ◌-◌,
}
use ckernel.Mem.{Memory}
use ckernel.Multiboot2.Sample.{memory, boot_info, init-boot_info, stranger}
use ckernel.Pmm.Sample.{manager, boots}
use ckernel.Vga.{print}
use ckernel.Vga.Format.{plain, Prints}
use ckernel.Intr.{Interrupts, empty_entry}
use ckernel.Intr.Setup.{init_refused}
use ckernel.Io.Sample.{one_a, one_a-IsBounded, io}
use ckernel.Timer.{Clock}
use ckernel.Timer.Interleave.{Turn, own, tick, owns, ticks}
use ckernel.Kernel.Start.{IsPaced}
use ckernel.Kernel.{
  io_of, set_io, clock_of, kernel_main, default_handler, Kernel, Platform, Messages, halted, test,
}
use ckernel.Prelude.{zero, suc, false, inl, if◌then◌else◌, ltb}
use ckernel.Mem.{load32}
use ckernel.Multiboot2.Sample.{base, block}
use ckernel.Multiboot2.MemoryMap.{available, memory_of}
use ckernel.Pmm.{Machine}
use ckernel.Pmm.Boot.{IsBooted}
use ckernel.Multiboot2.{get_memory}
use ckernel.Multiboot2.Moved.{IsBlock, goes_on, ends}
use ckernel.Kernel.Remembered.{kernel_main-get_memory}
use ckernel.Kernel.Bringup.{
  IsHandedOver, HasMap, IsLinked, IsLoaded, IsRunning, kernel_main-IsBooted,
}
use ckernel.Common.{align32}
use ckernel.Multiboot2.{init as boot_info_init}
use ckernel.Multiboot2.Init.{init_accepted}
use ckernel.Multiboot2.Iter.{Tags, more, end}
use ckernel.Intr.{init as intr_init}
use ckernel.Timer.Ticks.{fire, Ticked}
use ckernel.Kernel.Ticking.{fire-IsRunning}
use ckernel.Kernel.Halts.{managed, test_no_memory, test_no_interrupts}
use ckernel.Prelude.Int.{ℤ}
use ckernel.Io.{Io, cyan, light_red}
use ckernel.Io.Print.{IsReport}
use Prim.{tt}

abbrev interrupts : Interrupts (Option Clock)
interrupts = record {
  idt = λ q. empty_entry;
  idtr_limit = 0;
  idtr_base = 0;
  interrupt_handlers = λ q. none;
  ports = [];
  interrupt_flag = false;
}

abbrev kernel : Kernel
kernel = record {
  memory = memory;
  boot_info = boot_info;
  pmm = manager;
  vga = record { vga_mem = λ q. 0; cursor_x = 0; cursor_y = 0; current_color = 7; serial = [] };
  screen = io.screen;
  interrupts = interrupts;
  g_ticks = 0;
  ports = [];
}

-- A message of which the timer interrupts each step of the first `n`.
abbrev slowed : ℕ → List Turn → List Turn
slowed zero turns = turns
slowed (suc n) turns = own ∷ tick ∷ slowed n turns

-- Steps that nothing interrupts.
abbrev quick : ℕ → List Turn → List Turn
quick zero turns = turns
quick (suc n) turns = own ∷ quick n turns

abbrev platform : Platform
platform = record {
  fuel = 512;
  vsnprintf = one_a;
  buf = 0x10_4000;
  kernel_start = 0x10_0000;
  kernel_end = 0x10_a123;
  idt_addr = 0x10_5000;
  stub = λ q. 0x10_1000 + q % 256 * 16;
  loaded = true;
  inb = λ port. 0xFF;
  rflags = 0x202;
  init_turns = tick ∷ slowed 4 (quick 1025 []);
  done_turns = quick 1029 (tick ∷ tick ∷ []);
}

abbrev messages : Messages
messages = record {
  hello = 100;
  boot_failed = 100;
  pmm_failed = 100;
  pmm_done = 100;
  interrupts_failed = 100;
  interrupts_done = 100;
  timer_failed = 100;
  timer_done = 100;
  second = 100;
  eflags = 100;
  unhandled = 100;
}

-- "E" at address 100.
abbrev text : Memory
text a = get_or (b'E' ∷ 0 ∷ []) (a - 100) 0

abbrev stray : Kernel
stray = record kernel { memory = text; boot_info = stranger }

-- The block of the sample, and the message "E" at address 100.
abbrev handed : Memory
handed a = if ltb a 200 then text a % 256 else memory a

abbrev fresh : Kernel
fresh = record kernel { memory = handed }

handed-Tags : Tags handed (base + 8) ((base + 8) ∷ (base + 24) ∷ [])
unfolding align32
handed-Tags = more (omega arith) (more (omega arith) (end refl))

loaded : IsLoaded 0x10_0000 0x10_a123 base (load32 handed base) (memory_of handed (base + 24)).len
unfolding available
loaded = record {
  least = omega arith;
  most = omega arith;
  no_wrap = omega arith;
  not_null = omega arith;
  aligned = refl;
  order = omega arith;
  end_fits = omega arith;
  room = omega arith;
  apart = inl (omega arith);
}

handed_over : IsHandedOver handed boot_info
handed_over = record {
  magic = refl;
  aligned = refl;
  low = omega arith;
  high = omega arith;
  some_size = omega arith;
  size_fits = omega arith;
}

has_map : HasMap handed base 512 (base + 24)
has_map = record {
  before = (base + 8) ∷ [];
  after = [];
  tags = handed-Tags;
  enough = omega arith;
  first = (omega arith, tt);
  is_mmap = refl;
  size = omega arith;
  wide = omega arith;
}

linked : IsLinked platform
linked = record {
  aligned = refl;
  low = omega arith;
  high = omega arith;
  stubs = λ q. omega arith;
  loaded = refl;
}

paced : IsPaced platform 0
unfolding owns ticks
paced = record { init_whole = omega arith; done_whole = omega arith; small = omega arith }

kernel_main-IsBooted_example :
    (m : Machine) × (k' : Kernel) × (kernel_main platform messages fresh ≡ some (halted k'))
    × IsBooted 0x10_0000 11 1 (record { memory = handed; boot_info = boot_info; pmm = manager }) m
    × IsRunning platform messages 7 m k'
unfolding ticks
kernel_main-IsBooted_example =
    kernel_main-IsBooted platform messages fresh (base + 24) (plain b'E' ∷ []) one_a-IsBounded
      (omega arith) (λ a. ground arith) handed_over has_map loaded linked (refl, (refl, tt))
      (omega arith, omega arith, tt) (omega arith) paced

handed-IsBlock : IsBlock handed base 4096 8
unfolding align32
handed-IsBlock =
    goes_on (omega arith) (omega arith) (λ e. omega arith) (omega arith)
      (goes_on (omega arith) (omega arith) (λ e. omega arith) (omega arith)
        (ends (omega arith) refl))

kernel_main-get_memory_example :
    (k' : Kernel) × (kernel_main platform messages fresh ≡ some (halted k'))
    × (k'.boot_info.boot_info_addr ≡ 0x10_B000)
    × (get_memory 512 k'.memory k'.boot_info ≡ some (memory_of handed (base + 24)))
kernel_main-get_memory_example =
    kernel_main-get_memory platform messages fresh (base + 24) (plain b'E' ∷ []) one_a-IsBounded
      (omega arith) (λ a. ground arith) handed_over has_map loaded linked (refl, (refl, tt))
      (omega arith, omega arith, tt) (omega arith) paced (inl (omega arith)) handed-IsBlock

-- The machine and the kernel that come of it.
up :
    (m : Machine) × (k' : Kernel) × (kernel_main platform messages fresh ≡ some (halted k'))
    × IsBooted 0x10_0000 11 1 (record { memory = handed; boot_info = boot_info; pmm = manager }) m
    × IsRunning platform messages 7 m k'
unfolding ticks
up =
    kernel_main-IsBooted platform messages fresh (base + 24) (plain b'E' ∷ []) one_a-IsBounded
      (omega arith) (λ a. ground arith) handed_over has_map loaded linked (refl, (refl, tt))
      (omega arith, omega arith, tt) (omega arith) paced

fire-IsRunning_example :
    (c : Clock) × (fire 1500 up.1.interrupts (some (clock_of up.1)) ≡ some c)
    × (c.g_ticks ≡ 7 + 1500)
    × Ticked one_a 0x10_4000 512 100 one_a-IsBounded (omega arith) 1500 (clock_of up.1) c
fire-IsRunning_example =
    fire-IsRunning platform messages 7 up.0 up.1 1500 one_a-IsBounded (omega arith) up.4
      (omega arith)

-- The same with a block without a memory map.
abbrev bare : Memory
bare a = if ltb a 200 then text a % 256 else block [] a

abbrev mapless : Kernel
mapless = record kernel { memory = bare }

bare-accepted : boot_info_init bare boot_info ≡ (true, boot_info)
bare-accepted =
    init_accepted bare boot_info (λ a. ground arith) refl refl (omega arith) (omega arith)
      (omega arith) (omega arith)

bare-Tags : Tags bare (base + 8) ((base + 8) ∷ [])
unfolding align32
bare-Tags = more (omega arith) (end refl)

test_no_memory_example :
    (out : List ℕ) × Prints bare (plain b'E' ∷ []) [] out
    × (test platform messages mapless
        ≡ some (halted (record mapless { boot_info = boot_info; vga = print out mapless.vga })))
test_no_memory_example =
    test_no_memory platform messages mapless boot_info ((base + 8) ∷ []) (plain b'E' ∷ [])
      bare-accepted refl bare-Tags (omega arith) (omega arith, tt) (refl, (refl, tt))
      (omega arith, omega arith, tt) (omega arith)

-- The interrupt descriptor table is not aligned.
abbrev crooked : Platform
crooked = record platform { idt_addr = 0x10_5008 }

crooked-refused :
    intr_init 0x10_5008 crooked.stub (default_handler crooked messages) true interrupts
    ≡ (false, interrupts)
crooked-refused =
    init_refused 0x10_5008 crooked.stub (default_handler crooked messages) true interrupts
      (inl (omega arith))

test_no_interrupts_example :
    let k0 = managed boots.0 kernel in
    (ret ret' : ℤ) × (io1 io2 : Io) × IsReport one_a 0x10_4000 cyan 100 []
      (io_of k0)
      (some (ret, io1))
    × IsReport one_a 0x10_4000 light_red 100 [] (io_of (set_io io1 k0)) (some (ret', io2))
    × (test crooked messages kernel
        ≡ some (halted (set_io io2 (record (set_io io1 k0) { interrupts = interrupts }))))
test_no_interrupts_example =
    test_no_interrupts crooked messages kernel boot_info boots.0 interrupts one_a-IsBounded
      (omega arith) init-boot_info boots.1 crooked-refused
