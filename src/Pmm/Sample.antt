-- ===== src/Pmm/Sample.antt =====
-- A manager of two small areas, and a machine with 16 MiB of memory on which a kernel at 1 MiB boots.
use ckernel.Prelude.{ℕ, ◌+◌, ◌<◌, ◌≡◌, refl, true, some, arith, [], ◌∷◌, inl}
use ckernel.Firstfit.Sample.{busy, upper}
use ckernel.Multiboot2.{Resource, get_memory}
use ckernel.Multiboot2.MemoryMap.{available, get_memory_lem}
use ckernel.Multiboot2.Sample.{base, memory, boot_info, memory-Tags}
use ckernel.Pmm.{Pmm, Machine, init}
use ckernel.Pmm.Boot.{IsBooted, init_lem}
use ckernel.Prelude.{zero, suc, ◌*◌, ◌∙◌, ap, inr, List, if◌then◌else◌}
use ckernel.Common.{page_size}
use ckernel.Firstfit.Bitmap.{used}
use ckernel.Firstfit.Ledger.{Block, owners, pages_of}
use ckernel.Firstfit.Sample.{upper_taken, alloc-upper, busy-IsValid, upper-IsValid}
use ckernel.Pmm.{alloc_pages}
use ckernel.Pmm.Space.{IsPmm}
use ckernel.Pmm.History.{State, takes, refused, Reach, here, next, block}
use ckernel.Pmm.Consistent.{IsConsistent}
use ckernel.Pmm.Moves.{alloc_pages-IsAnswer}
use ckernel.Pmm.Booted.{boot_blocks, new_state, booted-IsConsistent}
use Prim.{tt}

abbrev pub manager : Pmm
manager = record {
  start = 0;
  length = 0x106000;
  total_pages = 0x106;
  kernel_space_start = 0x100000;
  kernel_space_length = 0x4000;
  non_kernel_space_start = 0x104000;
  non_kernel_space_length = 0x2000;
  kernel_space_allocator = busy;
  allocator = upper;
}

abbrev pub machine : Machine
machine = record { memory = memory; boot_info = boot_info; pmm = manager }

abbrev pub found_memory : Resource
found_memory = record {
  type = 1;
  name = some "available phy memory";
  addr = 0;
  len = 0x1000000;
  intr_no = 0;
}

pub finds_lem : (fuel : ℕ) → 2 < fuel → get_memory fuel memory boot_info ≡ some found_memory
unfolding available
finds_lem fuel enough =
    get_memory_lem memory boot_info fuel ((base + 8) ∷ []) (base + 24) [] refl memory-Tags
      (omega arith) (omega arith, tt) refl (omega arith) (omega arith)

pub boots :
    (s' : Machine) × (init 0x100000 0x10a123 512 machine ≡ some (true, s'))
    × IsBooted 0x100000 11 1 machine s'
boots =
    init_lem 0x100000 0x10a123 512 machine found_memory (finds_lem 512 (omega arith)) (omega arith)
      (omega arith) (omega arith) (omega arith) refl (omega arith) (omega arith) (omega arith)
      (omega arith) (omega arith) (inl (omega arith))

pub manager-IsPmm : IsPmm manager
manager-IsPmm = record {
  kernel = record { valid = busy-IsValid; at = refl; inside = omega arith };
  other = record { valid = upper-IsValid; at = refl; inside = omega arith };
  not_null = omega arith;
  apart = omega arith;
  no_wrap = omega arith;
}

pub taken_upper :
    alloc_pages manager 1 ≡ some (0x104000, record manager { allocator = upper_taken })
unfolding alloc_pages
taken_upper = rw alloc-upper

-- The two pages in use at the start of `manager` are kept.
abbrev pub kept : List Block
kept = block 0x100000 2 ∷ []

abbrev pub at_start : State
at_start = record { pmm = manager; live = [] }

abbrev pub one_taken : State
one_taken = record {
  pmm = record manager { allocator = upper_taken };
  live = block 0x104000 1 ∷ [];
}

pub one_taken-Reach : Reach at_start one_taken
one_taken-Reach = next here (
    takes 1 0x104000 (record manager { allocator = upper_taken }) (omega arith) (inl taken_upper)
      (omega arith))

first_pages :
    (j : ℕ) → j < 4 → owners kept (0x100000 + page_size * j) ≡ (if used busy j then 1 else 0)
unfolding owners
first_pages zero h = refl
first_pages (suc zero) h = refl
first_pages (suc (suc zero)) h = refl
first_pages (suc (suc (suc zero))) h = refl
first_pages (suc (suc (suc (suc j)))) h = absurd (omega arith)

other_pages :
    (j : ℕ) → j < 2 → owners kept (0x104000 + page_size * j) ≡ (if used upper j then 1 else 0)
unfolding owners
other_pages zero h = refl
other_pages (suc zero) h = refl
other_pages (suc (suc j)) h = absurd (omega arith)

pub at_start-IsConsistent : IsConsistent manager kept at_start
unfolding pages_of
at_start-IsConsistent = record {
  spaces = record {
    kernel_start = refl;
    kernel_length = refl;
    other_start = refl;
    other_length = refl;
  };
  kernel = record { valid = busy-IsValid; at = refl; total_pages = refl; owned = first_pages };
  other = record { valid = upper-IsValid; at = refl; total_pages = refl; owned = other_pages };
  placed = tt;
  counted = refl;
}

-- Some state after the boot and an allocation of three pages.
pub afterwards : (t : State) × Reach (new_state boots.0.pmm) t
afterwards =
    let s' = boots.0 in
    let b = boots.2 in
    let (addr, q, ran, out) =
      alloc_pages-IsAnswer s'.pmm (boot_blocks 0x100000 11 1) b.valid (new_state s'.pmm)
        (booted-IsConsistent 0x100000 11 1 machine s' (omega arith) (omega arith) (omega arith) b) 3
        (omega arith) in
    elim out [
      | inl (e, _, _) ↦ (
        record { pmm = q; live = [] },
        next here (refused 3 q (omega arith) (inl (ran ∙ ap (λ a. some (a, q)) e))),
      )
      | inr (nonzero, _, _) ↦ (
        record { pmm = q; live = block addr 3 ∷ [] },
        next here (takes 3 addr q (omega arith) (inl ran) nonzero),
      )
    ]
