-- ===== src/Pmm/Tests.antt =====
-- The theorems on the physical memory manager at concrete inputs: a manager of two small areas, and the
-- boot of a kernel at 1 MiB with 16 MiB of memory.
use ckernel.Prelude.{◌+◌, ◌*◌, ◌≡◌, refl, true, some, arith}
use ckernel.Prelude.{inl}
use ckernel.Common.{page_size}
use ckernel.Firstfit.Free.{IsSameUse}
use ckernel.Firstfit.Sample.{busy, upper, upper_taken}
use ckernel.Pmm.{Pmm, Machine, alloc_pages, alloc_pages_kernel, free_pages, init}
use ckernel.Pmm.Space.{IsPmm}
use ckernel.Pmm.Release.{free_pages-alloc_pages}
use ckernel.Pmm.Boot.{IsBooted, init_lem}
use ckernel.Prelude.{All, [], ◌∷◌}
use ckernel.Firstfit.Ledger.{pages_of}
use ckernel.Firstfit.Disjoint.{IsDisjoint}
use ckernel.Pmm.{get_used_pages_count}
use ckernel.Pmm.History.{IsKernelBlock, IsOtherBlock, State, block}
use ckernel.Pmm.Consistent.{IsManagedBlock, IsConsistent}
use ckernel.Pmm.Reachable.{Reach-IsConsistent}
use ckernel.Pmm.Held.{IsDrained, IsFresh, Reach-IsDrained, alloc_pages-Reach}
use ckernel.Pmm.Refinement.{Served, events, Reach-Served}
use ckernel.Pmm.Booted.{boot_blocks, Reach-IsBooted}
use ckernel.Pmm.Sample.{
  manager, machine, found_memory, finds_lem, manager-IsPmm, taken_upper, kept, at_start, one_taken,
  one_taken-Reach, at_start-IsConsistent, boots, afterwards,
}
use Prim.{tt}

free_pages-alloc_pages_example :
    (p'' : Pmm) × (free_pages (record manager { allocator = upper_taken }) 0x104000 1 ≡ some p'')
    × IsPmm p''
    × (p''.kernel_space_allocator ≡ busy)
    × IsSameUse upper p''.allocator
free_pages-alloc_pages_example =
    free_pages-alloc_pages manager (record manager { allocator = upper_taken }) 1 0x104000
      manager-IsPmm (omega arith) taken_upper (omega arith)

init_lem_example :
    (s' : Machine) × (init 0x100000 0x10a123 3 machine ≡ some (true, s'))
    × IsBooted 0x100000 11 1 machine s'
init_lem_example =
    init_lem 0x100000 0x10a123 3 machine found_memory (finds_lem 3 (omega arith)) (omega arith)
      (omega arith) (omega arith) (omega arith) refl (omega arith) (omega arith) (omega arith)
      (omega arith) (omega arith) (inl (omega arith))

Reach-IsConsistent_example : IsConsistent manager kept one_taken
Reach-IsConsistent_example =
    Reach-IsConsistent manager kept manager-IsPmm at_start one_taken at_start-IsConsistent
      one_taken-Reach

Reach-IsDrained_example :
    (u : State) × IsDrained manager kept one_taken u × (get_used_pages_count u.pmm ≡ pages_of kept)
Reach-IsDrained_example =
    Reach-IsDrained manager kept manager-IsPmm at_start one_taken at_start-IsConsistent
      one_taken-Reach

kept_managed : All (IsManagedBlock manager) kept
kept_managed =
    (inl (record { idx = 0; at = refl; some_pages = omega arith; inside = omega arith }), tt)

alloc_pages-Reach_example :
    IsFresh manager kept manager-IsPmm one_taken
      (IsOtherBlock manager)
      1
      (alloc_pages one_taken.pmm 1)
    × IsFresh manager kept manager-IsPmm one_taken
        (IsKernelBlock manager)
        1
        (alloc_pages_kernel one_taken.pmm 1)
alloc_pages-Reach_example =
    alloc_pages-Reach manager kept manager-IsPmm at_start one_taken 1 kept_managed
      at_start-IsConsistent one_taken-Reach (omega arith)

Reach-IsBooted_example :
    IsConsistent boots.0.pmm (boot_blocks 0x100000 11 1) afterwards.0
    × IsDisjoint (block 0x100000 11 ∷ block (0x100000 + page_size * 11) 1 ∷ afterwards.0.live)
Reach-IsBooted_example =
    Reach-IsBooted 0x100000 11 1 machine boots.0 afterwards.0 (omega arith) (omega arith)
      (omega arith) boots.2 afterwards.1

Reach-Served_example : Served manager kept [] (events one_taken-Reach) (block 0x104000 1 ∷ [])
Reach-Served_example =
    Reach-Served manager kept manager-IsPmm kept_managed at_start one_taken at_start-IsConsistent
      one_taken-Reach
