-- ===== src/Pmm/History.antt =====
-- What the clients of pmm.cpp hold: a step for each of its allocations and for giving a block back, and
-- the managers that such steps reach.
use ckernel.Prelude.{ℕ, ◌<◌, ◌≡◌, ◌≢◌, ◌⊎◌, true, false, Bool, List, ◌∷◌, ◌++◌, Option, some}
use ckernel.Firstfit.Ledger.{Block, IsPlaced}
use ckernel.Pmm.{Pmm, alloc_pages, alloc_pages_kernel, alloc_pages_at, alloc_pages_kernel_at}
use ckernel.Pmm.{free_pages}

-- The manager, and the blocks that it has handed out and not taken back.
pub record State : Type 0 where
  pub pmm : Pmm
  pub live : List Block

abbrev pub block : ℕ → ℕ → Block
block addr pages = record { addr = addr; pages = pages }

-- The result of an allocation of `len` pages, from either space.
abbrev pub Allocates : Pmm → ℕ → Option (ℕ × Pmm) → Type 0
Allocates p len r = (alloc_pages p len ≡ r) ⊎ (alloc_pages_kernel p len ≡ r)

-- The block is one of whole pages of the space.
abbrev pub IsKernelBlock : Pmm → Block → Type 0
IsKernelBlock p = IsPlaced p.kernel_space_start p.kernel_space_allocator.allocator_length

abbrev pub IsOtherBlock : Pmm → Block → Type 0
IsOtherBlock p = IsPlaced p.non_kernel_space_start p.allocator.allocator_length

-- The result of asking for a block, which is one of the space that is asked.
abbrev pub AllocatesAt : Pmm → Block → Option (Bool × Pmm) → Type 0
AllocatesAt p b r =
    (IsOtherBlock p b × (alloc_pages_at p b.addr b.pages ≡ r))
    ⊎ (IsKernelBlock p b × (alloc_pages_kernel_at p b.addr b.pages ≡ r))

-- A client gets what it asks for, is refused, or gives back a block that is live, in any order.
pub data Step : State → State → Type 0 where
  takes :
      {s : State} (len addr : ℕ) (p : Pmm)
      → 0 < len
      → Allocates s.pmm len (some (addr, p))
      → addr ≢ 0
      → Step s (record { pmm = p; live = block addr len ∷ s.live })
  refused :
      {s : State} (len : ℕ) (p : Pmm)
      → 0 < len
      → Allocates s.pmm len (some (0, p))
      → Step s (record { pmm = p; live = s.live })
  takes_at :
      {s : State} (b : Block) (p : Pmm)
      → AllocatesAt s.pmm b (some (true, p))
      → Step s (record { pmm = p; live = b ∷ s.live })
  refused_at :
      {s : State} (b : Block) (p : Pmm)
      → AllocatesAt s.pmm b (some (false, p))
      → Step s (record { pmm = p; live = s.live })
  gives :
      {s : State} (before after : List Block) (b : Block) (p : Pmm)
      → s.live ≡ before ++ b ∷ after
      → free_pages s.pmm b.addr b.pages ≡ some p
      → Step s (record { pmm = p; live = before ++ after })

pub data Reach (s : State) : State → Type 0 where
  here : Reach s s
  next : {t u : State} → Reach s t → Step t u → Reach s u
