-- ===== src/Pmm/Consistent.antt =====
-- The invariant of the managers that clients of pmm.cpp reach: each page belongs to whoever was given it
-- last, and to nobody else.
use ckernel.Prelude.{◌+◌, ◌*◌, ◌≤◌, ◌≡◌, ◌⊎◌, inl, inr}
use ckernel.Prelude.{List, [], ◌∷◌, ◌++◌, arith, All}
use ckernel.Common.{page_size}
use ckernel.Firstfit.{Firstfit}
use ckernel.Firstfit.Ledger.{
  Block, stop, IsHeld, pages_of, pages_of-middle, IsHeld-middle, other-IsHeld,
}
use ckernel.Firstfit.Handout.{IsHandedOut}
use ckernel.Pmm.{Pmm}
use ckernel.Pmm.Space.{IsPmm, IsSameSpaces}
use ckernel.Pmm.History.{State, IsKernelBlock, IsOtherBlock}

-- The block lies in one of the two spaces.
abbrev pub IsManagedBlock : Pmm → Block → Type 0
IsManagedBlock p b = IsKernelBlock p b ⊎ IsOtherBlock p b

-- The manager has the spaces of `p`. Each page of them belongs to exactly one of the blocks, those that are
-- `kept` for good and those that clients hold, if it is in use, and to none if it is free. The counters
-- add up to the pages of the blocks, and the blocks of the clients lie in the spaces.
pub record IsConsistent (p : Pmm) (kept : List Block) (s : State) : Type 0 where
  pub spaces : IsSameSpaces p s.pmm
  pub kernel :
      IsHeld p.kernel_space_start p.kernel_space_allocator.allocator_length
        (kept ++ s.live)
        s.pmm.kernel_space_allocator
  pub other :
      IsHeld p.non_kernel_space_start p.allocator.allocator_length (kept ++ s.live) s.pmm.allocator
  pub placed : All (IsManagedBlock p) s.live
  pub counted :
      s.pmm.kernel_space_allocator.allocator_used_count + s.pmm.allocator.allocator_used_count
      ≡ pages_of (kept ++ s.live)

module _ (p : Pmm) (kept : List Block) (v : IsPmm p) where
  -- A block of one space is outside the other.
  pub kernel_apart : (b : Block) → IsKernelBlock p b → stop b ≤ p.non_kernel_space_start
  kernel_apart b k = omega (arith, k.at, k.inside, v.kernel.inside, v.apart)

  pub other_apart :
      (b : Block)
      → IsOtherBlock p b
      → p.kernel_space_start + p.kernel_space_allocator.allocator_length * page_size ≤ b.addr
  other_apart b o = omega (arith, o.at, v.kernel.inside, v.apart)

  module _ (s : State) (c : IsConsistent p kept s) where
    pub hand_kernel :
        (b : Block) (a : Firstfit)
        → IsHandedOut p.kernel_space_start p.kernel_space_allocator.allocator_length
            (kept ++ s.live)
            s.pmm.kernel_space_allocator
            b
            a
        → IsConsistent p kept
            (record { pmm = record (s.pmm) { kernel_space_allocator = a }; live = b ∷ s.live })
    unfolding pages_of
    hand_kernel b a out = record {
      spaces = record {
        kernel_start = c.spaces.kernel_start;
        kernel_length = c.spaces.kernel_length;
        other_start = c.spaces.other_start;
        other_length = c.spaces.other_length;
      };
      kernel = IsHeld-middle kept [] s.live b out.held;
      other =
          IsHeld-middle kept [] s.live b (other-IsHeld c.other b (inl (kernel_apart b out.placed)));
      placed = (inl out.placed, c.placed);
      counted = omega (arith, out.counter, c.counted, pages_of-middle kept [] s.live b);
    }

    pub hand_other :
        (b : Block) (a : Firstfit)
        → IsHandedOut p.non_kernel_space_start p.allocator.allocator_length
            (kept ++ s.live)
            s.pmm.allocator
            b
            a
        → IsConsistent p kept (record { pmm = record (s.pmm) { allocator = a }; live = b ∷ s.live })
    unfolding pages_of
    hand_other b a out = record {
      spaces = record {
        kernel_start = c.spaces.kernel_start;
        kernel_length = c.spaces.kernel_length;
        other_start = c.spaces.other_start;
        other_length = c.spaces.other_length;
      };
      kernel =
          IsHeld-middle kept [] s.live b (other-IsHeld c.kernel b (inr (other_apart b out.placed)));
      other = IsHeld-middle kept [] s.live b out.held;
      placed = (inr out.placed, c.placed);
      counted = omega (arith, out.counter, c.counted, pages_of-middle kept [] s.live b);
    }
