-- ===== src/Firstfit/Disjoint.antt =====
-- Blocks of pages of firstfit.cpp that do not overlap.
use ckernel.Prelude.{ℕ, refl, ◌≤◌, ◌<◌, ◌≡◌, ◌⊎◌, true, List, [], ◌∷◌, arith, All}
use ckernel.Firstfit.Ledger.{Block, stop, covers, owners}

-- The blocks have no byte in common.
abbrev pub IsApart : Block → Block → Type 0
IsApart b c = (stop b ≤ c.addr) ⊎ (stop c ≤ b.addr)

-- No two of the blocks have a byte in common.
abbrev pub IsDisjoint : List Block → Type 0
IsDisjoint [] = Unit
IsDisjoint (b ∷ bs) = All (IsApart b) bs × IsDisjoint bs

one-IsApart :
    (b c : Block)
    → 0 < c.pages
    → (b.addr ≤ c.addr → ¬ (c.addr < stop b))
    → (c.addr ≤ b.addr → ¬ (b.addr < stop c))
    → IsApart b c
one-IsApart b c some_pages first second = ground (arith, first, second)

module _ (P : Block → Type 0) (some_pages : (b : Block) → P b → 0 < b.pages) where
  head-IsApart :
      (b : Block) (bs : List Block)
      → All P bs
      → ((c : Block) → P c → covers b c.addr ≡ true → owners bs c.addr ≡ 0)
      → owners bs b.addr ≡ 0
      → All (IsApart b) bs
  unfolding owners
  head-IsApart b [] placed clear clear_start = tt
  head-IsApart b (c ∷ bs) placed clear clear_start =
      let pos = some_pages c placed.0 in
      (
        one-IsApart b c pos (λ p q. ground (arith, clear c placed.0, pos))
            (λ p q. ground (arith, clear_start)),
        head-IsApart b bs placed.1 (λ d pd h. ground (arith, clear d pd h))
            (ground (arith, clear_start)),
      )

  -- Blocks are disjoint if the first byte of each belongs to one of them only.
  pub owners-IsDisjoint :
      (bs : List Block) → All P bs → ((b : Block) → P b → owners bs b.addr ≤ 1) → IsDisjoint bs
  unfolding owners
  owners-IsDisjoint [] placed single = tt
  owners-IsDisjoint (b ∷ bs) placed single =
      let pos = some_pages b placed.0 in
      (
        head-IsApart b bs placed.1 (λ c pc h. ground (arith, single c pc, h))
            (ground (arith, single b placed.0, pos)),
        owners-IsDisjoint bs placed.1 (λ c pc. ground (arith, single c pc)),
      )

-- A byte of a block that is apart from the others belongs to none of them.
pub owners-IsApart :
    (b : Block) (bs : List Block) (x : ℕ) → All (IsApart b) bs → covers b x ≡ true → owners bs x ≡ 0
unfolding owners
owners-IsApart b [] x apart inside = refl
owners-IsApart b (c ∷ bs) x apart inside =
    ground (arith, owners-IsApart b bs x apart.1 inside, apart.0)
