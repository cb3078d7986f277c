-- ===== src/Firstfit/Handout.antt =====
-- `FIRSTFIT::alloc` of firstfit.cpp on pages that blocks hold: the new block.
use ckernel.Prelude.{ℕ, ◌+◌, ◌*◌, ◌≤◌, ◌<◌, ◌≡◌, ◌≢◌, true, false, ◌⊎◌, inl, inr, List, ◌∷◌}
use ckernel.Prelude.{refl, some, arith, Bool}
use ckernel.Common.{page_size}
use ckernel.Firstfit.{Firstfit, alloc, alloc_at, page_index}
use ckernel.Firstfit.Find.{IsRun}
use ckernel.Firstfit.Alloc.{IsValid, IsTaken, alloc_lem}
use ckernel.Firstfit.AllocAt.{alloc_at_lem}
use ckernel.Prelude.{All}
use ckernel.Firstfit.Bitmap.{used}
use ckernel.Firstfit.Disjoint.{IsApart, owners-IsApart}
use ckernel.Firstfit.Ledger.{Block, covers, IsPlaced, IsHeld, take-IsHeld}

-- The block is one of the area, and the allocator has taken its pages into use.
pub record IsHandedOut (start total : ℕ) (blocks : List Block) (a : Firstfit) (b : Block)
    (a' : Firstfit) : Type 0 where
  pub placed : IsPlaced start total b
  pub held : IsHeld start total (b ∷ blocks) a'
  pub counter : a'.allocator_used_count ≡ a.allocator_used_count + b.pages

-- Every block of `len` pages of a space overlaps one of the blocks.
abbrev pub NoRoom : (Block → Type 0) → List Block → ℕ → Type 0
NoRoom Space blocks len = (b : Block) → Space b → b.pages ≡ len → ¬ All (IsApart b) blocks

module _ {start total : ℕ} {blocks : List Block} {a : Firstfit}
    (h : IsHeld start total blocks a) where
  -- The pages of a block that overlaps no other are free.
  used-IsApart :
      (b : Block) (placed : IsPlaced start total b) (j : ℕ)
      → All (IsApart b) blocks
      → placed.idx ≤ j
      → j < placed.idx + b.pages
      → used a j ≡ false
  used-IsApart b placed j apart low high =
      let inside : covers b (start + page_size * j) ≡ true = ground (arith, placed.at) in
      let nobody = owners-IsApart b blocks (start + page_size * j) apart inside in
      ground (arith, nobody, h.owned j (omega (arith, placed.inside)))

  alloc-NoRoom :
      (len : ℕ) → ((s : ℕ) → ¬ IsRun a len false s) → NoRoom (IsPlaced start total) blocks len
  alloc-NoRoom len none_free b placed e apart = none_free placed.idx (record {
    inside = omega (arith, placed.inside, h.total_pages);
    same = λ j low high. used-IsApart b placed j apart low (omega arith);
  })

module _ {start total : ℕ} {blocks : List Block} {a : Firstfit} (h : IsHeld start total blocks a)
    (len : ℕ) (pos : 0 < len) where
  hand_out :
      (addr idx : ℕ) (a' : Firstfit)
      → addr ≡ start + page_size * idx
      → IsRun a len false idx
      → IsTaken a idx len a'
      → IsValid a'
      → IsHandedOut start total blocks a (record { addr = addr; pages = len }) a'
  hand_out addr idx a' e run taken valid = record {
    placed = record {
      idx = idx;
      at = e;
      some_pages = pos;
      inside = omega (arith, run.inside, h.total_pages);
    };
    held = rw e (take-IsHeld h idx len a' run taken valid);
    counter = taken.counter;
  }

  -- `alloc` returns 0 and changes nothing if there is no room, or hands out a block.
  pub alloc-IsHandedOut :
      0 < start
      → (addr : ℕ) × (a' : Firstfit) × (alloc a len ≡ some (addr, a'))
        × (((addr ≡ 0) × (a' ≡ a) × NoRoom (IsPlaced start total) blocks len)
            ⊎ ((addr ≢ 0)
                × IsHandedOut start total blocks a (record { addr = addr; pages = len }) a'))
  alloc-IsHandedOut not_null = elim (alloc_lem a len h.valid pos) [
    | inl r ↦ (
      a.allocator_start_addr + page_size * r.idx,
      r.after,
      r.returns,
      inr (
        omega (arith, h.at),
        hand_out (a.allocator_start_addr + page_size * r.idx) r.idx r.after (omega (arith, h.at))
            r.run r.taken r.valid,
      ),
    )
    | inr (e, none_free) ↦ (0, a, e, inl (refl, refl, alloc-NoRoom h len none_free))
  ]

  -- `alloc` at the address of a block of the area answers false and changes nothing if
  -- it overlaps another one, or hands out the block.
  pub alloc_at-IsHandedOut :
      (addr : ℕ)
      → IsPlaced start total (record { addr = addr; pages = len })
      → (ok : Bool) × (a' : Firstfit) × (alloc_at a addr len ≡ some (ok, a'))
        × (((ok ≡ false) × (a' ≡ a) × ¬ All (IsApart (record { addr = addr; pages = len })) blocks)
            ⊎ ((ok ≡ true)
                × IsHandedOut start total blocks a (record { addr = addr; pages = len }) a'))
  alloc_at-IsHandedOut addr placed =
      let index : page_index a addr ≡ placed.idx = omega (arith, h.at, placed.at) in
      elim (alloc_at_lem a addr len h.valid
        (
          omega (arith, h.at, placed.at),
          omega (arith, h.at, placed.at, h.total_pages, placed.inside),
        )
        (omega (arith, index, h.total_pages, placed.inside))) [
          | inl r ↦ (
            true,
            r.after,
            r.returns,
            inr (
              refl,
              hand_out addr (page_index a addr) r.after (omega (arith, index, placed.at)) r.run
                  r.taken r.valid,
            ),
          )
          | inr (e, (j, low, high, in_use)) ↦ (
            false,
            a,
            e,
            inl (
              refl,
              refl,
              λ apart. cc (
                in_use,
                used-IsApart h (record { addr = addr; pages = len }) placed j apart
                    (omega (arith, index, low)) (omega (arith, index, high)),
              ),
            ),
          )
        ]
