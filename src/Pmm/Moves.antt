-- ===== src/Pmm/Moves.antt =====
-- What the calls of pmm.cpp do to a consistent manager: each one answers, and keeps it consistent.
use ckernel.Prelude.{ℕ, ◌+◌, ◌<◌, ◌≡◌, ◌≢◌, refl, ◌∙◌, ap, ◌⊎◌, inl, inr, true, false}
use ckernel.Prelude.{sym, Bool, List, ◌∷◌, ◌++◌, Option, some, arith, All, All-middle}
use mathlib.Core.Path.{subst}
use ckernel.Firstfit.{Firstfit}
use ckernel.Firstfit.Ledger.{
  Block, IsHeld, pages_of, pages_of-middle, IsHeld-front, without_other-IsHeld, give-IsHeld,
}
use ckernel.Firstfit.Disjoint.{IsApart}
use ckernel.Firstfit.Handout.{NoRoom, alloc-IsHandedOut, alloc_at-IsHandedOut}
use ckernel.Pmm.{Pmm, alloc_pages, alloc_pages_kernel, alloc_pages_at, alloc_pages_kernel_at}
use ckernel.Pmm.{free_pages}
use ckernel.Pmm.Space.{IsPmm}
use ckernel.Pmm.Release.{other_run, kernel_run, free_other, free_kernel}
use ckernel.Pmm.History.{State, block, IsKernelBlock, IsOtherBlock}
use ckernel.Pmm.Consistent.{
  IsManagedBlock, IsConsistent, kernel_apart, other_apart, hand_kernel, hand_other,
}

-- The answer to an allocation of `len` pages of a space: 0 and nothing changed, if there is no room, or a new
-- block of the space.
abbrev pub IsAnswer : Pmm → List Block → State → (Block → Type 0) → ℕ → Option (ℕ × Pmm) → Type 0
IsAnswer p kept s Space len r =
    (addr : ℕ) × (q : Pmm) × (r ≡ some (addr, q))
    × (((addr ≡ 0) × (q ≡ s.pmm) × NoRoom Space (kept ++ s.live) len)
        ⊎ ((addr ≢ 0)
            × Space (block addr len)
            × IsConsistent p kept (record { pmm = q; live = block addr len ∷ s.live })))

-- The answer to an allocation of a block: false and nothing changed, if it overlaps another, or the block.
abbrev pub IsAnswerAt : Pmm → List Block → State → Block → Option (Bool × Pmm) → Type 0
IsAnswerAt p kept s b r =
    (ok : Bool) × (q : Pmm) × (r ≡ some (ok, q))
    × (((ok ≡ false) × (q ≡ s.pmm) × ¬ All (IsApart b) (kept ++ s.live))
        ⊎ ((ok ≡ true) × IsConsistent p kept (record { pmm = q; live = b ∷ s.live })))

module _ (p : Pmm) (kept : List Block) (v : IsPmm p) (s : State) (c : IsConsistent p kept s) where
  pub now-IsPmm : IsPmm s.pmm
  now-IsPmm =
      let same = c.spaces in
      record {
        kernel = record {
          valid = c.kernel.valid;
          at = c.kernel.at ∙ sym same.kernel_start;
          inside = omega (arith, c.kernel.total_pages, v.kernel.inside, same.kernel_length);
        };
        other = record {
          valid = c.other.valid;
          at = c.other.at ∙ sym same.other_start;
          inside = omega (arith, c.other.total_pages, v.other.inside, same.other_length);
        };
        not_null = omega (arith, v.not_null, same.kernel_start);
        apart = omega (arith, v.apart, same.kernel_start, same.kernel_length, same.other_start);
        no_wrap = omega (arith, v.no_wrap, same.other_start, same.other_length);
      }

  pub alloc_pages-IsAnswer :
      (len : ℕ) → 0 < len → IsAnswer p kept s (IsOtherBlock p) len (alloc_pages s.pmm len)
  alloc_pages-IsAnswer len pos =
      let (addr, a, ran, out) =
        alloc-IsHandedOut c.other len pos (omega (arith, v.not_null, v.apart)) in
      (
        addr,
        record (s.pmm) { allocator = a },
        other_run s.pmm len addr a ran,
        elim out [
          | inl (none_free, same, no_room) ↦
              inl (none_free, ap (λ (b : Firstfit). record (s.pmm) { allocator = b }) same, no_room)
          | inr (nonzero, o) ↦ inr (nonzero, o.placed, hand_other p kept v s c (block addr len) a o)
        ],
      )

  pub alloc_pages_kernel-IsAnswer :
      (len : ℕ) → 0 < len → IsAnswer p kept s (IsKernelBlock p) len (alloc_pages_kernel s.pmm len)
  alloc_pages_kernel-IsAnswer len pos =
      let (addr, a, ran, out) = alloc-IsHandedOut c.kernel len pos v.not_null in
      (
        addr,
        record (s.pmm) { kernel_space_allocator = a },
        kernel_run s.pmm len addr a ran,
        elim out [
          | inl (none_free, same, no_room) ↦ inl (
            none_free,
            ap (λ (b : Firstfit). record (s.pmm) { kernel_space_allocator = b }) same,
            no_room,
          )
          | inr (nonzero, o) ↦
              inr (nonzero, o.placed, hand_kernel p kept v s c (block addr len) a o)
        ],
      )

  pub alloc_pages_at-IsAnswer :
      (b : Block) → IsOtherBlock p b → IsAnswerAt p kept s b (alloc_pages_at s.pmm b.addr b.pages)
  alloc_pages_at-IsAnswer b placed =
      let (ok, a, ran, out) =
        alloc_at-IsHandedOut c.other b.pages placed.some_pages b.addr placed in
      (
        ok,
        record (s.pmm) { allocator = a },
        rw ran refl,
        elim out [
          | inl (busy, same, overlap) ↦
              inl (busy, ap (λ (x : Firstfit). record (s.pmm) { allocator = x }) same, overlap)
          | inr (granted, o) ↦ inr (granted, hand_other p kept v s c b a o)
        ],
      )

  pub alloc_pages_kernel_at-IsAnswer :
      (b : Block)
      → IsKernelBlock p b
      → IsAnswerAt p kept s b (alloc_pages_kernel_at s.pmm b.addr b.pages)
  unfolding alloc_pages_kernel_at
  alloc_pages_kernel_at-IsAnswer b placed =
      let (ok, a, ran, out) =
        alloc_at-IsHandedOut c.kernel b.pages placed.some_pages b.addr placed in
      (
        ok,
        record (s.pmm) { kernel_space_allocator = a },
        rw ran refl,
        elim out [
          | inl (busy, same, overlap) ↦ inl (
            busy,
            ap (λ (x : Firstfit). record (s.pmm) { kernel_space_allocator = x }) same,
            overlap,
          )
          | inr (granted, o) ↦ inr (granted, hand_kernel p kept v s c b a o)
        ],
      )

  module _ (before after : List Block) (b : Block) (e : s.live ≡ before ++ b ∷ after) where
    listed :
        {start total : ℕ} {a : Firstfit}
        → IsHeld start total (kept ++ s.live) a
        → IsHeld start total (b ∷ (kept ++ (before ++ after))) a
    listed {start} {total} {a} h =
        IsHeld-front kept before after b (subst (λ live. IsHeld start total (kept ++ live) a) e h)

    listed-pages : pages_of (kept ++ s.live) ≡ b.pages + pages_of (kept ++ (before ++ after))
    unfolding pages_of
    listed-pages = ap (λ live. pages_of (kept ++ live)) e ∙ pages_of-middle kept before after b

    listed-placed : IsManagedBlock p b × All (IsManagedBlock p) (before ++ after)
    listed-placed =
        (All-middle (IsManagedBlock p) before after b).0
          (subst (λ live. All (IsManagedBlock p) live) e c.placed)

    abbrev Given : Option Pmm → Type 0
    Given r =
        (q : Pmm) × (r ≡ some q) × IsConsistent p kept (record { pmm = q; live = before ++ after })

    give_kernel : IsKernelBlock p b → Given (free_pages s.pmm b.addr b.pages)
    give_kernel k =
        let (a, ran, held, counter) = give-IsHeld b (listed c.kernel) k in
        (
          record (s.pmm) { kernel_space_allocator = a },
          free_kernel s.pmm b.pages b.addr now-IsPmm s.pmm.kernel_space_allocator a ran
              (omega (arith, k.at, c.spaces.kernel_start))
              (omega (
                arith, k.at, k.inside, k.some_pages, v.kernel.inside, c.spaces.kernel_start,
                c.spaces.kernel_length,
              )),
          record {
            spaces = record {
              kernel_start = c.spaces.kernel_start;
              kernel_length = c.spaces.kernel_length;
              other_start = c.spaces.other_start;
              other_length = c.spaces.other_length;
            };
            kernel = held;
            other = without_other-IsHeld b (listed c.other) (inl (kernel_apart p kept v b k));
            placed = listed-placed.1;
            counted = omega (arith, counter, c.counted, listed-pages);
          },
        )

    give_other : IsOtherBlock p b → Given (free_pages s.pmm b.addr b.pages)
    give_other o =
        let (a, ran, held, counter) = give-IsHeld b (listed c.other) o in
        (
          record (s.pmm) { allocator = a },
          free_other s.pmm b.pages b.addr now-IsPmm s.pmm.allocator a ran
              (omega (arith, o.at, c.spaces.other_start))
              (omega (
                arith, o.at, o.inside, o.some_pages, v.other.inside, c.spaces.other_start,
                c.spaces.other_length,
              )),
          record {
            spaces = record {
              kernel_start = c.spaces.kernel_start;
              kernel_length = c.spaces.kernel_length;
              other_start = c.spaces.other_start;
              other_length = c.spaces.other_length;
            };
            kernel = without_other-IsHeld b (listed c.kernel) (inr (other_apart p kept v b o));
            other = held;
            placed = listed-placed.1;
            counted = omega (arith, counter, c.counted, listed-pages);
          },
        )

    -- Each block that a client holds can be given back.
    pub free_pages-IsConsistent : Given (free_pages s.pmm b.addr b.pages)
    free_pages-IsConsistent = elim listed-placed.0 [ inl k ↦ give_kernel k | inr o ↦ give_other o ]
