-- ===== src/Firstfit/Fresh.antt =====
-- The start of an allocator of firstfit.cpp: the first pages are reserved by address, then a block is
-- allocated.
use ckernel.Prelude.{ℕ, ◌+◌, ◌*◌, ◌≤◌, ◌<◌, ◌≡◌, ◌∙◌, ap, true, false, inl, inr, some, arith, ltb}
use ckernel.Common.{page_size}
use ckernel.Firstfit.{Firstfit, alloc, alloc_at, page_index}
use ckernel.Firstfit.Bitmap.{used}
use ckernel.Firstfit.Find.{IsRun}
use ckernel.Firstfit.Alloc.{IsValid, alloc_lem}
use ckernel.Firstfit.AllocAt.{alloc_at_lem}

-- The first `k` pages are in use, and no others.
pub record IsFilledTo (a : Firstfit) (k : ℕ) (b : Firstfit) : Type 0 where
  pub valid : IsValid b
  pub start : b.allocator_start_addr ≡ a.allocator_start_addr
  pub total : b.allocator_length ≡ a.allocator_length
  pub pages : (j : ℕ) → used b j ≡ ltb j k

index_zero : (a : Firstfit) → page_index a a.allocator_start_addr ≡ 0
index_zero a = omega arith

module _ (a : Firstfit) (k : ℕ) where
  pub reserve_first :
      IsValid a
      → ((j : ℕ) → used a j ≡ false)
      → 0 < a.allocator_length
      → k ≤ a.allocator_length
      → (b : Firstfit) × (alloc_at a a.allocator_start_addr k ≡ some (true, b)) × IsFilledTo a k b
  reserve_first v fresh some_pages inside =
      let at_zero = index_zero a in
      elim (alloc_at_lem a a.allocator_start_addr k v (omega arith, omega arith) (omega arith)) [
        | inl g ↦ (
          g.after,
          g.returns,
          record {
            valid = g.valid;
            start = g.taken.start;
            total = g.taken.total;
            pages = λ j. ground (arith, g.taken.pages j, fresh j);
          },
        )
        | inr (_, busy) ↦ let (j, _, _, in_use) = busy in absurd (ground (arith, in_use, fresh j))
      ]

  pub alloc_next :
      {b : Firstfit} (n : ℕ)
      → IsFilledTo a k b
      → 0 < n
      → k + n ≤ a.allocator_length
      → (c : Firstfit) × (alloc b n ≡ some (a.allocator_start_addr + page_size * k, c))
        × IsFilledTo a (k + n) c
  alloc_next {b} n f pos room = elim (alloc_lem b n f.valid pos) [
    | inl r ↦
        let low : r.idx ≤ k = r.least k next in
        let high : k ≤ r.idx = not_below r.idx (r.run.same r.idx (omega arith) (omega arith)) in
        let at : r.idx ≡ k = omega arith in
        (
          r.after,
          r.returns ∙ ap (λ (t : ℕ). some (t, r.after)) (omega (arith, f.start)),
          record {
            valid = r.valid;
            start = r.taken.start ∙ f.start;
            total = r.taken.total ∙ f.total;
            pages = λ j. ground (arith, at, r.taken.pages j, f.pages j);
          },
        )
    | inr (_, none_free) ↦ absurd (none_free k next)
  ]
    where
      next : IsRun b n false k
      next = record { inside = omega (arith, f.total); same = λ j p q. ground (arith, f.pages j) }

      not_below : (j : ℕ) → used b j ≡ false → k ≤ j
      not_below j e = ground (arith, f.pages j, e)
