-- ===== src/Pmm/Space.antt =====
-- The two spaces of pmm.cpp: the invariant of the manager, and where the pages that it hands out lie.
use ckernel.Prelude.{
  ℕ, ◌+◌, ◌*◌, ◌≤◌, ◌<◌, ◌^◌, ◌≡◌, refl, ◌∙◌, ap, ◌⊎◌, inl, inr, some, Option, arith,
}
use ckernel.Common.{page_size}
use ckernel.Firstfit.{Firstfit, alloc, get_used_count, get_free_count}
use ckernel.Firstfit.Alloc.{IsValid, alloc_lem}
use ckernel.Pmm.{Pmm, alloc_pages, alloc_pages_kernel, get_used_pages_count, get_free_pages_count}
use ckernel.Pmm.{get_kernel_space_start, get_kernel_space_length, get_non_kernel_space_start}
use ckernel.Pmm.{get_non_kernel_space_length}

-- An allocator for pages of the area of `length` bytes at `start`.
pub record IsOver (start length : ℕ) (a : Firstfit) : Type 0 where
  pub valid : IsValid a
  pub at : a.allocator_start_addr ≡ start
  pub inside : a.allocator_length * page_size ≤ length

-- The invariant of the manager: each allocator is over its space, address 0 is in neither space, the
-- kernel's space lies below the other one, and the addresses do not wrap.
pub record IsPmm (p : Pmm) : Type 0 where
  pub kernel : IsOver p.kernel_space_start p.kernel_space_length p.kernel_space_allocator
  pub other : IsOver p.non_kernel_space_start p.non_kernel_space_length p.allocator
  pub not_null : 0 < p.kernel_space_start
  pub apart : p.kernel_space_start + p.kernel_space_length ≤ p.non_kernel_space_start
  pub no_wrap : p.non_kernel_space_start + p.non_kernel_space_length < 2 ^ 64

-- The result of an allocation of `len` pages in the area: the pages lie in it, or it is 0 and nothing
-- has changed.
abbrev pub IsBlockOf : ℕ → ℕ → ℕ → Firstfit → ℕ × Firstfit → Type 0
IsBlockOf start length len a (addr, a') =
    ((addr ≡ 0) × (a' ≡ a)) ⊎ ((start ≤ addr) × (addr + len * page_size ≤ start + length))

pub alloc-IsOver :
    (start length len : ℕ) (a : Firstfit)
    → IsOver start length a
    → 0 < len
    → (r : ℕ × Firstfit) × (alloc a len ≡ some r)
      × IsBlockOf start length len a r
      × IsOver start length r.1
alloc-IsOver start length len a o pos = elim (alloc_lem a len o.valid pos) [
  | inl r ↦ (
    (a.allocator_start_addr + page_size * r.idx, r.after),
    r.returns,
    inr (omega (arith, o.at), omega (arith, o.at, o.inside, r.run.inside)),
    record {
      valid = r.valid;
      at = r.taken.start ∙ o.at;
      inside = omega (arith, r.taken.total, o.inside);
    },
  )
  | inr (e, _) ↦ ((0, a), e, inl (refl, refl), o)
]

abbrev pub OtherBlock : (p : Pmm) → ℕ → ℕ → Type 0
OtherBlock p len addr =
    (get_non_kernel_space_start p ≤ addr)
    × (addr + len * page_size ≤ get_non_kernel_space_start p + get_non_kernel_space_length p)

abbrev pub KernelBlock : (p : Pmm) → ℕ → ℕ → Type 0
KernelBlock p len addr =
    (get_kernel_space_start p ≤ addr)
    × (addr + len * page_size ≤ get_kernel_space_start p + get_kernel_space_length p)

-- The two managers have the same spaces.
pub record IsSameSpaces (p p' : Pmm) : Type 0 where
  pub kernel_start : p'.kernel_space_start ≡ p.kernel_space_start
  pub kernel_length : p'.kernel_space_length ≡ p.kernel_space_length
  pub other_start : p'.non_kernel_space_start ≡ p.non_kernel_space_start
  pub other_length : p'.non_kernel_space_length ≡ p.non_kernel_space_length

-- A result of an allocation of `len` pages by the manager: 0 with nothing changed, or a block that
-- `Block` holds of; the manager stays valid.
abbrev pub IsOutcome : (Block : ℕ → Type 0) → Pmm → Option (ℕ × Pmm) → Type 0
IsOutcome Block p result =
    (addr : ℕ) × (p' : Pmm) × (result ≡ some (addr, p'))
    × IsPmm p'
    × IsSameSpaces p p'
    × (((addr ≡ 0) × (p' ≡ p)) ⊎ Block addr)

pub alloc_pages_lem :
    (p : Pmm) (len : ℕ) → IsPmm p → 0 < len → IsOutcome (OtherBlock p len) p (alloc_pages p len)
unfolding alloc_pages
alloc_pages_lem p len v pos =
    let ((addr, a), ran, block, over) =
      alloc-IsOver p.non_kernel_space_start p.non_kernel_space_length len p.allocator v.other pos in
    (
      addr,
      record p { allocator = a },
      rw ran,
      record {
        kernel = v.kernel;
        other = over;
        not_null = v.not_null;
        apart = v.apart;
        no_wrap = v.no_wrap;
      },
      record { kernel_start = refl; kernel_length = refl; other_start = refl; other_length = refl },
      elim block [
        | inl (none_free, same) ↦
            inl (none_free, ap (λ (b : Firstfit). record p { allocator = b }) same)
        | inr inside ↦ inr inside
      ],
    )

pub alloc_pages_kernel_lem :
    (p : Pmm) (len : ℕ)
    → IsPmm p
    → 0 < len
    → IsOutcome (KernelBlock p len) p (alloc_pages_kernel p len)
unfolding alloc_pages_kernel
alloc_pages_kernel_lem p len v pos =
    let ((addr, a), ran, block, over) =
      alloc-IsOver p.kernel_space_start p.kernel_space_length len p.kernel_space_allocator v.kernel
        pos in
    (
      addr,
      record p { kernel_space_allocator = a },
      rw ran,
      record {
        kernel = over;
        other = v.other;
        not_null = v.not_null;
        apart = v.apart;
        no_wrap = v.no_wrap;
      },
      record { kernel_start = refl; kernel_length = refl; other_start = refl; other_length = refl },
      elim block [
        | inl (none_free, same) ↦
            inl (none_free, ap (λ (b : Firstfit). record p { kernel_space_allocator = b }) same)
        | inr inside ↦ inr inside
      ],
    )

-- On a valid manager, an allocation of pages followed by one of kernel pages, of nonzero lengths,
-- touches no memory outside the bitmaps and leaves the manager valid. Each returns 0 or the address of a
-- block inside its own space, so that two blocks do not overlap.
pub alloc_pages-kernel :
    (p : Pmm) (len kernel_len : ℕ)
    → IsPmm p
    → 0 < len
    → 0 < kernel_len
    → (addr kernel_addr : ℕ) × (p' p'' : Pmm) × (alloc_pages p len ≡ some (addr, p'))
      × (alloc_pages_kernel p' kernel_len ≡ some (kernel_addr, p''))
      × IsPmm p''
      × ((addr ≡ 0) ⊎ OtherBlock p len addr)
      × ((kernel_addr ≡ 0) ⊎ KernelBlock p kernel_len kernel_addr)
      × ((addr ≡ 0) ⊎ ((kernel_addr ≡ 0) ⊎ (kernel_addr + kernel_len * page_size ≤ addr)))
alloc_pages-kernel p len kernel_len v pos kernel_pos =
    let (addr, p', ran, v', same, outcome) = alloc_pages_lem p len v pos in
    let (kernel_addr, p'', ran', v'', _, outcome') =
      alloc_pages_kernel_lem p' kernel_len v' kernel_pos in
    let below = v.apart in
    let outer : (addr ≡ 0) ⊎ OtherBlock p len addr = ground (arith, outcome) in
    let inner : (kernel_addr ≡ 0) ⊎ KernelBlock p kernel_len kernel_addr =
      ground (arith, outcome', same.kernel_start, same.kernel_length) in
    (addr, kernel_addr, p', p'', ran, ran', v'', outer, inner, ground (arith, outer, inner))

-- The used and the free pages of a valid manager make up the pages of its two allocators.
pub page_counts_lem :
    (p : Pmm)
    → IsPmm p
    → get_used_pages_count p + get_free_pages_count p
      ≡ p.kernel_space_allocator.allocator_length + p.allocator.allocator_length
unfolding get_used_pages_count get_free_pages_count get_used_count get_free_count
page_counts_lem p v =
    let k = v.kernel.valid in
    let o = v.other.valid in omega (arith, k.balance, o.balance, k.bounded.fits, o.bounded.fits)
