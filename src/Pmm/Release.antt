-- ===== src/Pmm/Release.antt =====
-- free_page(s) of pmm.cpp: which allocator gets the pages back.
use ckernel.Prelude.{ℕ, ◌+◌, ◌*◌, ◌≤◌, ◌<◌, ◌≡◌, refl, ◌∙◌, ap, ◌≢◌, inl, inr, some, arith}
use ckernel.Common.{page_size}
use ckernel.Firstfit.{Firstfit, alloc, free}
use ckernel.Firstfit.Alloc.{alloc_lem}
use ckernel.Firstfit.Free.{IsSameUse, free-alloc}
use ckernel.Pmm.{alloc_page, alloc_page_kernel, free_page}
use ckernel.Pmm.{Pmm, alloc_pages, alloc_pages_kernel, free_pages}
use ckernel.Pmm.Space.{IsPmm, IsOver, alloc-IsOver}

-- The first-fit round trip, with what it says of the address and of the area.
restore-IsOver :
    (start length len addr : ℕ) (a a' : Firstfit)
    → IsOver start length a
    → 0 < len
    → alloc a len ≡ some (addr, a')
    → addr ≢ 0
    → (a'' : Firstfit) × (free a' addr len ≡ some a'')
      × IsOver start length a''
      × IsSameUse a a''
      × (start ≤ addr)
      × (addr < start + length)
restore-IsOver start length len addr a a' o pos got nonzero =
    let (a'', ran, v, same) = free-alloc a a' len addr o.valid pos got nonzero in
    let (low, high) = place in
    (
      a'',
      ran,
      record { valid = v; at = same.start ∙ o.at; inside = omega (arith, same.total, o.inside) },
      same,
      low,
      high,
    )
  where
    place : (start ≤ addr) × (addr < start + length)
    place = elim (alloc_lem a len o.valid pos) [
      | inl r ↦
          (let e : addr ≡ a.allocator_start_addr + page_size * r.idx = cc (got, r.returns) in
            (omega (arith, o.at), omega (arith, o.at, o.inside, r.run.inside)))
      | inr (e, _) ↦ absurd (nonzero (cc (got, e)))
    ]

module _ (p : Pmm) (len addr : ℕ) (v : IsPmm p) where
  pub free_other :
      (a' a'' : Firstfit)
      → free a' addr len ≡ some a''
      → p.non_kernel_space_start ≤ addr
      → addr < p.non_kernel_space_start + p.non_kernel_space_length
      → free_pages (record p { allocator = a' }) addr len ≡ some (record p { allocator = a'' })
  unfolding free_pages
  free_other a' a'' ran low high = ground (arith, ran, v.apart, v.no_wrap)

  pub free_kernel :
      (a' a'' : Firstfit)
      → free a' addr len ≡ some a''
      → p.kernel_space_start ≤ addr
      → addr < p.kernel_space_start + p.kernel_space_length
      → free_pages (record p { kernel_space_allocator = a' }) addr len
        ≡ some (record p { kernel_space_allocator = a'' })
  unfolding free_pages
  free_kernel a' a'' ran low high = ground (arith, ran, v.apart, v.no_wrap)

pub other_run :
    (p : Pmm) (len addr : ℕ) (a : Firstfit)
    → alloc p.allocator len ≡ some (addr, a)
    → alloc_pages p len ≡ some (addr, record p { allocator = a })
unfolding alloc_pages
other_run p len addr a ran = rw ran

pub kernel_run :
    (p : Pmm) (len addr : ℕ) (a : Firstfit)
    → alloc p.kernel_space_allocator len ≡ some (addr, a)
    → alloc_pages_kernel p len ≡ some (addr, record p { kernel_space_allocator = a })
unfolding alloc_pages_kernel
kernel_run p len addr a ran = rw ran

-- On a valid manager, giving back the nonzero number of pages that `alloc_pages` handed out leaves the
-- kernel's allocator alone and restores the other one's pages in use and counter.
pub free_pages-alloc_pages :
    (p p' : Pmm) (len addr : ℕ)
    → IsPmm p
    → 0 < len
    → alloc_pages p len ≡ some (addr, p')
    → addr ≢ 0
    → (p'' : Pmm) × (free_pages p' addr len ≡ some p'')
      × IsPmm p''
      × (p''.kernel_space_allocator ≡ p.kernel_space_allocator)
      × IsSameUse p.allocator p''.allocator
free_pages-alloc_pages p p' len addr v pos got nonzero =
    let ((addr', a'), taken, _, over) =
      alloc-IsOver p.non_kernel_space_start p.non_kernel_space_length len p.allocator v.other pos in
    let same_addr : addr' ≡ addr = cc (got, other_run p len addr' a' taken) in
    let same_pmm : p' ≡ record p { allocator = a' } = cc (got, other_run p len addr' a' taken) in
    let (a'', ran, over', same_use, low, high) =
      restore-IsOver p.non_kernel_space_start p.non_kernel_space_length len addr p.allocator a'
        v.other pos (taken ∙ ap (λ t. some (t, a')) same_addr) nonzero in
    (
      record p { allocator = a'' },
      rw same_pmm (free_other p len addr v a' a'' ran low high),
      record {
        kernel = v.kernel;
        other = over';
        not_null = v.not_null;
        apart = v.apart;
        no_wrap = v.no_wrap;
      },
      refl,
      same_use,
    )

-- On a valid manager, giving back the nonzero number of pages that `alloc_pages_kernel` handed out
-- leaves the other allocator alone and restores the kernel's pages in use and counter.
pub free_pages-alloc_pages_kernel :
    (p p' : Pmm) (len addr : ℕ)
    → IsPmm p
    → 0 < len
    → alloc_pages_kernel p len ≡ some (addr, p')
    → addr ≢ 0
    → (p'' : Pmm) × (free_pages p' addr len ≡ some p'')
      × IsPmm p''
      × (p''.allocator ≡ p.allocator)
      × IsSameUse p.kernel_space_allocator p''.kernel_space_allocator
free_pages-alloc_pages_kernel p p' len addr v pos got nonzero =
    let ((addr', a'), taken, _, over) =
      alloc-IsOver p.kernel_space_start p.kernel_space_length len p.kernel_space_allocator v.kernel
        pos in
    let same_addr : addr' ≡ addr = cc (got, kernel_run p len addr' a' taken) in
    let same_pmm : p' ≡ record p { kernel_space_allocator = a' } =
      cc (got, kernel_run p len addr' a' taken) in
    let (a'', ran, over', same_use, low, high) =
      restore-IsOver p.kernel_space_start p.kernel_space_length len addr p.kernel_space_allocator a'
        v.kernel pos (taken ∙ ap (λ t. some (t, a')) same_addr) nonzero in
    (
      record p { kernel_space_allocator = a'' },
      rw same_pmm (free_kernel p len addr v a' a'' ran low high),
      record {
        kernel = over';
        other = v.other;
        not_null = v.not_null;
        apart = v.apart;
        no_wrap = v.no_wrap;
      },
      refl,
      same_use,
    )

-- The operations on one page are those on several with length 1.
single_page_lem :
    (p : Pmm) (addr : ℕ)
    → (alloc_page p ≡ alloc_pages p 1)
      × (alloc_page_kernel p ≡ alloc_pages_kernel p 1)
      × (free_page p addr ≡ free_pages p addr 1)
unfolding alloc_page alloc_pages alloc_page_kernel alloc_pages_kernel free_page free_pages
single_page_lem p addr = (refl, refl, refl)
