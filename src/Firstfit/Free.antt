-- ===== src/Firstfit/Free.antt =====
-- `FIRSTFIT::free` of firstfit.cpp: on pages in use, after `alloc`, and on a page that is free.
use ckernel.Prelude.{ℕ, ◌+◌, ◌*◌, ◌≤◌, ◌<◌, ◌≡◌, ◌∙◌, true, false, ◌≢◌, fun_ext}
use ckernel.Prelude.{some, arith, if◌then◌else◌, inl, inr}
use mathlib.Core.Path.{subst}
use ckernel.Common.{page_size}
use ckernel.Word.{sub64}
use ckernel.Firstfit.{Firstfit, rounds, count_freed, alloc, clr_range, free, page_index}
use ckernel.Firstfit.Bitmap.{used}
use ckernel.Firstfit.Find.{IsRun}
use ckernel.Firstfit.Range.{IsFilled, within, base_fields, clr_range_lem}
use ckernel.Firstfit.Count.{count, count-fill, count-le}
use ckernel.Firstfit.Alloc.{IsValid, IsTaken, alloc_lem}
use native.Mathlib.Decide.{ℕ_discrete}
use ckernel.Firstfit.AllocAt.{IsManaged, managed_in_range}

-- `a'` is `a` with the `len` pages from `idx` on given back and counted as such.
pub record IsReleased (a : Firstfit) (idx len : ℕ) (a' : Firstfit) : Type 0 where
  pub start : a'.allocator_start_addr ≡ a.allocator_start_addr
  pub total : a'.allocator_length ≡ a.allocator_length
  pub counter : a'.allocator_used_count + len ≡ a.allocator_used_count
  pub pages : (j : ℕ) → used a' j ≡ (if within idx len j then false else used a j)

release_lem :
    {a : Firstfit} (idx len : ℕ) {b : Firstfit}
    → IsValid a
    → IsRun a len true idx
    → IsFilled false idx len a b
    → IsReleased a idx len (count_freed len b) × IsValid (count_freed len b)
release_lem {a} idx len {b} v run fill =
    let (start, total, free_same, used_same) = base_fields fill in
    let less : count (used a) a.allocator_length ≡ count (used b) a.allocator_length + len =
      count-fill (used b) (used a) idx len a.allocator_length
        (λ j p q. ground (arith, fill.pages j)) (λ j. ground (arith, fill.pages j, run.same j))
        run.inside in
    let room = count-le (used a) a.allocator_length in
    (
      record { start = start; total = total; counter = omega arith; pages = fill.pages },
      record {
        bounded = record { whole = fill.whole; fits = omega arith };
        counted = rw total (omega arith);
        balance = omega arith;
        no_wrap = omega arith;
      },
    )

-- Inside the managed area `free` is the loop and the update of the counters.
free_inside :
    (a : Firstfit) (addr len : ℕ) {b : Firstfit}
    → IsValid a
    → IsManaged a addr
    → page_index a addr + len ≤ 32768
    → clr_range len (page_index a addr) a ≡ some b
    → free a addr len ≡ some (count_freed len b)
unfolding free
free_inside a addr len v m fits ran = rw ((managed_in_range a addr v m).0, all, ran)
  where
    all : rounds (page_index a addr) len ≡ len
    all = omega arith

-- On a valid allocator, for an address in the managed area and `len` pages of the area that are all
-- in use, `free` clears exactly these pages, subtracts `len` from the counter and keeps the
-- allocator valid.
pub free_lem :
    (a : Firstfit) (addr len : ℕ)
    → IsValid a
    → IsManaged a addr
    → IsRun a len true (page_index a addr)
    → (a' : Firstfit) × (free a addr len ≡ some a')
      × IsReleased a (page_index a addr) len a'
      × IsValid a'
free_lem a addr len v m run =
    let idx = page_index a addr in
    let fits : idx + len ≤ 32768 = omega (arith, run.inside, v.bounded.fits) in
    let (b, ran, fill) = clr_range_lem len idx a v.bounded.whole fits in
    let (released, valid) = release_lem idx len v run fill in
    (count_freed len b, free_inside a addr len v m fits ran, released, valid)

pub free_at :
    (a : Firstfit) (addr idx len : ℕ)
    → IsValid a
    → IsManaged a addr
    → page_index a addr ≡ idx
    → IsRun a len true idx
    → (a' : Firstfit) × (free a addr len ≡ some a') × IsReleased a idx len a' × IsValid a'
free_at a addr idx len v m e =
    subst
      (λ k.
        IsRun a len true k
        → (a' : Firstfit) × (free a addr len ≡ some a') × IsReleased a k len a' × IsValid a')
      e (free_lem a addr len v m)

-- The two allocators have the same area, the same pages in use and the same counter.
pub record IsSameUse (a a' : Firstfit) : Type 0 where
  pub start : a'.allocator_start_addr ≡ a.allocator_start_addr
  pub total : a'.allocator_length ≡ a.allocator_length
  pub counter : a'.allocator_used_count ≡ a.allocator_used_count
  pub pages : (j : ℕ) → used a' j ≡ used a j

restore :
    (a a' : Firstfit) (idx len : ℕ)
    → IsValid a
    → 0 < len
    → IsRun a len false idx
    → IsTaken a idx len a'
    → IsValid a'
    → (a'' : Firstfit) × (free a' (a.allocator_start_addr + page_size * idx) len ≡ some a'')
      × IsValid a''
      × IsSameUse a a''
restore a a' idx len v pos run taken v' =
    let addr = a.allocator_start_addr + page_size * idx in
    let inside = run.inside in
    let index : page_index a' addr ≡ idx = omega arith in
    let managed : IsManaged a' addr = (omega arith, omega arith) in
    let in_use : IsRun a' len true idx = record {
      inside = omega arith;
      same = λ j p q. ground (arith, taken.pages j);
    } in
    let (a'', freed, released, valid) = free_at a' addr idx len v' managed index in_use in
    (
      a'',
      freed,
      valid,
      record {
        start = released.start ∙ taken.start;
        total = released.total ∙ taken.total;
        counter = omega (arith, released.counter);
        pages = λ j. ground (arith, released.pages j, taken.pages j, run.same j);
      },
    )

-- On a valid allocator, giving back the nonzero number of pages that `alloc` handed out, by their
-- address and number, leaves a valid allocator over the same area with the same pages in use and the
-- same counter as before `alloc`.
pub free-alloc :
    (a a' : Firstfit) (len addr : ℕ)
    → IsValid a
    → 0 < len
    → alloc a len ≡ some (addr, a')
    → addr ≢ 0
    → (a'' : Firstfit) × (free a' addr len ≡ some a'') × IsValid a'' × IsSameUse a a''
free-alloc a a' len addr v pos got nonzero = elim (alloc_lem a len v pos) [
  | inl r ↦
      (let e : addr ≡ a.allocator_start_addr + page_size * r.idx = cc (got, r.returns) in
        let e' : a' ≡ r.after = cc (got, r.returns) in
        rw (e, e') (restore a r.after r.idx len v pos r.run r.taken r.valid))
  | inr (e, _) ↦ absurd (nonzero (cc (got, e)))
]

miscounted :
    {a b : Firstfit} (idx : ℕ)
    → IsValid a
    → idx < a.allocator_length
    → used a idx ≡ false
    → IsFilled false idx 1 a b
    → ¬ IsValid (count_freed 1 b)
miscounted {a} {b} idx v below is_free fill bad =
    let (start, total, free_same, used_same) = base_fields fill in
    let same : used b ≡ used a = fun_ext unchanged in
    let counted : sub64 b.allocator_used_count 1 ≡ count (used b) a.allocator_length =
      rw total at bad.counted in
    let room = count-le (used a) a.allocator_length in
    absurd (omega (arith, rw same at counted, v.bounded.fits))
  where
    unchanged : (j : ℕ) → used b j ≡ used a j
    unchanged j = elim (ℕ_discrete idx j) [
      | yes e ↦ rw (fill.pages j, ← e) (ground (arith, is_free))
      | no ne ↦ ground (arith, fill.pages j)
    ]

-- A page that is already free is not noticed: the counters are then wrong.
pub free_of_free :
    (a : Firstfit) (addr : ℕ)
    → IsValid a
    → IsManaged a addr
    → used a (page_index a addr) ≡ false
    → (a' : Firstfit) × (free a addr 1 ≡ some a') × ¬ IsValid a'
free_of_free a addr v m is_free =
    let idx = page_index a addr in
    let below = (managed_in_range a addr v m).1 in
    let fits : idx + 1 ≤ 32768 = omega (arith, v.bounded.fits) in
    let (b, ran, fill) = clr_range_lem 1 idx a v.bounded.whole fits in
    (count_freed 1 b, free_inside a addr 1 v m fits ran, miscounted idx v below is_free fill)
