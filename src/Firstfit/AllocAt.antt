-- ===== src/Firstfit/AllocAt.antt =====
-- `FIRSTFIT::alloc(_addr, _len)` of firstfit.cpp, on every branch.
use ckernel.Prelude.{ℕ, ◌+◌, ◌*◌, ◌≤◌, ◌<◌, ◌≡◌, ◌⊎◌, inl, inr, true, false}
use ckernel.Prelude.{some, Option, Bool, arith, ◌>>=◌}
use ckernel.Common.{page_size}
use ckernel.Firstfit.{
  Firstfit, rounds, set_range, count_allocated, alloc_at, page_index, out_of_range,
}
use ckernel.Firstfit.Bitmap.{used}
use ckernel.Firstfit.Find.{IsRun}
use ckernel.Firstfit.Range.{
  AllFree, SomeUsed, any_used_lem, any_used-AllFree, base_fields, set_range_lem,
}
use ckernel.Firstfit.Count.{count, count-le, count-fill_min}
use ckernel.Word.{u64}
use ckernel.Firstfit.Alloc.{IsValid, IsTaken, take_lem}

-- `addr` lies in the managed area.
abbrev pub IsManaged : Firstfit → ℕ → Type 0
IsManaged a addr =
    (a.allocator_start_addr ≤ addr)
    × (addr < a.allocator_start_addr + a.allocator_length * page_size)

pub managed_in_range :
    (a : Firstfit) (addr : ℕ)
    → IsValid a
    → IsManaged a addr
    → (out_of_range a addr ≡ false) × (page_index a addr < a.allocator_length)
managed_in_range a addr v m = (ground (arith, v.no_wrap), omega arith)

pub unmanaged_out_of_range :
    (a : Firstfit) (addr : ℕ) → IsValid a → ¬ IsManaged a addr → out_of_range a addr ≡ true
unmanaged_out_of_range a addr v m = ground (arith, v.no_wrap)

-- The pages of the request were free and have been taken.
pub record IsGranted (a : Firstfit) (idx len : ℕ) (result : Option (Bool × Firstfit)) : Type 0 where
  pub after : Firstfit
  pub returns : result ≡ some (true, after)
  pub run : IsRun a len false idx
  pub taken : IsTaken a idx len after
  pub valid : IsValid after

grant :
    (a : Firstfit) (idx len : ℕ)
    → IsValid a
    → idx + len ≤ a.allocator_length
    → AllFree a idx len
    → IsGranted a idx len (set_range len idx a >>= λ b. some (true, count_allocated len b))
grant a idx len v inside free =
    let bounded = v.bounded in
    let run : IsRun a len false idx = record { inside = inside; same = free } in
    let (b, ran, fill) = set_range_lem len idx a bounded.whole (omega arith) in
    let (taken, valid) = take_lem idx len v run fill in
    record {
      after = count_allocated len b;
      returns = rw ran;
      run = run;
      taken = taken;
      valid = valid;
    }

-- On a valid allocator, for an address in the managed area and a length that stays in it, `alloc`
-- takes exactly the `len` pages from the page of the address on and keeps the allocator valid if they
-- are all free; if one is in use it answers false and changes nothing.
pub alloc_at_lem :
    (a : Firstfit) (addr len : ℕ)
    → IsValid a
    → IsManaged a addr
    → page_index a addr + len ≤ a.allocator_length
    → IsGranted a (page_index a addr) len (alloc_at a addr len)
      ⊎ ((alloc_at a addr len ≡ some (false, a)) × SomeUsed a (page_index a addr) len)
unfolding alloc_at
alloc_at_lem a addr len v m inside =
    let idx = page_index a addr in
    let bounded = v.bounded in
    let all : rounds idx len ≡ len = omega arith in
    rw ((managed_in_range a addr v m).0, all)
      (elim (any_used_lem len idx a bounded.whole (omega arith)) [
        | inl (e, free) ↦ inl (rw e (grant a idx len v inside free))
        | inr (e, some_used) ↦ inr (rw e, some_used)
      ])

-- Outside the managed area `alloc` answers false and changes nothing.
alloc_at_outside :
    (a : Firstfit) (addr len : ℕ)
    → IsValid a
    → ¬ IsManaged a addr
    → alloc_at a addr len ≡ some (false, a)
unfolding alloc_at
alloc_at_outside a addr len v m = rw (unmanaged_out_of_range a addr v m)

-- The end of the request is not compared with the end of the area: a request that starts inside and
-- runs over the end is granted if the bits behind it happen to be clear, and the counters then no
-- longer count the pages in use.
pub alloc_at_overrun :
    (a : Firstfit) (addr len : ℕ)
    → IsValid a
    → IsManaged a addr
    → a.allocator_length < page_index a addr + len
    → page_index a addr + len ≤ 32768
    → AllFree a (page_index a addr) len
    → (a' : Firstfit) × (alloc_at a addr len ≡ some (true, a')) × ¬ IsValid a'
unfolding alloc_at
alloc_at_overrun a addr len v m over fits free =
    let idx = page_index a addr in
    let whole = v.bounded.whole in
    let all : rounds idx len ≡ len = omega arith in
    let (b, ran, fill) = set_range_lem len idx a whole fits in
    (
      count_allocated len b,
      rw ((managed_in_range a addr v m).0, all)
          (rw (any_used-AllFree len idx a whole fits free, ran)),
      λ bad.
          (let (start, total, free_same, used_same) = base_fields fill in
            let filled =
              count-fill_min (used a) (used b) idx len a.allocator_length free fill.pages in
            let wrong : u64 (b.allocator_used_count + len) ≡ count (used b) a.allocator_length =
              rw total at bad.counted in
            absurd (
              omega
                (arith, (managed_in_range a addr v m).1, count-le (used a) a.allocator_length))),
    )
